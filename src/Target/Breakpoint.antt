-- ===== src/Target/Breakpoint.antt =====
-- The tables of breakpoints: `rv_target_insert_breakpoint` and `rv_target_remove_breakpoint` of
-- riscv-target.c.
pub mod Software
pub mod Stored
pub mod Hardware
mod Tests
use mathlib.Core.Option
use nuclei_dlink.Base.{
  ℕ, zero, suc, ◌+◌, ◌*◌, ◌/◌, ◌%◌, ◌^◌, Bool, true, false, ◌&&◌, ◌||◌, Option, none, some, List,
  [], ◌∷◌, ◌++◌, length, take, drop, ◌==◌, if◌then◌else◌, set_field,
}

-- What the functions use of the target: memory by halfwords, and its registers, which every read
-- stores a value of. `zero_value` is what a register write at `&zero` reads: 0 on a 32-bit target,
-- with the variable behind it as the high word on a 64-bit one.
pub record Hart (W : Type 0) : Type 0 where
  pub mxl : ℕ
  pub misa_s : Bool
  pub misa_u : Bool
  pub zero_value : ℕ
  pub read_halves : ℕ → ℕ → W → List ℕ × W
  pub write_halves : List ℕ → ℕ → W → W
  pub read_register : ℕ → W → ℕ × W
  pub write_register : ℕ → ℕ → W → W

-- The debugger can send a number that is none of the enumeration.
pub data BreakpointType : Type 0 where
  software : BreakpointType
  hardware : BreakpointType
  write_watchpoint : BreakpointType
  read_watchpoint : BreakpointType
  access_watchpoint : BreakpointType
  unused : BreakpointType
  above : ℕ → BreakpointType

unfoldable pub type_number : BreakpointType → ℕ
type_number software = 0
type_number hardware = 1
type_number write_watchpoint = 2
type_number read_watchpoint = 3
type_number access_watchpoint = 4
type_number unused = 5
type_number (above n) = 6 + n

-- `rv_software_breakpoint_t`, with the two halfwords of `inst`, and
-- `rv_hardware_breakpoint_t`, which has none.
pub record Slot : Type 0 where
  pub type : BreakpointType
  pub addr : ℕ
  pub kind : ℕ
  pub inst : List ℕ

unfoldable pub is_unused : Slot → Bool
is_unused b = type_number b.type == 5

pub is_at : BreakpointType → ℕ → ℕ → Slot → Bool
is_at type addr kind b =
    (type_number b.type == type_number type) && ((b.addr == addr) && (b.kind == kind))

abbrev pub reg_tselect : ℕ
reg_tselect = 65 + 0x7a0

abbrev pub reg_tdata1 : ℕ
reg_tdata1 = 65 + 0x7a1

abbrev pub reg_tdata2 : ℕ
reg_tdata2 = 65 + 0x7a2

abbrev pub table_error : ℕ
table_error = 0x0e

-- `(kind == 2) ? 1 : 2` halfwords, and the instruction that is written.
pub half_count : ℕ → ℕ
half_count kind = if kind == 2 then 1 else 2

pub ebreak_halves : ℕ → List ℕ
ebreak_halves kind = if kind == 2 then 0x9002 ∷ [] else 0x0073 ∷ 0x0010 ∷ []

-- `execute`, `store` and `load` by the type.
pub set_kind : BreakpointType → ℕ → ℕ
set_kind hardware x = set_field 2 1 1 x
set_kind write_watchpoint x = set_field 1 1 1 x
set_kind read_watchpoint x = set_field 0 1 1 x
set_kind access_watchpoint x = set_field 0 1 1 (set_field 1 1 1 x)
set_kind software x = x
set_kind unused x = x
set_kind (above n) x = x

module _ {W : Type 0} (hart : Hart W) where
  -- The loop over the software table from a slot on: the table and the state after it, or `none`
  -- when it ends without a break.
  pub insert_software : ℕ → ℕ → List Slot → W → Option (List Slot × W)
  insert_software addr kind [] w = none
  insert_software addr kind (b ∷ bs) w =
      let (halves, w') = hart.read_halves addr (half_count kind) w in
      let slot = record b {
        type = software;
        addr = addr;
        kind = kind;
        inst = halves ++ drop (length halves) b.inst;
      } in
      let later = insert_software addr kind bs w in
      if is_unused b
      then some (slot ∷ bs, hart.write_halves (ebreak_halves kind) addr w')
      else Option.map (λ r. (b ∷ r.0, r.1)) later

  pub remove_software : ℕ → ℕ → List Slot → W → Option (List Slot × W)
  remove_software addr kind [] w = none
  remove_software addr kind (b ∷ bs) w =
      let later = remove_software addr kind bs w in
      if is_at software addr kind b
      then some (
        record b { type = unused } ∷ bs,
        hart.write_halves (take (half_count kind) b.inst) addr w,
      )
      else Option.map (λ r. (b ∷ r.0, r.1)) later

  -- Trigger `i` is selected; false when the register does not take the number.
  pub select_trigger : ℕ → W → Bool × W
  select_trigger i w =
      let (read, w') = hart.read_register reg_tselect (hart.write_register reg_tselect i w) in
      (read == i, w')

  -- The fields of `tdata1` for a breakpoint; `dmode` is bit 27 or 59.
  pub trigger_data : BreakpointType → ℕ → ℕ
  trigger_data type x =
      let dmode = if hart.mxl == 1 then 27 else 59 in
      let machine = set_field 6 1 1 (set_field 7 4 0 (set_field 12 4 1 (set_field dmode 1 1 x))) in
      let supervisor = if hart.misa_s then set_field 4 1 1 machine else machine in
      set_kind type (if hart.misa_u then set_field 3 1 1 supervisor else supervisor)

  -- Selects trigger `i` and sets it up; false when a register does not take its value.
  pub set_trigger : ℕ → BreakpointType → ℕ → W → Bool × W
  set_trigger i type addr w =
      let (selected, w1) = select_trigger i w in
      let (old, w2) = hart.read_register reg_tdata1 w1 in
      let value = trigger_data type old in
      let (read, w3) = hart.read_register reg_tdata1 (hart.write_register reg_tdata1 value w2) in
      let done : Bool × W = (true, hart.write_register reg_tdata2 addr w3) in
      if (hart.mxl == 1) || (hart.mxl == 2)
      then (if selected then (if read == value then done else (false, w3)) else (false, w1))
      else (true, w)

  pub clear_trigger : ℕ → W → Bool × W
  clear_trigger i w =
      let (selected, w1) = select_trigger i w in
      let done : Bool × W = (true, hart.write_register reg_tdata1 hart.zero_value w1) in
      if (hart.mxl == 1) || (hart.mxl == 2)
      then (if selected then done else (false, w1))
      else (true, hart.write_register reg_tdata1 hart.zero_value w)

  -- The loops over the hardware table from slot `i` on, with the success of the trigger's set-up.
  pub insert_hardware : BreakpointType → ℕ → ℕ → ℕ → List Slot → W → Option (Bool × List Slot × W)
  insert_hardware type addr kind i [] w = none
  insert_hardware type addr kind i (b ∷ bs) w =
      let (ok, w') = set_trigger i type addr w in
      let slot = record b { type = type; addr = addr; kind = kind } in
      let later = insert_hardware type addr kind (suc i) bs w in
      if is_unused b then some (ok, slot ∷ bs, w') else Option.map (λ r. (r.0, b ∷ r.1, r.2)) later

  pub remove_hardware : BreakpointType → ℕ → ℕ → ℕ → List Slot → W → Option (Bool × List Slot × W)
  remove_hardware type addr kind i [] w = none
  remove_hardware type addr kind i (b ∷ bs) w =
      let (ok, w') = clear_trigger i w in
      let later = remove_hardware type addr kind (suc i) bs w in
      if is_at type addr kind b
      then some (ok, (if ok then record b { type = unused } else b) ∷ bs, w')
      else Option.map (λ r. (r.0, b ∷ r.1, r.2)) later

-- The two tables, and the target.
pub record Tables (W : Type 0) : Type 0 where
  pub software_breakpoints : List Slot
  pub hardware_breakpoints : List Slot
  pub target : W

module _ {W : Type 0} (hart : Hart W) where
  -- The end of the software branches: the error and the state.
  pub software_result : Option (List Slot × W) → Tables W → ℕ × Tables W
  software_result none t = (table_error, t)
  software_result (some (bs, w)) t = (0, record t { software_breakpoints = bs; target = w })

  -- The end of the hardware branches: `tselect` is written back, but not when a trigger's register did
  -- not take its value.
  pub hardware_result : ℕ → W → Option (Bool × List Slot × W) → Tables W → ℕ × Tables W
  hardware_result tselect w none t =
      (table_error, record t { target = hart.write_register reg_tselect tselect w })
  hardware_result tselect w (some (false, bs, w')) t =
      (table_error, record t { hardware_breakpoints = bs; target = w' })
  hardware_result tselect w (some (true, bs, w')) t = (
    0,
    record t { hardware_breakpoints = bs; target = hart.write_register reg_tselect tselect w' },
  )

  pub rv_target_insert_breakpoint : BreakpointType → ℕ → ℕ → Tables W → ℕ × Tables W
  rv_target_insert_breakpoint type addr kind t =
      let (tselect, w) = hart.read_register reg_tselect t.target in
      if type_number type == 0
      then software_result (insert_software hart addr kind t.software_breakpoints t.target) t
      else hardware_result tselect w
          (insert_hardware hart type addr kind 0 t.hardware_breakpoints w) t

  pub rv_target_remove_breakpoint : BreakpointType → ℕ → ℕ → Tables W → ℕ × Tables W
  rv_target_remove_breakpoint type addr kind t =
      let (tselect, w) = hart.read_register reg_tselect t.target in
      if type_number type == 0
      then software_result (remove_software hart addr kind t.software_breakpoints t.target) t
      else hardware_result tselect w
          (remove_hardware hart type addr kind 0 t.hardware_breakpoints w) t
