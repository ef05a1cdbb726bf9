-- ===== src/Target/Halt/Triggers.antt =====
-- The halt check on a target whose triggers are as the debug specification has them: `tselect`
-- selects one, and `tdata1` is the selected one's.
use nuclei_dlink.Base.{
  ◌%◌, ◌^◌, ℕ, suc, ◌≡◌, refl, true, false, Option, none, some, List, [], ◌∷◌, ◌==◌, if◌then◌else◌,
  Bool-cases, inl, inr,
}
use nuclei_dlink.Server.{HaltReason, hardware_breakpoint, other, HaltInfo}
use nuclei_dlink.Target.Breakpoint.{
  BreakpointType, software, hardware, write_watchpoint, read_watchpoint, access_watchpoint, unused,
  above, type_number, Hart, Slot, is_unused, reg_tselect, reg_tdata1,
}
use nuclei_dlink.Target.Register.Names.{dcsr_regno, dpc_regno}
use nuclei_dlink.Target.Halt.{
  reason_of, is_watchpoint, is_other, hit_info, has_breakpoint_at, allhalted, cause, hit, find_hit,
  at_pc, by_trigger, when_halted, rv_target_halt_check,
}

pub record Halted : Type 0 where
  pub dmstatus : ℕ
  pub dcsr : ℕ
  pub dpc : ℕ
  pub tselect : ℕ
  pub tdata1 : ℕ → ℕ
  pub register : ℕ → ℕ
  pub halves : ℕ → ℕ → List ℕ

unfoldable pub trigger_hart : Hart Halted
trigger_hart = record {
  mxl = 1;
  misa_s = false;
  misa_u = false;
  zero_value = 0;
  read_halves = λ addr n w. (w.halves addr n, w);
  write_halves = λ halves addr w. w;
  read_register = λ regno w. (
    if regno == reg_tselect
        then w.tselect
        else if regno == reg_tdata1
        then w.tdata1 w.tselect
        else if regno == dcsr_regno
        then w.dcsr
        else if regno == dpc_regno
        then w.dpc
        else w.register regno,
    w,
  );
  write_register =
      λ regno value w. if regno == reg_tselect then record w { tselect = value } else w;
}

unfoldable pub read_status : Halted → ℕ × Halted
read_status w = (w.dmstatus, w)

-- The first slot in use whose trigger has hit.
unfoldable pub first_hit : (ℕ → ℕ) → ℕ → List Slot → Option Slot
first_hit tdata1 i [] = none
first_hit tdata1 i (b ∷ bs) =
    let later = first_hit tdata1 (suc i) bs in
    if is_unused b then later else if hit (tdata1 i) then some b else later

-- What is said of it.
abbrev told : Option Slot → HaltInfo → HaltInfo
told none info = info
told (some b) info = hit_info b info

find_hit-first_hit :
    (i : ℕ) (bs : List Slot) (info : HaltInfo) (w : Halted)
    → (t : ℕ) × (find_hit trigger_hart i bs info w
        ≡ (told (first_hit w.tdata1 i bs) info, record w { tselect = t }))
unfolding find_hit first_hit trigger_hart
find_hit-first_hit i [] info w = (w.tselect, refl)
find_hit-first_hit i (b ∷ bs) info w = elim (Bool-cases (is_unused b)) [
  | inl free ↦ rw (free) (find_hit-first_hit (suc i) bs info w)
  | inr used ↦ elim (Bool-cases (hit (w.tdata1 i))) [
    | inl hits ↦ rw (used, hits) (i, refl)
    | inr misses ↦ rw (used, misses) (find_hit-first_hit (suc i) bs info (record w { tselect = i }))
  ]
]

hit_info_again :
    (b : Slot) (info : HaltInfo) → hit_info b (record info { reason = other }) ≡ hit_info b info
unfolding hit_info
hit_info_again b info = elim (Bool-cases (is_watchpoint b.type)) [
  | inl watches ↦ rw (watches) refl
  | inr breaks ↦ rw (breaks) refl
]

-- The reason that belongs to a type, and whether the address is told.
unfoldable pub reason_for : BreakpointType → Option HaltReason
reason_for software = none
reason_for hardware = some hardware_breakpoint
reason_for write_watchpoint = some HaltReason.write_watchpoint
reason_for read_watchpoint = some HaltReason.read_watchpoint
reason_for access_watchpoint = some HaltReason.access_watchpoint
reason_for unused = none
reason_for (above n) = none

unfoldable pub address_for : BreakpointType → ℕ → ℕ → ℕ
address_for software addr old = old
address_for hardware addr old = old
address_for write_watchpoint addr old = addr % 2 ^ 32
address_for read_watchpoint addr old = addr % 2 ^ 32
address_for access_watchpoint addr old = addr % 2 ^ 32
address_for unused addr old = old
address_for (above n) addr old = old

hit_info_for :
    (type : BreakpointType) (addr kind : ℕ) (inst : List ℕ) (info : HaltInfo) (reason : HaltReason)
    → reason_for type ≡ some reason
    → (hit_info (record { type = type; addr = addr; kind = kind; inst = inst }) info
        ≡ record { reason = reason; addr = address_for type addr info.addr })
      × (is_other reason ≡ false)
unfolding reason_for address_for hit_info is_watchpoint reason_of type_number is_other
hit_info_for software addr kind inst info reason e = absurd (cc)
hit_info_for hardware addr kind inst info reason e =
    let same : hardware_breakpoint ≡ reason = cc in rw (← same) (refl, refl)
hit_info_for write_watchpoint addr kind inst info reason e =
    let same : HaltReason.write_watchpoint ≡ reason = cc in rw (← same) (refl, refl)
hit_info_for read_watchpoint addr kind inst info reason e =
    let same : HaltReason.read_watchpoint ≡ reason = cc in rw (← same) (refl, refl)
hit_info_for access_watchpoint addr kind inst info reason e =
    let same : HaltReason.access_watchpoint ≡ reason = cc in rw (← same) (refl, refl)
hit_info_for unused addr kind inst info reason e = absurd (cc)
hit_info_for (above n) addr kind inst info reason e = absurd (cc)

-- A 32-bit target has halted at a trigger, and its program counter is not at a hardware breakpoint of
-- the table. The first slot in use whose trigger tells that it has hit is a hardware breakpoint or a
-- watchpoint: the check reports the reason that belongs to its type, with its address for a watchpoint,
-- and leaves the target, `tselect` included, as it was.
pub rv_target_halt_check-first_hit :
    (slots : List Slot) (info : HaltInfo) (w : Halted) (b : Slot) (reason : HaltReason)
    → allhalted w.dmstatus ≡ true
    → cause w.dcsr ≡ 2
    → has_breakpoint_at w.dpc slots ≡ false
    → first_hit w.tdata1 0 slots ≡ some b
    → reason_for b.type ≡ some reason
    → rv_target_halt_check trigger_hart read_status slots info w
      ≡ (record { reason = reason; addr = address_for b.type b.addr info.addr }, w)
unfolding rv_target_halt_check when_halted by_trigger at_pc trigger_hart read_status
rv_target_halt_check-first_hit slots info w b reason halted triggered apart first known =
    let (t, found) = find_hit-first_hit 0 slots (record info { reason = other }) w in
    let c1 : (cause w.dcsr == 1) ≡ false = rw (triggered) refl in
    let c2 : (cause w.dcsr == 2) ≡ true = rw (triggered) refl in
    let (said, certain) = hit_info_for b.type b.addr b.kind b.inst info reason known in
    rw (halted, c1, c2, found, first, apart, hit_info_again b info, said, certain) refl

-- A 32-bit target has halted at a trigger with its program counter at a hardware breakpoint of the
-- table: the check reports a hardware breakpoint, whatever the triggers tell, and leaves the target,
-- `tselect` included, as it was.
rv_target_halt_check-breakpoint :
    (slots : List Slot) (info : HaltInfo) (w : Halted)
    → allhalted w.dmstatus ≡ true
    → cause w.dcsr ≡ 2
    → has_breakpoint_at w.dpc slots ≡ true
    → let (info', w') = rv_target_halt_check trigger_hart read_status slots info w in
      (info'.reason ≡ hardware_breakpoint) × (w' ≡ w)
unfolding rv_target_halt_check when_halted by_trigger at_pc trigger_hart read_status
rv_target_halt_check-breakpoint slots info w halted triggered there =
    let (t, found) = find_hit-first_hit 0 slots (record info { reason = other }) w in
    let c1 : (cause w.dcsr == 1) ≡ false = rw (triggered) refl in
    let c2 : (cause w.dcsr == 2) ≡ true = rw (triggered) refl in
    rw (halted, c1, c2, found, there) (refl, refl)
