-- ===== src/Target/Halt.antt =====
-- `rv_target_halt_check` of riscv-target.c: whether the target has halted, and why.
pub mod Triggers
mod Tests
use nuclei_dlink.Base.{
  ℕ, zero, suc, ◌+◌, ◌*◌, ◌/◌, ◌%◌, ◌^◌, Bool, true, false, ◌&&◌, ◌||◌, List, [], ◌∷◌, get_or, ◌==◌,
  if◌then◌else◌, field,
}
use nuclei_dlink.Server.{
  HaltReason, running, hardware_breakpoint, software_breakpoint, write_watchpoint, read_watchpoint,
  access_watchpoint, other, HaltInfo,
}
use nuclei_dlink.Target.Breakpoint.{
  Hart, BreakpointType, hardware, Slot, type_number, is_unused, reg_tselect, reg_tdata1,
}
use nuclei_dlink.Target.Register.Names.{dcsr_regno, dpc_regno}
use nuclei_dlink.Target.Watchpoint.{rv_parse_watchpoint_inst}

-- The types 2, 3 and 4.
unfoldable pub is_watchpoint : BreakpointType → Bool
is_watchpoint type = type_number type == 2 || (type_number type == 3 || type_number type == 4)

unfoldable pub reason_of : BreakpointType → HaltReason
reason_of type =
    if type_number type == 1
    then hardware_breakpoint
    else if type_number type == 2
    then write_watchpoint
    else if type_number type == 3
    then read_watchpoint
    else if type_number type == 4
    then access_watchpoint
    else other

unfoldable pub is_other : HaltReason → Bool
is_other other = true
is_other running = false
is_other hardware_breakpoint = false
is_other software_breakpoint = false
is_other write_watchpoint = false
is_other read_watchpoint = false
is_other access_watchpoint = false

-- What a slot whose trigger has hit says; only a watchpoint gives its address.
unfoldable pub hit_info : Slot → HaltInfo → HaltInfo
hit_info b info =
    if is_watchpoint b.type
    then record { reason = reason_of b.type; addr = b.addr % 2 ^ 32 }
    else record info { reason = reason_of b.type }

-- A hardware breakpoint at the program counter.
unfoldable pub has_breakpoint_at : ℕ → List Slot → Bool
has_breakpoint_at dpc [] = false
has_breakpoint_at dpc (b ∷ bs) =
    (type_number b.type == 1 && b.addr == dpc) || has_breakpoint_at dpc bs

pub has_watchpoint : List Slot → Bool
has_watchpoint [] = false
has_watchpoint (b ∷ bs) = is_watchpoint b.type || has_watchpoint bs

-- The first slot with the address, whatever its type, ends the search.
pub match_watchpoint : List Slot → HaltInfo → HaltInfo
match_watchpoint [] info = info
match_watchpoint (b ∷ bs) info =
    let later = match_watchpoint bs info in
    if info.addr == b.addr
    then (if is_watchpoint b.type then record info { reason = reason_of b.type } else info)
    else later

-- `allhalted` of the status, `cause` of dcsr, and `hit` of tdata1.
abbrev pub allhalted : ℕ → Bool
allhalted dmstatus = field 9 1 dmstatus == 1

abbrev pub cause : ℕ → ℕ
cause dcsr = field 6 3 dcsr

abbrev pub hit : ℕ → Bool
hit tdata1 = field 20 1 tdata1 == 1

module _ {W : Type 0} (hart : Hart W) where
  -- The loop over the triggers of the slots from number `i` on, on a target of 32 or 64 bits.
  pub find_hit : ℕ → List Slot → HaltInfo → W → HaltInfo × W
  find_hit i [] info w = (info, w)
  find_hit i (b ∷ bs) info w =
      let (tdata1, w') = hart.read_register reg_tdata1 (hart.write_register reg_tselect i w) in
      let skipped = find_hit (suc i) bs info w in
      let missed = find_hit (suc i) bs info w' in
      if is_unused b then skipped else if hit tdata1 then (hit_info b info, w') else missed

  -- The address that the instruction at the program counter accesses. Four halfwords are read, of
  -- which the first two are the instruction.
  pub accessed : ℕ → W → ℕ × W
  accessed dpc w =
      let (halves, w1) = hart.read_halves dpc 4 w in
      let (regno, offset) =
        rv_parse_watchpoint_inst (get_or halves 0 0 + get_or halves 1 0 * 2 ^ 16) in
      let (base, w2) = hart.read_register regno w1 in ((base + offset) % 2 ^ 32, w2)

  -- A watchpoint whose trigger does not tell that it has hit.
  pub find_accessed : ℕ → List Slot → HaltInfo → W → HaltInfo × W
  find_accessed dpc slots info w =
      let (addr, w') = accessed dpc w in
      let new = record info { addr = addr } in
      if addr == 0xffff_ffff then (new, w') else (match_watchpoint slots new, w')

  -- The end of the trigger branch, with the reason found so far.
  pub at_pc : List Slot → HaltInfo → W → HaltInfo × W
  at_pc slots info w =
      let (dpc, w') = hart.read_register dpc_regno w in
      let found = record info { reason = hardware_breakpoint } in
      if has_breakpoint_at dpc slots
      then (found, w')
      else if is_other info.reason && has_watchpoint slots
      then find_accessed dpc slots info w'
      else (info, w')

  pub by_trigger : List Slot → HaltInfo → W → HaltInfo × W
  by_trigger slots info w =
      let (tselect, w1) = hart.read_register reg_tselect w in
      let (found, w2) = find_hit 0 slots (record info { reason = other }) w1 in
      at_pc slots found (hart.write_register reg_tselect tselect w2)

  pub when_halted : List Slot → HaltInfo → W → HaltInfo × W
  when_halted slots info w =
      let (dcsr, w') = hart.read_register dcsr_regno w in
      if cause dcsr == 1
      then (record info { reason = software_breakpoint }, w')
      else if cause dcsr == 2
      then by_trigger slots info w'
      else (record info { reason = other }, w')

  -- `status` reads the status of the debug module.
  pub rv_target_halt_check : (W → ℕ × W) → List Slot → HaltInfo → W → HaltInfo × W
  rv_target_halt_check status slots info w =
      let (dmstatus, w') = status w in
      if allhalted dmstatus
      then when_halted slots info w'
      else (record info { reason = running }, w')
