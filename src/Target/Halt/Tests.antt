-- ===== src/Target/Halt/Tests.antt =====
-- Examples for the theorems on the halt check.
use nuclei_dlink.Base.{◌*◌, ◌^◌, ◌≡◌, refl, List, [], ◌∷◌, ◌==◌, if◌then◌else◌}
use nuclei_dlink.Server.{HaltInfo, running, write_watchpoint}
use nuclei_dlink.Target.Breakpoint.{
  type_number, is_unused, unused, hardware, write_watchpoint as write_type, Slot,
}
use nuclei_dlink.Target.Halt.{has_breakpoint_at, rv_target_halt_check}
use nuclei_dlink.Target.Halt.Triggers.{
  reason_for, address_for, Halted, trigger_hart, read_status, first_hit,
  rv_target_halt_check-first_hit,
}

-- A breakpoint, an unused slot, and a watchpoint whose trigger has hit.
abbrev slots : List Slot
slots =
    record { type = hardware; addr = 0x100; kind = 2; inst = [] }
    ∷ record { type = unused; addr = 0; kind = 0; inst = [] }
    ∷ record { type = write_type; addr = 0x2000; kind = 4; inst = [] }
    ∷ []

abbrev before : HaltInfo
before = record { reason = running; addr = 0 }

abbrev at_watchpoint : Halted
at_watchpoint = record {
  dmstatus = 2 ^ 9;
  dcsr = 2 * 2 ^ 6;
  dpc = 0x104;
  tselect = 5;
  tdata1 = λ i. if i == 2 then 2 ^ 20 else 0;
  register = λ r. 0;
  halves = λ addr n. [];
}

rv_target_halt_check-first_hit_example :
    rv_target_halt_check trigger_hart read_status slots before at_watchpoint
    ≡ (record { reason = write_watchpoint; addr = 0x2000 }, at_watchpoint)
unfolding first_hit has_breakpoint_at type_number is_unused reason_for address_for
rv_target_halt_check-first_hit_example =
    rv_target_halt_check-first_hit slots before at_watchpoint
      (record { type = write_type; addr = 0x2000; kind = 4; inst = [] }) write_watchpoint refl refl
      refl refl refl

abbrev at_breakpoint : Halted
at_breakpoint = record at_watchpoint { dpc = 0x100 }
