-- ===== src/Tap/Controller.antt =====
-- The test access port of IEEE 1149.1: the controller of the target, as the standard gives it.
use nuclei_dlink.Base.{Bool, true, false}

-- The states of a scan, the same for the data and the instruction register.
pub data Phase : Type 0 where
  select capture shift exit1 pause exit2 update : Phase

pub data State : Type 0 where
  reset idle : State
  scan : Bool → Phase → State

-- The state after a clock with TMS low or high; `true` in a scan is the instruction register.
abbrev pub next : Bool → State → State
next true reset = reset
next false reset = idle
next true idle = scan false select
next false idle = idle
next true (scan true select) = reset
next true (scan false select) = scan true select
next false (scan ir select) = scan ir capture
next true (scan ir capture) = scan ir exit1
next false (scan ir capture) = scan ir shift
next true (scan ir shift) = scan ir exit1
next false (scan ir shift) = scan ir shift
next true (scan ir exit1) = scan ir update
next false (scan ir exit1) = scan ir pause
next true (scan ir pause) = scan ir exit2
next false (scan ir pause) = scan ir pause
next true (scan ir exit2) = scan ir update
next false (scan ir exit2) = scan ir shift
next true (scan ir update) = scan false select
next false (scan ir update) = idle
