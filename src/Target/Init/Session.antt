-- ===== src/Target/Init/Session.antt =====
-- The beginning and the end of a session of riscv-target.c, and what its variables tell: `rv_target_init`,
-- `rv_target_deinit`, `rv_target_misa`, `rv_target_mxl`, `rv_target_vlenb`, `rv_target_set_protocol`.
use nuclei_dlink.Base.{ℕ, suc, ◌≡◌, refl, ap, Bool, true, false, List, [], ◌∷◌, length, All, field}
use nuclei_dlink.Tap.{Pins, Port, tap_init, tap_deinit}
use nuclei_dlink.Target.Breakpoint.{Slot, Tables, unused, is_unused, type_number}

-- The static variables: the tables of breakpoints with what lies behind the port, `err_flag`, the bits
-- of the other devices on the chain, `misa`, `vlenb`, the protocol (JTAG is 0, cJTAG is 1) and the port.
pub record Session (W : Type 0) : Type 0 where
  pub tables : Tables (Port W)
  pub err_flag : Bool
  pub err_pc : ℕ
  pub dr_post : ℕ
  pub dr_pre : ℕ
  pub ir_post : ℕ
  pub ir_pre : ℕ
  pub misa : ℕ
  pub vlenb : ℕ
  pub protocol : ℕ

-- The loops over the tables.
pub emptied : List Slot → List Slot
emptied [] = []
emptied (b ∷ slots) = record b { type = unused } ∷ emptied slots

module _ {W : Type 0} (pins : Pins W) where
  pub rv_target_init : Session W → Session W
  rv_target_init s = record s {
    tables = record {
      software_breakpoints = emptied s.tables.software_breakpoints;
      hardware_breakpoints = emptied s.tables.hardware_breakpoints;
      target = tap_init pins s.tables.target;
    };
    err_flag = false;
    err_pc = 0;
    dr_post = 0;
    dr_pre = 0;
    ir_post = 0;
    ir_pre = 0;
    misa = 0;
    vlenb = 0;
  }

  pub rv_target_deinit : Session W → Session W
  rv_target_deinit s = record s {
    tables = record s.tables { target = tap_deinit pins s.tables.target };
  }

module _ {W : Type 0} where
  pub rv_target_misa : Session W → ℕ
  rv_target_misa s = s.misa

  pub rv_target_mxl : Session W → ℕ
  rv_target_mxl s = field 30 2 s.misa

  pub rv_target_vlenb : Session W → ℕ
  rv_target_vlenb s = s.vlenb

  pub rv_target_set_protocol : ℕ → Session W → Session W
  rv_target_set_protocol protocol s = record s { protocol = protocol }

emptied-unused : (slots : List Slot) → All (λ b. is_unused b ≡ true) (emptied slots)
unfolding emptied is_unused type_number
emptied-unused [] = tt
emptied-unused (b ∷ slots) = (refl, emptied-unused slots)

length-emptied : (slots : List Slot) → length (emptied slots) ≡ length slots
unfolding emptied
length-emptied [] = refl
length-emptied (b ∷ slots) = ap suc (length-emptied slots)

-- A session begins with all slots of both tables unused and none lost, with the error cleared, and with
-- a width that is not known.
rv_target_init-unused :
    {W : Type 0} (pins : Pins W) (s : Session W)
    → let s' = rv_target_init pins s in
      All (λ b. is_unused b ≡ true) s'.tables.software_breakpoints
      × All (λ b. is_unused b ≡ true) s'.tables.hardware_breakpoints
      × (length s'.tables.software_breakpoints ≡ length s.tables.software_breakpoints)
      × (length s'.tables.hardware_breakpoints ≡ length s.tables.hardware_breakpoints)
      × (s'.err_flag ≡ false)
      × (rv_target_mxl s' ≡ 0)
unfolding rv_target_init rv_target_mxl
rv_target_init-unused pins s = (
  emptied-unused s.tables.software_breakpoints,
  emptied-unused s.tables.hardware_breakpoints,
  length-emptied s.tables.software_breakpoints,
  length-emptied s.tables.hardware_breakpoints,
  refl,
  refl,
)
