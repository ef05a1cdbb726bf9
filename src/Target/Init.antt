-- ===== src/Target/Init.antt =====
-- `rv_target_init_post` and `rv_target_init_after_halted` of riscv-target.c: the target is looked for,
-- and found out about.
pub mod Search
pub mod Session
use nuclei_dlink.Base.{
  ℕ, zero, suc, ◌+◌, ◌*◌, ◌%◌, ◌^◌, Bool, true, false, not, [], ◌∷◌, ◌==◌, if◌then◌else◌, field,
  set_field, get_or,
}
use nuclei_dlink.Base.Action.{Action, pure, gets, modify, given, ◌>>=◌, ◌>>◌, skip}
use nuclei_dlink.Server.{TargetError, error_line, error_compat, error_debug_module}
use nuclei_dlink.Target.Dmi.{
  Link, Dtm, reg_idcode, reg_dtmcs, result_done, rv_dtm_sync, rv_dmi_read, rv_dmi_write,
}
use nuclei_dlink.Target.Memory.{Dmi, Dm}
use nuclei_dlink.Target.Register.{word}
use nuclei_dlink.Target.Register.Names.{Hart, dcsr_regno, fresh, vlenb_regno, wide}
use nuclei_dlink.Target.Register.Access.{rv_target_read_register, rv_target_write_register}
use nuclei_dlink.Target.Breakpoint.{reg_tselect, reg_tdata1}
use nuclei_dlink.Target.Control.{reg_dmcontrol, dmactive, set_ebreak}

-- What the functions use of riscv-tap.c besides the scans: the reset with 32 clocks, and the switching
-- of the two-wire modes.
pub record Wires (W : Type 0) : Type 0 where
  pub link : Link W
  pub reset : W → W
  pub oscan1_mode : W → W
  pub oscan1_mode_short : W → W
  pub oscan1_mode_short_exit : W → W

-- Bit 0 of the identifier, which is always set, and the version of the module.
abbrev pub is_identified : {W : Type 0} → Dtm W → Bool
is_identified s = s.idcode % 2 == 1

abbrev pub version : ℕ → ℕ
version dtmcs = dtmcs % 2 ^ 4

module _ {W : Type 0} (wires : Wires W) where
  pub identify : (W → W) → Dtm W → Dtm W
  identify mode s = rv_dtm_sync wires.link reg_idcode (record s { chain = mode s.chain })

  -- Over two wires the short form of the switching is tried when the long one has failed.
  pub find_line : Bool → Dtm W → Dtm W
  find_line cjtag s =
      let long = identify wires.oscan1_mode s in
      let short = identify wires.oscan1_mode_short long in
      if cjtag then (if is_identified long then long else short) else identify (λ w. w) s

  -- The debug module is switched on, and tells that it is.
  pub activate : TargetError → Dtm W → TargetError × Dtm W
  activate err s =
      let s1 = rv_dmi_write wires.link reg_dmcontrol dmactive s in
      let (dmcontrol, s2) = rv_dmi_read wires.link reg_dmcontrol dmactive s1 in
      if not (s1.result == result_done)
      then (error_debug_module, s1)
      else if not (s2.result == result_done)
      then (error_debug_module, s2)
      else if not (dmcontrol % 2 == 1)
      then (error_debug_module, s2)
      else (err, s2)

  pub find_module : TargetError → Dtm W → TargetError × Dtm W
  find_module err s =
      let s1 = rv_dtm_sync wires.link reg_dtmcs (record s { dtmcs = 0; data' = 0 }) in
      if version s1.dtmcs == 0 then (error_debug_module, s1) else activate err s1

  pub rv_target_init_post : Bool → TargetError → Dtm W → TargetError × Dtm W
  rv_target_init_post cjtag err s =
      let start = wires.oscan1_mode_short_exit (wires.reset s.chain) in
      let s1 = find_line cjtag (record s { idcode = 0; data' = 0; chain = start }) in
      if is_identified s1 then find_module err s1 else (error_line, s1)

-- `RV_REG_MISA` and `RV_TARGET_CONFIG_HARDWARE_BREAKPOINT_NUM`.
abbrev pub misa_regno : ℕ
misa_regno = 65 + 0x301

abbrev pub hardware_breakpoint_num : ℕ
hardware_breakpoint_num = 8

-- `target.misa`, whether it is an error, and `target.vlenb`.
pub record Found : Type 0 where
  pub failed : Bool
  pub misa : ℕ

pub hart_of : ℕ → ℕ → Hart
hart_of misa vlenb = record { mxl = field 30 2 misa; misa_d = field 3 1 misa == 1; vlenb = vlenb }

-- `behind` is what lies in memory behind a variable of 32 bits, which a 64-bit target reads too.
module _ {D : Type 0} (dmi : Dmi D) (fuel : ℕ) (behind : ℕ) where
  -- After the read at 64 bits has failed.
  pub find_misa32 : ℕ → ℕ → Action (Dm D) Found
  find_misa32 misa vlenb = do
    let assumed = set_field 30 2 1 misa
    reg ← rv_target_read_register dmi fuel (hart_of assumed vlenb) (0 ∷ []) misa_regno
    value ← given (word reg 0)
    failed ← gets (λ s. s.err_flag)
    pure (
        if failed
        then record { failed = true; misa = assumed }
        else if field 30 2 value == 1
        then record { failed = false; misa = value }
        else record { failed = true; misa = 0 })

  pub find_misa : ℕ → ℕ → Action (Dm D) Found
  find_misa misa vlenb = do
    reg ← rv_target_read_register dmi fuel (hart_of (set_field 30 2 2 misa) vlenb) fresh misa_regno
    low ← given (word reg 0)
    high ← given (word reg 1)
    failed ← gets (λ s. s.err_flag)
    if failed
        then find_misa32 misa vlenb
        else pure (
            if field 30 2 high == 2
            then record { failed = false; misa = set_field 30 2 2 low }
            else record { failed = true; misa = 0 })

  pub read_vlenb : ℕ → ℕ → Action (Dm D) ℕ
  read_vlenb misa vlenb = do
    reg ← rv_target_read_register dmi fuel (hart_of misa vlenb) (wide vlenb) vlenb_regno
    pure (get_or reg 0 0 + get_or reg 1 0 * 2 ^ 32)

  pub find_vlenb : ℕ → ℕ → Action (Dm D) ℕ
  find_vlenb misa vlenb = if field 21 1 misa == 1 then read_vlenb misa vlenb else pure 0xffff_ffff

  -- The loop over `n` triggers from number `i` on.
  pub clear_triggers : Hart → ℕ → ℕ → Action (Dm D) (Unit {0})
  clear_triggers hart zero i = skip
  clear_triggers hart (suc n) i = do
    rv_target_write_register dmi fuel hart (i ∷ behind ∷ []) reg_tselect
    rv_target_write_register dmi fuel hart (0 ∷ behind ∷ []) reg_tdata1
    clear_triggers hart n (suc i)

  pub set_up : Hart → TargetError → Action (Dm D) TargetError
  set_up hart err = do
    dcsr ← gets (λ s. s.dcsr)
    modify (λ s. record s { dcsr = set_ebreak 1 dcsr })
    rv_target_write_register dmi fuel hart (set_ebreak 1 dcsr ∷ []) dcsr_regno
    clear_triggers hart hardware_breakpoint_num 0
    pure err

  -- dcsr tells the version of the debug specification.
  pub check_version : Hart → TargetError → Action (Dm D) TargetError
  check_version hart err = do
    old ← gets (λ s. s.dcsr)
    reg ← rv_target_read_register dmi fuel hart (old ∷ []) dcsr_regno
    dcsr ← given (word reg 0)
    modify (λ s. record s { dcsr = dcsr })
    if field 28 4 dcsr == 4 then set_up hart err else pure error_compat

  -- The error, and the new `misa` and `vlenb`.
  pub rv_target_init_after_halted : ℕ → ℕ → TargetError → Action (Dm D) (TargetError × ℕ × ℕ)
  rv_target_init_after_halted misa vlenb err = do
    found ← find_misa misa vlenb
    vlenb' ← (if found.failed then pure vlenb else find_vlenb found.misa vlenb)
    err' ←
        (if found.failed
          then pure error_debug_module
          else check_version (hart_of found.misa vlenb') err)
    pure (err', found.misa, vlenb')
