-- ===== src/Target/Init/Search.antt =====
-- `rv_target_init_post` of riscv-target.c on a transport module as the debug specification has it.
use nuclei_dlink.Base.{
  ℕ, ◌%◌, ◌^◌, ◌<◌, ◌≡◌, refl, false, arith, ◌==◌, if◌then◌else◌, Bool-cases, inl, inr,
}
use nuclei_dlink.Server.{TargetError, error_line, error_debug_module}
use nuclei_dlink.Target.Dmi.{Dtm, reg_idcode, reg_dtmcs, abits, rv_dmi_write}
use nuclei_dlink.Target.Dmi.Transport.{Registers, Transport, transport, selected}
use nuclei_dlink.Target.Dmi.Identify.{rv_dtm_sync-idcode, rv_dtm_sync-dtmcs}
use nuclei_dlink.Target.Dmi.Access.{rv_dmi_read-load, rv_dmi_write-store}
use nuclei_dlink.Target.Control.{reg_dmcontrol, dmactive}
use nuclei_dlink.Target.Init.{
  Wires, version, identify, find_line, activate, find_module, rv_target_init_post,
}

module _ {D : Type 0} (dm : Registers D) where
  -- A reset of the access port selects the identifier; the end of the two-wire mode is one with
  -- pulses before it.
  abbrev after_reset : Transport D → Transport D
  after_reset t = record t { instruction = reg_idcode }

  -- Over four wires, whatever the switching to the two-wire mode does.
  abbrev pub four_wires :
      (Transport D → Transport D) → (Transport D → Transport D) → Wires (Transport D)
  four_wires long short = record {
    link = transport dm;
    reset = after_reset;
    oscan1_mode = long;
    oscan1_mode_short = short;
    oscan1_mode_short_exit = after_reset;
  }

  -- What the search comes to, after the module has been told to be active.
  abbrev pub outcome : TargetError → Transport D → TargetError
  outcome err t =
      if t.idcode % 2 == 1
      then (if version t.dtmcs == 0
          then error_debug_module
          else if (dm.load reg_dmcontrol (dm.store reg_dmcontrol dmactive t.module')).0 % 2 == 1
          then err
          else error_debug_module)
      else error_line

  activate_lem :
      (long short : Transport D → Transport D) (err : TargetError) (s : Dtm (Transport D))
      → ((a : ℕ) (d : D) → (dm.load a d).0 < 2 ^ 32)
      → s.last_reg ≡ reg_dtmcs
      → s.chain.last_data < 2 ^ 32
      → reg_dmcontrol < 2 ^ abits s.dtmcs
      → (activate (four_wires long short) err s).0 ≡ (
          if (dm.load reg_dmcontrol (dm.store reg_dmcontrol dmactive s.chain.module')).0 % 2 == 1
          then err
          else error_debug_module)
  unfolding activate
  activate_lem long short err s words last low fits =
      let s1 = rv_dmi_write (transport dm) reg_dmcontrol dmactive s in
      let (stored, done, kept, sel, low1) =
        rv_dmi_write-store dm reg_dmcontrol dmactive s (λ e. cc) low (omega arith) (omega arith)
          fits in
      let (loaded, after, done', kept', sel', low2) =
        rv_dmi_read-load dm reg_dmcontrol dmactive s1 words sel low1 (omega arith)
          (rw (kept) fits) in
      let value = (dm.load reg_dmcontrol (dm.store reg_dmcontrol dmactive s.chain.module')).0 in
      rw (done', loaded, done, stored)
        (elim (Bool-cases (value % 2 == 1)) [ inl e ↦ rw (e) refl | inr e ↦ rw (e) refl ])

  find_module_lem :
      (long short : Transport D → Transport D) (err : TargetError) (s : Dtm (Transport D))
      → ((a : ℕ) (d : D) → (dm.load a d).0 < 2 ^ 32)
      → s.last_reg ≡ reg_idcode
      → s.chain.last_data < 2 ^ 32
      → s.chain.dtmcs < 2 ^ 32
      → reg_dmcontrol < 2 ^ abits s.chain.dtmcs
      → (find_module (four_wires long short) err s).0 ≡ (
          if version s.chain.dtmcs == 0
          then error_debug_module
          else if (dm.load reg_dmcontrol (dm.store reg_dmcontrol dmactive s.chain.module')).0 % 2
              == 1
          then err
          else error_debug_module)
  unfolding find_module selected
  find_module_lem long short err s words last low word fits =
      let start = record s { dtmcs = 0; data' = 0 } in
      let same : s.chain.dtmcs % 2 ^ 32 ≡ s.chain.dtmcs = omega (arith, word) in
      rw (rv_dtm_sync-dtmcs dm start last, same)
        (elim (Bool-cases (version s.chain.dtmcs == 0)) [
          | inl e ↦ rw (e) refl
          | inr e ↦ rw (e) (
              activate_lem long short err
                (record s {
                  last_reg = reg_dtmcs;
                  dtmcs = s.chain.dtmcs;
                  data' = 0;
                  chain = record s.chain { instruction = reg_dtmcs };
                })
                words refl low fits)
        ])

  -- The search for the target, on a transport module as the debug specification has it, over four
  -- wires, whatever the switching to two wires would do: an identifier whose bit 0 is clear is an error of the line; a transport module of
  -- version 0, and a debug module that does not read as active after it has been told to be, are errors
  -- of the debug module; otherwise the error is left as it was. The registers, the status and the last
  -- data of the module are words, and its addresses reach the control register.
  pub rv_target_init_post_lem :
      (long short : Transport D → Transport D) (err : TargetError) (s : Dtm (Transport D))
      → ((a : ℕ) (d : D) → (dm.load a d).0 < 2 ^ 32)
      → s.chain.last_data < 2 ^ 32
      → s.chain.dtmcs < 2 ^ 32
      → reg_dmcontrol < 2 ^ abits s.chain.dtmcs
      → (rv_target_init_post (four_wires long short) false err s).0 ≡ outcome err s.chain
  unfolding rv_target_init_post find_line identify selected
  rv_target_init_post_lem long short err s words low word fits =
      let odd : s.chain.idcode % 2 ^ 32 % 2 ≡ s.chain.idcode % 2 = omega arith in
      let start = record s { idcode = 0; data' = 0 } in
      rw (rv_dtm_sync-idcode dm (record start { chain = after_reset s.chain }) refl, odd)
        (elim (Bool-cases (s.chain.idcode % 2 == 1)) [
          | inl e ↦ rw (e) (
              find_module_lem long short err
                (record s {
                  last_reg = reg_idcode;
                  idcode = s.chain.idcode % 2 ^ 32;
                  data' = 0;
                  chain = after_reset s.chain;
                })
                words refl low word fits)
          | inr e ↦ rw (e) refl
        ])
