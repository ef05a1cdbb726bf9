-- ===== src/Target/Dmi/Identify.antt =====
-- The scans of the identifier and of the status of a transport module: `rv_dtm_sync`.
use nuclei_dlink.Base.{◌%◌, ◌^◌, ◌≡◌, refl, ◌==◌, Bool-cases, inl, inr}
use nuclei_dlink.Target.Dmi.{Dtm, reg_idcode, reg_dtmcs, idle_clocks, sync_reg, rv_dtm_sync}
use nuclei_dlink.Target.Dmi.Transport.{
  Registers, Transport, transport, selected, select_reg-selected,
}

module _ {D : Type 0} (dm : Registers D) where
  -- The scan of the identifier stores it.
  pub rv_dtm_sync-idcode :
      (s : Dtm (Transport D))
      → s.chain.instruction ≡ reg_idcode
      → rv_dtm_sync (transport dm) reg_idcode s
        ≡ record (selected reg_idcode s) { idcode = s.chain.idcode % 2 ^ 32 }
  unfolding rv_dtm_sync sync_reg transport selected
  rv_dtm_sync-idcode s at = elim (Bool-cases (idle_clocks s.dtmcs == 0)) [
    | inl h ↦ rw (select_reg-selected dm reg_idcode s (λ e. at), h) refl
    | inr h ↦ rw (select_reg-selected dm reg_idcode s (λ e. at), h) refl
  ]

  -- The scan of the status stores it.
  pub rv_dtm_sync-dtmcs :
      (s : Dtm (Transport D))
      → s.last_reg ≡ reg_idcode
      → rv_dtm_sync (transport dm) reg_dtmcs s
        ≡ record (selected reg_dtmcs s) { dtmcs = s.chain.dtmcs % 2 ^ 32 }
  unfolding rv_dtm_sync sync_reg transport selected
  rv_dtm_sync-dtmcs s at = elim (Bool-cases (idle_clocks (s.chain.dtmcs % 2 ^ 32) == 0)) [
    | inl h ↦ rw (select_reg-selected dm reg_dtmcs s (λ e. cc), h) refl
    | inr h ↦ rw (select_reg-selected dm reg_dtmcs s (λ e. cc), h) refl
  ]
