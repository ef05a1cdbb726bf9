-- ===== src/Usb/Transfer.antt =====
-- The transfers to the host of cdc_acm_core.c come to their end.
use nuclei_dlink.Base.{
  ℕ, suc, ◌*◌, ◌/◌, ◌-◌, ◌≢◌, ◌≡◌, refl, true, false, some, List, [], arith, length, Bool-cases,
  inl, inr,
}
use nuclei_dlink.Base.Action.{◌>>=◌, ◌>>◌}
use nuclei_dlink.Usb.{
  Core, Cdc, Endpoint, usbd_ok, cdc0_data, on_core, is_full, cdc_acm_data_in_handler,
}

module _ {W : Type 0} (core : Core W)
    (counts : (ep : Endpoint) (bytes : List ℕ) (w : W)
      → core.xfer_len ep (core.ep_send ep bytes w) ≡ length bytes) where
  closed : (ep : Endpoint) (w : W) → is_full core ep (core.ep_send ep [] w) ≡ false
  unfolding is_full
  closed ep w = ground (arith, counts ep [] w)

  -- A transfer of the debugger's port is reported as sent by the second call of the handler at the
  -- latest. In between, a transfer of a positive number of full packets of 64 bytes is followed by one
  -- empty packet, and no other is. The core counts the bytes that it is given to send, and the port has
  -- packets of 64 bytes.
  pub transfer_sent :
      (s : Cdc W)
      → core.max_len cdc0_data s.core ≡ 64
      → (s' : Cdc W) × ((cdc_acm_data_in_handler core cdc0_data
              >> cdc_acm_data_in_handler core cdc0_data)
            s
          ≡ some (usbd_ok, s'))
        × (s'.cdc0_packet_sent ≡ true)
        × ((n : ℕ)
            → core.xfer_len cdc0_data s.core ≡ 64 * suc n
            → s'.core ≡ core.ep_send cdc0_data [] s.core)
        × (((n : ℕ) → core.xfer_len cdc0_data s.core ≢ 64 * suc n) → s'.core ≡ s.core)
  unfolding cdc_acm_data_in_handler on_core is_full
  transfer_sent s packets = elim (Bool-cases (is_full core cdc0_data s.core)) [
    | inl e ↦ (
      record s { cdc0_packet_sent = true; core = core.ep_send cdc0_data [] s.core },
      rw (◌>>=◌, e, closed cdc0_data s.core) refl,
      refl,
      λ n same. refl,
      λ never.
          absurd (never (core.xfer_len cdc0_data s.core / 64 - 1) (ground (arith, e, packets))),
    )
    | inr e ↦ (
      record s { cdc0_packet_sent = true },
      rw (◌>>=◌, e, e) refl,
      refl,
      λ n same. absurd (ground (arith, e, packets, same)),
      λ never. refl,
    )
  ]
