-- ===== src/Flash/Spi/Poll.antt =====
-- The bounded waits of flash.c: when `times_out` is 0 after them.
use nuclei_dlink.Base.{
  ℕ, zero, suc, ◌<◌, ◌≡◌, ◌↔◌, refl, Bool, true, false, arith, Bool-cases, inl, inr,
}
use nuclei_dlink.Flash.Spi.{Bus, Spi, nuspi_read_reg, poll}

module _ {W : Type 0} (bus : Bus W) (nuspi_addr offset : ℕ) where
  -- The variable and the state after `k` reads of the register.
  pub reads : ℕ → ℕ → Spi W → ℕ × Spi W
  reads zero value s = (value, s)
  reads (suc k) value s = let (v, s') = nuspi_read_reg bus nuspi_addr offset value s in reads k v s'

  -- A wait with `suc n` tries leaves 0 in `times_out`, which the code takes for a time-out, exactly
  -- when the register is ready at the last try and at none before it. A wait that never sees it
  -- ready leaves another value.
  pub poll-zero_iff :
      (ready : ℕ → Bool) (n value : ℕ) (s : Spi W)
      → ((poll bus nuspi_addr offset ready (suc n) value s).0 ≡ 0) ↔ (
          ((i : ℕ) → i < n → ready (reads (suc i) value s).0 ≡ false)
          × (ready (reads (suc n) value s).0 ≡ true))
  unfolding poll reads
  poll-zero_iff ready zero value s =
      elim (Bool-cases (ready (nuspi_read_reg bus nuspi_addr offset value s).0)) [
        | inl h ↦ rw h ((λ e. ((λ i less. absurd (omega arith)), refl)), λ e. refl)
        | inr h ↦ rw h ((λ e. absurd (omega arith)), λ e. absurd (cc))
      ]
  poll-zero_iff ready (suc n) value s =
      elim (Bool-cases (ready (nuspi_read_reg bus nuspi_addr offset value s).0)) [
        | inl h ↦
            rw h ((λ e. absurd (omega arith)), λ e. absurd (let no = e.0 0 (omega arith) in cc))
        | inr h ↦
            let (f, g) =
              poll-zero_iff ready n (nuspi_read_reg bus nuspi_addr offset value s).0
                (nuspi_read_reg bus nuspi_addr offset value s).1 in
            rw h (
              (λ e. ((λ i. early h (f e).0 i), (f e).1)),
              λ e. g ((λ i less. e.0 (suc i) (omega arith)), e.1),
            )
      ]
    where
      early :
          ready (nuspi_read_reg bus nuspi_addr offset value s).0 ≡ false
          → ((i : ℕ)
              → i < n
              → ready
                  (reads
                    (suc i)
                    (nuspi_read_reg bus nuspi_addr offset value s).0
                    (nuspi_read_reg bus nuspi_addr offset value s).1).0
                ≡ false)
          → (i : ℕ) → i < suc n
          → ready (reads (suc i) value s).0 ≡ false
      early h f zero less = h
      early h f (suc i) less = f i (omega arith)
