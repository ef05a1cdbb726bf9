-- ===== src/Target/Register/Delivery.antt =====
-- CSRs of a 32-bit hart, read and written by rv_target_read_register and rv_target_write_register
-- of riscv-target.c.
pub mod Buffered
use nuclei_dlink.Base.{
  ℕ, suc, ◌+◌, ◌-◌, ◌<◌, ◌≡◌, refl, ap, sym, ◌∙◌, Bool, true, false, some, List, [], ◌∷◌, arith,
  ◌==◌, ==_iff, ltb, Bool-cases, inl, inr,
}
use nuclei_dlink.Opcodes.{csrrs, csrrw}
use nuclei_dlink.Base.Action.{◌>>=◌, bind_pure}
use nuclei_dlink.Target.Memory.{Dm, mxl_rv32}
use nuclei_dlink.Target.Register.{rv_program_exec}
use nuclei_dlink.Target.Register.Csr.{
  csr_refused, csr_allowed, csr_write_refused, csr_write_allowed, exec_one, step_read, step_write,
  read-ne-ebreak, write-ne-ebreak, loaded_with, after_refusal, after_write_refusal, after_csr_write,
}
use nuclei_dlink.Target.Register.Names.{Hart, vl, vtype, fp, needs_vector, is_float, is_csr}
use nuclei_dlink.Target.Register.Buffer.{
  rv_register_read_buf, rv_register_write_buf, read_by, read_through, write_by, write_through, exec,
}
use nuclei_dlink.Target.Register.Access.{
  calls, rv_target_read_register, rv_target_write_register, read_or_exec, write_or_exec,
  read_register, write_register, rv_prep_for_register_access, rv_cleanup_after_register_access,
  read_by_class, write_by_class,
}
use nuclei_dlink.Target.Register.Machine.{Machine, update, put, machine}
use nuclei_dlink.Target.Register.Gpr.{after_read, after_write, gpr_read, gpr_write}
use nuclei_dlink.Target.Register.Delivery.Buffered.{
  read_skips, write_skips, buffered_read, buffered_write, after_buffered_read, after_buffered_write,
}

module _ (supported : ℕ → Bool) (f : ℕ) (hart : Hart) (n : ℕ) (rv32 : hart.mxl ≡ mxl_rv32) where
  pub direct_read :
      (c x : ℕ) (xs : List ℕ) (s : Dm Machine)
      → c < 4096
      → supported c ≡ true
      → s.under.error ≡ 0
      → read_or_exec
          (machine supported)
          (suc f)
          hart
          (calls (machine supported) (suc f) hart n)
          c
          (65 + c)
          (x ∷ xs)
          s
        ≡ some (s.under.csr c ∷ xs, after_read (s.under.csr c) s)
  unfolding read_or_exec
  direct_read c x xs s h allowed e =
      rw (rv32, ◌>>=◌, csr_allowed supported f c x xs s h allowed e) refl

  pub fallback_read :
      (c x : ℕ) (xs : List ℕ) (s : Dm Machine)
      → c < 4096
      → supported c ≡ false
      → s.under.error ≡ 0
      → read_or_exec
          (machine supported)
          (suc f)
          hart
          (calls (machine supported) (suc f) hart (suc n))
          c
          (65 + c)
          (x ∷ xs)
          s
        ≡ some (s.under.csr c ∷ xs, after_buffered_read c (after_refusal s))
  unfolding read_or_exec
  fallback_read c x xs s h refused e =
      rw (rv32, ◌>>=◌, csr_refused supported f c x xs s h refused e)
        (buffered_read supported f hart n rv32 c s.under.data0 xs (after_refusal s) h refl)

  pub direct_write :
      (c x : ℕ) (xs : List ℕ) (s : Dm Machine)
      → c < 4096
      → supported c ≡ true
      → s.under.error ≡ 0
      → write_or_exec
          (machine supported)
          (suc f)
          hart
          (calls (machine supported) (suc f) hart n)
          c
          (65 + c)
          (x ∷ xs)
          s
        ≡ some (tt, after_csr_write c x s)
  unfolding write_or_exec
  direct_write c x xs s h allowed e =
      rw (rv32, ◌>>=◌, csr_write_allowed supported f c x xs s h allowed e) refl

  pub fallback_write :
      (c x : ℕ) (xs : List ℕ) (s : Dm Machine)
      → c < 4096
      → needs_vector (65 + c) ≡ false
      → supported c ≡ false
      → s.under.error ≡ 0
      → write_or_exec
          (machine supported)
          (suc f)
          hart
          (calls (machine supported) (suc f) hart (suc n))
          c
          (65 + c)
          (x ∷ xs)
          s
        ≡ some (tt, after_buffered_write c x (after_write_refusal x s))
  unfolding write_or_exec
  fallback_write c x xs s h plain refused e =
      rw (rv32, ◌>>=◌, csr_write_refused supported f c x xs s h refused e)
        (buffered_write supported f hart n rv32 c x xs (after_write_refusal x s) h plain refl)

update_restore : (g : ℕ → ℕ) (i v : ℕ) → update (update g i v) i (g i) ≡ g
unfolding update
update_restore g i v = λ k j. at j k
  where
    at : (j : ℕ) → update (update g i v) i (g i) j ≡ g j
    at j = elim (Bool-cases (j == i)) [
      | inl e ↦ rw (e) (ap g (sym ((==_iff j i).0 e)))
      | inr e ↦ rw (e) refl
    ]

module _ (supported : ℕ → Bool) (f : ℕ) (hart : Hart) (rv32 : hart.mxl ≡ mxl_rv32) where
  -- On a 32-bit hart whose debug module has no error set, a read of the CSR `c` by its number
  -- delivers its value in the first word of the buffer, and leaves every general register and CSR
  -- as it was, whether the debug module has the CSR or the read goes through the program buffer.
  -- The registers that need the vector state are left out.
  pub csr_delivery :
      (c x : ℕ) (xs : List ℕ) (s : Dm Machine)
      → c < 4096
      → needs_vector (65 + c) ≡ false
      → s.under.error ≡ 0
      → (s' : Dm Machine) × (rv_target_read_register
            (machine supported)
            (suc f)
            hart
            (x ∷ xs)
            (65 + c)
            s
          ≡ some (s.under.csr c ∷ xs, s'))
        × (s'.under.gpr ≡ s.under.gpr)
        × (s'.under.csr ≡ s.under.csr)
        × (s'.under.error ≡ 0)
  unfolding rv_target_read_register
  csr_delivery c x xs s h plain e = elim (Bool-cases (supported c)) [
    | inl allowed ↦ (
      after_read (s.under.csr c) s,
      read_skips supported f hart 4 rv32 c x xs s h plain
          ∙ direct_read supported f hart 4 rv32 c x xs s h allowed e,
      refl,
      refl,
      e,
    )
    | inr refused ↦ (
      after_buffered_read c (after_refusal s),
      read_skips supported f hart 4 rv32 c x xs s h plain
          ∙ fallback_read supported f hart 3 rv32 c x xs s h refused e,
      update_restore s.under.gpr fp (s.under.csr c),
      refl,
      refl,
    )
  ]

  -- On a 32-bit hart whose debug module has no error set, a write of the CSR `c` by its number
  -- stores the first word of the buffer there, and leaves every other CSR and every general register
  -- as it was, on either way. The registers that need the vector state are left out.
  pub csr_storage :
      (c x : ℕ) (xs : List ℕ) (s : Dm Machine)
      → c < 4096
      → needs_vector (65 + c) ≡ false
      → s.under.error ≡ 0
      → (s' : Dm Machine) × (rv_target_write_register
            (machine supported)
            (suc f)
            hart
            (x ∷ xs)
            (65 + c)
            s
          ≡ some (tt, s'))
        × (s'.under.gpr ≡ s.under.gpr)
        × (s'.under.csr ≡ update s.under.csr c x)
        × (s'.under.error ≡ 0)
  unfolding rv_target_write_register
  csr_storage c x xs s h plain e = elim (Bool-cases (supported c)) [
    | inl allowed ↦ (
      after_csr_write c x s,
      write_skips supported f hart 4 rv32 c x xs s h plain
          ∙ direct_write supported f hart 4 rv32 c x xs s h allowed e,
      refl,
      refl,
      e,
    )
    | inr refused ↦ (
      after_buffered_write c x (after_write_refusal x s),
      write_skips supported f hart 4 rv32 c x xs s h plain
          ∙ fallback_write supported f hart 3 rv32 c x xs s h plain refused e,
      update_restore s.under.gpr fp x,
      refl,
      refl,
    )
  ]
