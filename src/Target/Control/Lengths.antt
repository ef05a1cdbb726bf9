-- ===== src/Target/Control/Lengths.antt =====
-- The read of the core registers of riscv-target.c leaves its buffer at its length.
use nuclei_dlink.Base.{ℕ, zero, suc, ◌*◌, ◌≡◌, refl, ◌∙◌, List, length, drop}
use nuclei_dlink.Target.Memory.{Dmi, Dm}
use nuclei_dlink.Target.Register.Names.{Hart}
use nuclei_dlink.Target.Register.Lengths.{
  Sized, Sized-pure, Sized-if, Sized-link, Sized-bind-Sized, length-take_append,
  Sized-rv_target_read_register,
}
use nuclei_dlink.Target.Control.{read_at, read_registers, read_all, rv_target_read_core_registers}

module _ {D : Type 0} (dmi : Dmi D) (fuel : ℕ) (hart : Hart) where
  Sized-read_at :
      (i regno n : ℕ) (regs : List ℕ)
      → length regs ≡ n
      → Sized n (read_at dmi fuel hart i regno regs)
  unfolding read_at
  Sized-read_at i regno n regs e =
      let k = i * hart.mxl in
      Sized-bind-Sized (Dm D) n (length (drop k regs)) _ _
        (Sized-rv_target_read_register dmi fuel hart regno (length (drop k regs)) (drop k regs)
          refl)
        (λ rest e'. Sized-pure (Dm D) n _ (length-take_append k regs rest e' ∙ e))

  Sized-read_registers :
      (k i n : ℕ) (regs : List ℕ)
      → length regs ≡ n
      → Sized n (read_registers dmi fuel hart k i regs)
  unfolding read_registers
  Sized-read_registers zero i n regs e = Sized-pure (Dm D) n regs e
  Sized-read_registers (suc k) i n regs e =
      Sized-link (Dm D) n _ _ (Sized-read_at i i n regs e)
        (λ regs' e'. Sized-read_registers k (suc i) n regs' e')

  -- A read of the core registers leaves its buffer at its length.
  pub Sized-rv_target_read_core_registers :
      (n : ℕ) (regs : List ℕ)
      → length regs ≡ n
      → Sized n (rv_target_read_core_registers dmi fuel hart regs)
  unfolding rv_target_read_core_registers read_all
  Sized-rv_target_read_core_registers n regs e =
      search (Sized-if, Sized-link, Sized-read_registers, Sized-read_at, Sized-pure) depth 12
