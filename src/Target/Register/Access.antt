-- ===== src/Target/Register/Access.antt =====
-- `rv_target_read_register` and `rv_target_write_register` of riscv-target.c. The functions call
-- each other; one level of them is written over the calls that it makes (`Calls`), and `calls`
-- stacks the levels.
use nuclei_dlink.Base.{
  ℕ, zero, suc, ◌+◌, ◌-◌, ◌%◌, ◌^◌, List, [], ◌∷◌, ◌==◌, ltb, if◌then◌else◌, set_field,
}
use nuclei_dlink.Base.Action.{Action, pure, fault, gets, modify, given, ◌>>=◌, ◌>>◌, skip}
use nuclei_dlink.Target.Memory.{Dmi, Dm}
use nuclei_dlink.Target.Register.{set_word, word, rv_register_read, rv_register_write}
use nuclei_dlink.Target.Register.Names.{
  Calls, Hart, csr0, dcsr_regno, dpc_regno, fresh, ft0, is_csr, is_float, is_vector, mstatus,
  needs_vector, pc, priv, set_fs, set_vs,
}
use nuclei_dlink.Target.Register.Buffer.{
  rv_register_write_buf, rv_register_read_buf, rv_prep_for_vector_access,
  rv_cleanup_for_vector_access,
}

module _ {D : Type 0} (dmi : Dmi D) (fuel : ℕ) (hart : Hart) (self : Calls D) where
  -- A change of `mstatus`.
  pub change_mstatus : (List ℕ → List ℕ) → Action (Dm D) (Unit {0})
  change_mstatus f = do status ← self.read mstatus fresh; self.write mstatus (f status)

  unfoldable pub rv_prep_for_register_access : ℕ → Action (Dm D) (Unit {0})
  rv_prep_for_register_access regno = do
    if is_float regno then change_mstatus (set_fs 3) else skip
    if needs_vector regno then change_mstatus (set_vs 3) else skip

  unfoldable pub rv_cleanup_after_register_access : ℕ → Action (Dm D) (Unit {0})
  rv_cleanup_after_register_access regno = do
    if is_float regno then change_mstatus (set_fs 0) else skip
    if needs_vector regno then change_mstatus (set_vs 0) else skip

  -- By an abstract command, and through the program buffer when that fails.
  unfoldable pub read_or_exec : ℕ → ℕ → List ℕ → Action (Dm D) (List ℕ)
  read_or_exec number regno reg = do
    reg' ← rv_register_read dmi fuel hart.mxl reg number
    failed ← gets (λ s. s.err_flag)
    if failed then rv_register_read_buf dmi fuel hart self regno reg' else pure reg'

  unfoldable pub write_or_exec : ℕ → ℕ → List ℕ → Action (Dm D) (Unit {0})
  write_or_exec number regno reg = do
    rv_register_write dmi fuel hart.mxl reg number
    failed ← gets (λ s. s.err_flag)
    if failed then rv_register_write_buf dmi fuel hart self regno reg else skip

  pub read_dcsr : Action (Dm D) ℕ
  read_dcsr = do
    old ← gets (λ s. s.dcsr)
    reg ← self.read dcsr_regno (old ∷ [])
    new ← given (word reg 0)
    modify (λ s. record s { dcsr = new })
    pure new

  unfoldable pub read_priv : List ℕ → Action (Dm D) (List ℕ)
  read_priv reg = do dcsr ← read_dcsr; given (set_word reg 0 (dcsr % 2 ^ 2))

  pub write_priv : List ℕ → Action (Dm D) (Unit {0})
  write_priv reg = do
    dcsr ← read_dcsr
    prv ← given (word reg 0)
    let new = set_field 0 2 (prv % 2 ^ 2) dcsr
    modify (λ s. record s { dcsr = new })
    self.write dcsr_regno (new ∷ [])

  unfoldable pub read_vector_register : ℕ → List ℕ → Action (Dm D) (List ℕ)
  read_vector_register regno reg = do
    rv_prep_for_vector_access dmi fuel hart self
    reg' ← rv_register_read_buf dmi fuel hart self regno reg
    rv_cleanup_for_vector_access dmi fuel hart self
    pure reg'

  pub write_vector_register : ℕ → List ℕ → Action (Dm D) (Unit {0})
  write_vector_register regno reg = do
    rv_prep_for_vector_access dmi fuel hart self
    rv_register_write_buf dmi fuel hart self regno reg
    rv_cleanup_for_vector_access dmi fuel hart self

  unfoldable pub read_by_class : ℕ → List ℕ → Action (Dm D) (List ℕ)
  read_by_class regno reg =
      if ltb regno pc
      then rv_register_read dmi fuel hart.mxl reg (0x1000 + regno)
      else if regno == pc
      then self.read dpc_regno reg
      else if is_float regno
      then read_or_exec (0x1020 + regno - ft0) regno reg
      else if is_csr regno
      then read_or_exec (regno - csr0) regno reg
      else if regno == priv
      then read_priv reg
      else if is_vector regno
      then read_vector_register regno reg
      else given (set_word reg 0 0xffff_ffff)

  unfoldable pub write_by_class : ℕ → List ℕ → Action (Dm D) (Unit {0})
  write_by_class regno reg =
      if ltb regno pc
      then rv_register_write dmi fuel hart.mxl reg (0x1000 + regno)
      else if regno == pc
      then self.write dpc_regno reg
      else if is_float regno
      then write_or_exec (0x1020 + regno - ft0) regno reg
      else if is_csr regno
      then write_or_exec (regno - csr0) regno reg
      else if regno == priv
      then write_priv reg
      else if is_vector regno
      then write_vector_register regno reg
      else skip

  unfoldable pub read_register : ℕ → List ℕ → Action (Dm D) (List ℕ)
  read_register regno reg = do
    rv_prep_for_register_access regno
    reg' ← read_by_class regno reg
    rv_cleanup_after_register_access regno
    pure reg'

  unfoldable pub write_register : ℕ → List ℕ → Action (Dm D) (Unit {0})
  write_register regno reg = do
    rv_prep_for_register_access regno
    write_by_class regno reg
    rv_cleanup_after_register_access regno

module _ {D : Type 0} (dmi : Dmi D) (fuel : ℕ) (hart : Hart) where
  -- `n` levels of calls; a call below them is a fault.
  unfoldable pub calls : ℕ → Calls D
  calls zero = record {
    read = λ regno reg. fault;
    write = λ regno reg. fault;
    write_buf = λ regno reg. fault;
  }
  calls (suc n) = record {
    read = read_register dmi fuel hart (calls n);
    write = write_register dmi fuel hart (calls n);
    write_buf = rv_register_write_buf dmi fuel hart (calls n);
  }

  -- The functions of the code, with more levels than their calls are deep.
  unfoldable pub rv_target_read_register : List ℕ → ℕ → Action (Dm D) (List ℕ)
  rv_target_read_register reg regno = (calls 5).read regno reg

  unfoldable pub rv_target_write_register : List ℕ → ℕ → Action (Dm D) (Unit {0})
  rv_target_write_register reg regno = (calls 5).write regno reg
