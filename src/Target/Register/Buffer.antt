-- ===== src/Target/Register/Buffer.antt =====
-- Register access of riscv-target.c through the program buffer: `rv_register_write_buf`,
-- `rv_register_read_buf` and the vector state, over the calls that they make.
use nuclei_dlink.Base.{
  ℕ, zero, suc, ◌+◌, ◌-◌, ◌*◌, ◌/◌, ◌^◌, ◌&&◌, List, [], ◌∷◌, ◌++◌, ◌==◌, leb, length, take, drop,
  if◌then◌else◌, field,
}
use nuclei_dlink.Base.Action.{Action, pure, fault, gets, modify, run, ◌>>=◌, ◌>>◌, skip}
use nuclei_dlink.Opcodes.{
  csrr, csrrs, csrrw, vsetvl, fld, fsd, fmv_d_x, fmv_w_x, fmv_x_d, fmv_x_w, vslide1down_vx, vmv_x_s,
}
use nuclei_dlink.Target.Memory.{Dmi, Dm, mxl_rv32, rv_memory_read, rv_memory_write}
use nuclei_dlink.Target.Register.{rv_program_exec}
use nuclei_dlink.Target.Register.Names.{
  Calls, Hart, csr0, fp, fresh, ft0, is_csr, is_float, reg_hartinfo, s1, v0, vl, vtype, wide,
}

module _ {D : Type 0} (dmi : Dmi D) (fuel : ℕ) (hart : Hart) (self : Calls D) where
  unfoldable pub exec : List ℕ → Action (Dm D) (Unit {0})
  exec inst = rv_program_exec dmi fuel hart.mxl inst

  pub read_hartinfo : Dm D → ℕ × Dm D
  read_hartinfo s =
      let (value, after) = dmi.read reg_hartinfo s.hartinfo s.under in
      (field 0 12 value, record s { hartinfo = value; under = after })

  -- The elements of a vector register, and `vsew` for them, in `vtype`.
  pub debug_vl : ℕ
  debug_vl = (hart.vlenb * 8 + hart.mxl * 32 - 1) / (hart.mxl * 32)

  pub encoded_vsew : ℕ
  encoded_vsew = if hart.mxl == mxl_rv32 then 2 * 2 ^ 3 else 3 * 2 ^ 3

  pub set_vector_length : Action (Dm D) (Unit {0})
  set_vector_length = do self.write_buf vtype (wide encoded_vsew); self.write_buf vl (wide debug_vl)

  -- The loop that shifts the elements in.
  pub write_vector : ℕ → ℕ → List ℕ → Action (Dm D) (Unit {0})
  write_vector zero v reg = skip
  write_vector (suc n) v reg = do
    self.write fp reg
    exec (vslide1down_vx v v fp 1 ∷ [])
    write_vector n v (drop hart.mxl reg)

  -- A value that goes into `fp` before one instruction.
  unfoldable pub write_by : ℕ → List ℕ → Action (Dm D) (Unit {0})
  write_by inst reg = do self.write fp reg; exec (inst ∷ [])

  -- `vl` and `vtype` are set together by one instruction, with the other one in `s1`.
  pub write_by_vsetvl : ℕ → ℕ → List ℕ → Action (Dm D) (Unit {0})
  write_by_vsetvl other inst reg = do
    save_s1 ← self.read s1 fresh
    self.write fp reg
    exec (csrr s1 (other - csr0) ∷ inst ∷ [])
    self.write s1 save_s1

  -- A double on a 32-bit target goes through the memory behind the data registers.
  pub write_double : ℕ → List ℕ → Action (Dm D) (Unit {0})
  write_double regno reg = do
    scratch_addr ← run read_hartinfo
    self.write fp (wide scratch_addr)
    modify (rv_memory_write dmi hart.mxl (take 8 reg) scratch_addr 2)
    exec (fld (regno - ft0) fp 0 ∷ [])

  -- Between saving and restoring `fp`. The last test of the code is always true.
  unfoldable pub write_through : ℕ → List ℕ → Action (Dm D) (Unit {0})
  write_through regno reg =
      if is_float regno
      then (if hart.misa_d && hart.mxl == mxl_rv32
          then (if leb 8 (length reg) then write_double regno reg else fault)
          else if hart.misa_d
          then write_by (fmv_d_x (regno - ft0) fp) reg
          else write_by (fmv_w_x (regno - ft0) fp) reg)
      else if regno == vl
      then write_by_vsetvl vtype (vsetvl 0 fp s1) reg
      else if regno == vtype
      then write_by_vsetvl vl (vsetvl 0 s1 fp) reg
      else if is_csr regno
      then write_by (csrrw 0 fp (regno - csr0)) reg
      else (set_vector_length >> write_vector debug_vl (regno - v0) reg)

  unfoldable pub rv_register_write_buf : ℕ → List ℕ → Action (Dm D) (Unit {0})
  rv_register_write_buf regno reg = do
    save_fp ← self.read fp fresh
    write_through regno reg
    self.write fp save_fp

  -- One instruction whose result is in `fp`.
  unfoldable pub read_by : ℕ → List ℕ → Action (Dm D) (List ℕ)
  read_by inst reg = do exec (inst ∷ []); self.read fp reg

  -- The loop that takes the elements out, and shifts the register.
  unfoldable pub read_vector : ℕ → ℕ → List ℕ → Action (Dm D) (List ℕ)
  read_vector zero v reg = pure reg
  read_vector (suc n) v reg = do
    exec (vmv_x_s fp v ∷ vslide1down_vx v v fp 1 ∷ [])
    reg' ← self.read fp reg
    rest ← read_vector n v (drop hart.mxl reg')
    pure (take hart.mxl reg' ++ rest)

  unfoldable pub read_double : ℕ → List ℕ → Action (Dm D) (List ℕ)
  read_double regno reg = do
    scratch_addr ← run read_hartinfo
    self.write fp (wide scratch_addr)
    exec (fsd (regno - ft0) fp 0 ∷ [])
    words ← run (rv_memory_read dmi hart.mxl scratch_addr 8 2)
    pure (words ++ drop (length words) reg)

  unfoldable pub read_through : ℕ → List ℕ → Action (Dm D) (List ℕ)
  read_through regno reg =
      if is_float regno
      then (if hart.misa_d && hart.mxl == mxl_rv32
          then (if leb 8 (length reg) then read_double regno reg else fault)
          else if hart.misa_d
          then read_by (fmv_x_d fp (regno - ft0)) reg
          else read_by (fmv_x_w fp (regno - ft0)) reg)
      else if is_csr regno
      then read_by (csrrs fp 0 (regno - csr0)) reg
      else (set_vector_length >> read_vector debug_vl (regno - v0) reg)

  unfoldable pub rv_register_read_buf : ℕ → List ℕ → Action (Dm D) (List ℕ)
  rv_register_read_buf regno reg = do
    save_fp ← self.read fp fresh
    reg' ← read_through regno reg
    self.write fp save_fp
    pure reg'

  pub rv_prep_for_vector_access : Action (Dm D) (Unit {0})
  rv_prep_for_vector_access = do
    old_vtype ← gets (λ s. s.save_vtype)
    new_vtype ← rv_register_read_buf vtype old_vtype
    modify (λ s. record s { save_vtype = new_vtype })
    old_vl ← gets (λ s. s.save_vl)
    new_vl ← rv_register_read_buf vl old_vl
    modify (λ s. record s { save_vl = new_vl })

  pub rv_cleanup_for_vector_access : Action (Dm D) (Unit {0})
  rv_cleanup_for_vector_access = do
    old_vtype ← gets (λ s. s.save_vtype)
    rv_register_write_buf vtype old_vtype
    old_vl ← gets (λ s. s.save_vl)
    rv_register_write_buf vl old_vl
