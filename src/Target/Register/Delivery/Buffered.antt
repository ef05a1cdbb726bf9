-- ===== src/Target/Register/Delivery/Buffered.antt =====
-- CSRs of a 32-bit hart through the program buffer and `fp`: `rv_register_read_buf` and
-- `rv_register_write_buf` of riscv-target.c.
use nuclei_dlink.Base.{
  ℕ, suc, ◌+◌, ◌-◌, ◌<◌, ◌≡◌, refl, ◌∙◌, Bool, true, false, some, List, [], ◌∷◌, arith, ◌==◌, ltb,
}
use nuclei_dlink.Opcodes.{csrrs, csrrw}
use nuclei_dlink.Base.Action.{◌>>=◌, bind_pure}
use nuclei_dlink.Target.Memory.{Dm, mxl_rv32}
use nuclei_dlink.Target.Register.{rv_program_exec}
use nuclei_dlink.Target.Register.Csr.{
  exec_one, step_read, step_write, read-ne-ebreak, write-ne-ebreak, loaded_with,
}
use nuclei_dlink.Target.Register.Names.{Hart, vl, vtype, fp, needs_vector, is_float, is_csr}
use nuclei_dlink.Target.Register.Buffer.{
  rv_register_read_buf, rv_register_write_buf, read_by, read_through, write_by, write_through, exec,
}
use nuclei_dlink.Target.Register.Access.{
  calls, read_or_exec, write_or_exec, read_register, write_register, rv_prep_for_register_access,
  rv_cleanup_after_register_access, read_by_class, write_by_class,
}
use nuclei_dlink.Target.Register.Machine.{Machine, update, put, machine}
use nuclei_dlink.Target.Register.Gpr.{after_read, after_write, gpr_read, gpr_write}

-- The state after `fp` has been saved and the instruction has read a CSR into it, and after the
-- whole read through the program buffer.
abbrev ran_read : ℕ → Dm Machine → Dm Machine
ran_read c s = record (after_read (s.under.gpr fp) s) {
  under = put fp (s.under.csr c) (loaded_with (csrrs fp 0 c) (after_read (s.under.gpr fp) s).under);
}

abbrev pub after_buffered_read : ℕ → Dm Machine → Dm Machine
after_buffered_read c s =
    after_write fp (s.under.gpr fp) (after_read (s.under.csr c) (ran_read c s))

-- The same for a write.
abbrev ran_write : ℕ → ℕ → Dm Machine → Dm Machine
ran_write c x s =
    let s1 = after_write fp x (after_read (s.under.gpr fp) s) in
    record s1 {
      abstractcs = 0;
      under = record (loaded_with (csrrw 0 fp c) s1.under) { csr = update s.under.csr c x };
    }

abbrev pub after_buffered_write : ℕ → ℕ → Dm Machine → Dm Machine
after_buffered_write c x s = after_write fp (s.under.gpr fp) (ran_write c x s)

module _ (supported : ℕ → Bool) (f : ℕ) (hart : Hart) (n : ℕ) (rv32 : hart.mxl ≡ mxl_rv32) where
  pub fp_read :
      (x : ℕ) (xs : List ℕ) (s : Dm Machine)
      → s.under.error ≡ 0
      → (calls (machine supported) (suc f) hart (suc n)).read fp (x ∷ xs) s
        ≡ some (s.under.gpr fp ∷ xs, after_read (s.under.gpr fp) s)
  unfolding calls read_register rv_prep_for_register_access rv_cleanup_after_register_access
      read_by_class
  fp_read x xs s e = rw (rv32, ◌>>=◌, gpr_read supported f fp x xs s (omega arith) e) refl

  pub fp_write :
      (x : ℕ) (xs : List ℕ) (s : Dm Machine)
      → s.under.error ≡ 0
      → (calls (machine supported) (suc f) hart (suc n)).write fp (x ∷ xs) s
        ≡ some (tt, after_write fp x s)
  unfolding calls write_register rv_prep_for_register_access rv_cleanup_after_register_access
      write_by_class
  fp_write x xs s e = rw (rv32, ◌>>=◌, gpr_write supported f fp x xs s (omega arith) e) refl

  pub write_skips :
      (c x : ℕ) (xs : List ℕ) (s : Dm Machine)
      → c < 4096
      → needs_vector (65 + c) ≡ false
      → (calls (machine supported) (suc f) hart (suc n)).write (65 + c) (x ∷ xs) s
        ≡ write_or_exec
            (machine supported)
            (suc f)
            hart
            (calls (machine supported) (suc f) hart n)
            c
            (65 + c)
            (x ∷ xs)
            s
  unfolding calls write_register rv_prep_for_register_access rv_cleanup_after_register_access
      write_by_class
  write_skips c x xs s h plain =
      let a : is_float (65 + c) ≡ false = ground arith in
      let b : is_csr (65 + c) ≡ true = ground arith in
      let d : ltb (65 + c) 32 ≡ false = ground arith in
      let e : (65 + c == 32) ≡ false = ground arith in
      let g : 65 + c - 65 ≡ c = omega arith in
      rw (plain, a, b, d, e, g)
        (bind_pure
          (write_or_exec (machine supported) (suc f) hart (calls (machine supported) (suc f) hart n)
            c (65 + c) (x ∷ xs))
          _ s (λ r s'. refl))

  pub read_skips :
      (c x : ℕ) (xs : List ℕ) (s : Dm Machine)
      → c < 4096
      → needs_vector (65 + c) ≡ false
      → (calls (machine supported) (suc f) hart (suc n)).read (65 + c) (x ∷ xs) s
        ≡ read_or_exec
            (machine supported)
            (suc f)
            hart
            (calls (machine supported) (suc f) hart n)
            c
            (65 + c)
            (x ∷ xs)
            s
  unfolding calls read_register rv_prep_for_register_access rv_cleanup_after_register_access
      read_by_class
  read_skips c x xs s h plain =
      let a : is_float (65 + c) ≡ false = ground arith in
      let b : is_csr (65 + c) ≡ true = ground arith in
      let d : ltb (65 + c) 32 ≡ false = ground arith in
      let e : (65 + c == 32) ≡ false = ground arith in
      let g : 65 + c - 65 ≡ c = omega arith in
      rw (plain, a, b, d, e, g)
        (bind_pure
          (read_or_exec (machine supported) (suc f) hart (calls (machine supported) (suc f) hart n)
            c (65 + c) (x ∷ xs))
          _ s (λ r s'. refl))

  pub buffered_read :
      (c x : ℕ) (xs : List ℕ) (s : Dm Machine)
      → c < 4096
      → s.under.error ≡ 0
      → rv_register_read_buf
          (machine supported)
          (suc f)
          hart
          (calls (machine supported) (suc f) hart (suc n))
          (65 + c)
          (x ∷ xs)
          s
        ≡ some (s.under.csr c ∷ xs, after_buffered_read c s)
  unfolding rv_register_read_buf read_through read_by exec update
  buffered_read c x xs s h e =
      let a : is_float (65 + c) ≡ false = ground arith in
      let b : is_csr (65 + c) ≡ true = ground arith in
      let g : 65 + c - 65 ≡ c = omega arith in
      let s1 = after_read (s.under.gpr fp) s in
      let inst = csrrs fp 0 c in
      let stepped = step_read c (loaded_with inst s1.under) h in
      let run : rv_program_exec (machine supported) (suc f) mxl_rv32 (inst ∷ []) s1
          ≡ some (tt, ran_read c s) =
        exec_one supported f inst s1 (read-ne-ebreak c) e (rw (stepped) e) (rw (stepped) refl)
        ∙ rw (stepped) refl in
      rw
        (
          ◌>>=◌,
          fp_read 0 (0 ∷ []) s e,
          a,
          b,
          g,
          rv32,
          run,
          fp_read x xs (ran_read c s) e,
          fp_write (s.under.gpr fp) (0 ∷ []) (after_read (s.under.csr c) (ran_read c s)) e,
        )
        refl

  pub buffered_write :
      (c x : ℕ) (xs : List ℕ) (s : Dm Machine)
      → c < 4096
      → needs_vector (65 + c) ≡ false
      → s.under.error ≡ 0
      → rv_register_write_buf
          (machine supported)
          (suc f)
          hart
          (calls (machine supported) (suc f) hart (suc n))
          (65 + c)
          (x ∷ xs)
          s
        ≡ some (tt, after_buffered_write c x s)
  unfolding rv_register_write_buf write_through write_by exec update
  buffered_write c x xs s h plain e =
      let a : is_float (65 + c) ≡ false = ground arith in
      let b : is_csr (65 + c) ≡ true = ground arith in
      let g : 65 + c - 65 ≡ c = omega arith in
      let k : (65 + c == vl) ≡ false = ground arith in
      let l : (65 + c == vtype) ≡ false = ground arith in
      let s0 = after_read (s.under.gpr fp) s in
      let s1 = after_write fp x s0 in
      let inst = csrrw 0 fp c in
      let stepped = step_write c (loaded_with inst s1.under) h in
      let run : rv_program_exec (machine supported) (suc f) mxl_rv32 (inst ∷ []) s1
          ≡ some (tt, ran_write c x s) =
        exec_one supported f inst s1 (write-ne-ebreak c) e (rw (stepped) e) (rw (stepped) refl)
        ∙ rw (stepped) refl in
      rw
        (
          ◌>>=◌,
          fp_read 0 (0 ∷ []) s e,
          a,
          k,
          l,
          b,
          write_by,
          ◌>>=◌,
          fp_write x xs s0 e,
          g,
          rv32,
          run,
          fp_write (s.under.gpr fp) (0 ∷ []) (ran_write c x s) e,
        )
        refl
