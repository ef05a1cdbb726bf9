-- ===== src/Target/Register/Gpr.antt =====
-- The general registers by abstract commands, on a 32-bit hart.
use nuclei_dlink.Base.{
  ℕ, suc, ◌+◌, ◌-◌, ◌*◌, ◌/◌, ◌%◌, ◌^◌, ◌<◌, ◌≡◌, refl, ◌∙◌, Bool, true, false, ◌&&◌, some, List,
  ◌∷◌, arith, ◌==◌, leb, ltb, Bool-cases, inl, inr,
}
use nuclei_dlink.Target.Memory.{Dm, mxl_rv32, write_reg, read_data0}
use nuclei_dlink.Target.Register.{
  reg_command_word, width_of, set_word, word, wait_command, fetch, supply, rv_register_read,
  rv_register_write,
}
use nuclei_dlink.Target.Register.Machine.{Machine, put, transfer, command, machine}

-- The state after the read of a register with the value `v`, and after the write of one.
abbrev pub after_read : ℕ → Dm Machine → Dm Machine
after_read v s = record s {
  err_flag = false;
  abstractcs = 0;
  data0 = v;
  under = record s.under { data0 = v };
}

abbrev pub after_write : ℕ → ℕ → Dm Machine → Dm Machine
after_write r v s = record s {
  err_flag = false;
  abstractcs = 0;
  data0 = v;
  under = put r v (record s.under { data0 = v });
}

pub width32 : (n : ℕ) → width_of mxl_rv32 n ≡ mxl_rv32
unfolding width_of
width32 n = ground arith

module _ (supported : ℕ → Bool) where
  pub command-transfer :
      (w n : ℕ) (m : Machine)
      → w < 2
      → n < 2 ^ 16
      → m.error ≡ 0
      → command supported (reg_command_word mxl_rv32 w n) m ≡ transfer supported w n m
  unfolding command reg_command_word
  command-transfer w n m small fits e =
      let word : ℕ = 2 * 2 ^ 20 + 2 ^ 17 + w * 2 ^ 16 + n % 2 ^ 16 in
      let exec : word / 2 ^ 18 % 2 ^ 1 ≡ 0 = omega arith in
      let moves : word / 2 ^ 17 % 2 ^ 1 ≡ 1 = omega arith in
      let direction : word / 2 ^ 16 % 2 ^ 1 ≡ w = omega arith in
      let number : word / 2 ^ 0 % 2 ^ 16 ≡ n = omega arith in
      rw (e, exec, moves, direction, number) refl

  transfer_read :
      (r : ℕ) (m : Machine)
      → r < 32
      → transfer supported 0 (0x1000 + r) m ≡ record m { data0 = m.gpr r }
  unfolding transfer
  transfer_read r m h =
      let inside : (leb 0x1000 (0x1000 + r) && ltb (0x1000 + r) 0x1020) ≡ true = ground arith in
      let index : 0x1000 + r - 0x1000 ≡ r = omega arith in rw (inside, index) refl

  transfer_write :
      (r : ℕ) (m : Machine) → r < 32 → transfer supported 1 (0x1000 + r) m ≡ put r m.data0 m
  unfolding transfer
  transfer_write r m h =
      let inside : (leb 0x1000 (0x1000 + r) && ltb (0x1000 + r) 0x1020) ≡ true = ground arith in
      let index : 0x1000 + r - 0x1000 ≡ r = omega arith in rw (inside, index) refl

  command_read :
      (r : ℕ) (m : Machine)
      → r < 32
      → m.error ≡ 0
      → command supported (reg_command_word mxl_rv32 0 (0x1000 + r)) m
        ≡ record m { data0 = m.gpr r }
  command_read r m h e =
      command-transfer 0 (0x1000 + r) m (omega arith) (omega arith) e ∙ transfer_read r m h

  command_write :
      (r : ℕ) (m : Machine)
      → r < 32
      → m.error ≡ 0
      → command supported (reg_command_word mxl_rv32 1 (0x1000 + r)) m ≡ put r m.data0 m
  command_write r m h e =
      command-transfer 1 (0x1000 + r) m (omega arith) (omega arith) e ∙ transfer_write r m h

  pub wait_ok :
      (f : ℕ) (s : Dm Machine)
      → s.under.error ≡ 0
      → wait_command (machine supported) f mxl_rv32 (suc f) s
        ≡ some (false, record s { abstractcs = 0 })
  unfolding wait_command machine
  wait_ok f s e = rw e refl

  pub gpr_read :
      (f r x : ℕ) (xs : List ℕ) (s : Dm Machine)
      → r < 32
      → s.under.error ≡ 0
      → rv_register_read (machine supported) (suc f) mxl_rv32 (x ∷ xs) (0x1000 + r) s
        ≡ some (s.under.gpr r ∷ xs, after_read (s.under.gpr r) s)
  unfolding rv_register_read machine write_reg wait_command fetch set_word read_data0
  gpr_read f r x xs s h e = rw (width32 (0x1000 + r), command_read r s.under h e, e) refl

  pub gpr_write :
      (f r x : ℕ) (xs : List ℕ) (s : Dm Machine)
      → r < 32
      → s.under.error ≡ 0
      → rv_register_write (machine supported) (suc f) mxl_rv32 (x ∷ xs) (0x1000 + r) s
        ≡ some (tt, after_write r x s)
  unfolding rv_register_write machine write_reg wait_command supply word
  gpr_write f r x xs s h e = elim (Bool-cases (r == 0)) [
    | inl z ↦
        rw (width32 (0x1000 + r), command_write r (record s.under { data0 = x }) h e, z, e) refl
    | inr z ↦
        rw (width32 (0x1000 + r), command_write r (record s.under { data0 = x }) h e, z, e) refl
  ]
