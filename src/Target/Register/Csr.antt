-- ===== src/Target/Register/Csr.antt =====
-- The CSRs of a 32-bit hart: by an abstract command where the debug module has it, and through the
-- program buffer where it has not.
use nuclei_dlink.Base.{
  ℕ, suc, ◌+◌, ◌/◌, ◌%◌, ◌^◌, ◌<◌, ◌≡◌, refl, ◌∙◌, Bool, true, false, ◌&&◌, some, List, [], ◌∷◌,
  arith, ◌==◌, ==_of_ne, leb, ltb,
}
use nuclei_dlink.Opcodes.{csrrs, csrrw, ebreak}
use nuclei_dlink.Opcodes.Fields.{
  load_word-opcode, load_word-base, load_word-offset, load_word-rd, load_word-funct3, csr_accesses,
}
use nuclei_dlink.Target.Memory.{Dm, mxl_rv32, write_reg, read_data0}
use nuclei_dlink.Target.Register.{
  set_word, word, wait_command, fetch, supply, load_program, exec_command_word, rv_register_read,
  rv_register_write, rv_program_exec,
}
use nuclei_dlink.Target.Register.Names.{fp}
use nuclei_dlink.Target.Register.Machine.{
  Machine, update, put, step, run_program, transfer, command, machine,
}
use nuclei_dlink.Target.Register.Gpr.{after_read, width32, command-transfer}

pub step_read : (c : ℕ) (m : Machine) → c < 4096 → step (csrrs fp 0 c) m ≡ put fp (m.csr c) m
unfolding step
step_read c m h =
    let number : c % 2 ^ 12 ≡ c = omega arith in
    rw
      (
        (csr_accesses fp 0 c).1,
        load_word-opcode fp 0 c 0x2073 (omega arith),
        load_word-base fp 0 c 0x2073 (omega arith),
        load_word-offset fp 0 c 0x2073 (omega arith),
        load_word-rd fp 0 c 0x2073 (omega arith) refl,
        load_word-funct3 fp 0 c 0x2073 (omega arith),
        number,
      )
      refl

pub step_write :
    (c : ℕ) (m : Machine)
    → c < 4096
    → step (csrrw 0 fp c) m ≡ record m { csr = update m.csr c (m.gpr fp) }
unfolding step
step_write c m h =
    let number : c % 2 ^ 12 ≡ c = omega arith in
    rw
      (
        (csr_accesses 0 fp c).0,
        load_word-opcode 0 fp c 0x1073 (omega arith),
        load_word-base 0 fp c 0x1073 (omega arith),
        load_word-offset 0 fp c 0x1073 (omega arith),
        load_word-rd 0 fp c 0x1073 (omega arith) refl,
        load_word-funct3 0 fp c 0x1073 (omega arith),
        number,
      )
      refl

pub read-ne-ebreak : (c : ℕ) → (csrrs fp 0 c == ebreak) ≡ false
unfolding ebreak
read-ne-ebreak c = ==_of_ne _ _ (λ e.
    let k : csrrs fp 0 c / 2 ^ 12 % 2 ^ 3 ≡ 2 =
      rw ((csr_accesses fp 0 c).1) (load_word-funct3 fp 0 c 0x2073 (omega arith)) in
    omega (arith, k, e))

pub write-ne-ebreak : (c : ℕ) → (csrrw 0 fp c == ebreak) ≡ false
unfolding ebreak
write-ne-ebreak c = ==_of_ne _ _ (λ e.
    let k : csrrw 0 fp c / 2 ^ 12 % 2 ^ 3 ≡ 1 =
      rw ((csr_accesses 0 fp c).0) (load_word-funct3 0 fp c 0x1073 (omega arith)) in
    omega (arith, k, e))

-- The program buffer with one instruction and the ebreak behind it.
abbrev pub loaded_with : ℕ → Machine → Machine
loaded_with inst m = record m { program = update (update m.program 0 inst) 1 ebreak }

run_first :
    (n i : ℕ) (m : Machine)
    → (m.program i == ebreak) ≡ false
    → run_program (suc n) i m ≡ run_program n (i + 1) (step (m.program i) m)
unfolding run_program
run_first n i m h = rw (h) refl

run_last : (n i : ℕ) (m : Machine) → (m.program i == ebreak) ≡ true → run_program (suc n) i m ≡ m
unfolding run_program
run_last n i m h = rw (h) refl

loaded-first : (inst : ℕ) (m : Machine) → (loaded_with inst m).program 0 ≡ inst
unfolding update
loaded-first inst m = refl

loaded-last : (inst : ℕ) (m : Machine) → ((loaded_with inst m).program 1 == ebreak) ≡ true
unfolding update ebreak
loaded-last inst m = refl

run_one :
    (inst : ℕ) (m : Machine)
    → (inst == ebreak) ≡ false
    → (step inst (loaded_with inst m)).program ≡ (loaded_with inst m).program
    → run_program 16 0 (loaded_with inst m) ≡ step inst (loaded_with inst m)
run_one inst m differs same =
    run_first 15 0 (loaded_with inst m) (rw (loaded-first inst m) differs)
    ∙ rw (loaded-first inst m)
        (run_last 14 1 (step inst (loaded_with inst m)) (rw (same) (loaded-last inst m)))

module _ (supported : ℕ → Bool) where
  transfer_refused :
      (w c : ℕ) (m : Machine)
      → c < 4096
      → supported c ≡ false
      → transfer supported w c m ≡ record m { error = 2 }
  unfolding transfer
  transfer_refused w c m h refused =
      let outside : (leb 0x1000 c && ltb c 0x1020) ≡ false = ground arith in
      rw (outside, refused) refl

  transfer_allowed :
      (c : ℕ) (m : Machine)
      → c < 4096
      → supported c ≡ true
      → transfer supported 0 c m ≡ record m { data0 = m.csr c }
  unfolding transfer
  transfer_allowed c m h allowed =
      let outside : (leb 0x1000 c && ltb c 0x1020) ≡ false = ground arith in
      rw (outside, allowed) refl

  transfer_stored :
      (c : ℕ) (m : Machine)
      → c < 4096
      → supported c ≡ true
      → transfer supported 1 c m ≡ record m { csr = update m.csr c m.data0 }
  unfolding transfer
  transfer_stored c m h allowed =
      let outside : (leb 0x1000 c && ltb c 0x1020) ≡ false = ground arith in
      rw (outside, allowed) refl

  command-exec :
      (m : Machine) → m.error ≡ 0 → command supported exec_command_word m ≡ run_program 16 0 m
  unfolding command
  command-exec m e = rw (e) refl

abbrev pub after_write_refusal : ℕ → Dm Machine → Dm Machine
after_write_refusal x s = record s {
  err_flag = true;
  abstractcs = 0x700;
  data0 = x;
  under = record s.under { data0 = x; error = 0 };
}

abbrev pub after_csr_write : ℕ → ℕ → Dm Machine → Dm Machine
after_csr_write c x s = record s {
  err_flag = false;
  abstractcs = 0;
  data0 = x;
  under = record s.under { data0 = x; csr = update s.under.csr c x };
}

-- The state after a read that the debug module refuses.
abbrev pub after_refusal : Dm Machine → Dm Machine
after_refusal s = record s {
  err_flag = true;
  abstractcs = 0x700;
  data0 = s.under.data0;
  under = record s.under { error = 0 };
}

module _ (supported : ℕ → Bool) (f : ℕ) where
  load_one :
      (inst : ℕ) (s : Dm Machine)
      → load_program (machine supported) (suc f) mxl_rv32 0 (inst ∷ []) s
        ≡ record s { under = loaded_with inst s.under }
  unfolding load_program machine write_reg
  load_one inst s = refl

  pub exec_one :
      (inst : ℕ) (s : Dm Machine)
      → (inst == ebreak) ≡ false
      → s.under.error ≡ 0
      → (step inst (loaded_with inst s.under)).error ≡ 0
      → (step inst (loaded_with inst s.under)).program ≡ (loaded_with inst s.under).program
      → rv_program_exec (machine supported) (suc f) mxl_rv32 (inst ∷ []) s
        ≡ some (tt, record s { abstractcs = 0; under = step inst (loaded_with inst s.under) })
  unfolding rv_program_exec machine write_reg wait_command
  exec_one inst s differs e e' same =
      rw
        (
          load_one inst s,
          command-exec supported (loaded_with inst s.under) e,
          run_one inst s.under differs same,
          e',
        )
        refl

  -- A command for a CSR that the debug module has not.
  pub csr_refused :
      (c x : ℕ) (xs : List ℕ) (s : Dm Machine)
      → c < 4096
      → supported c ≡ false
      → s.under.error ≡ 0
      → rv_register_read (machine supported) (suc f) mxl_rv32 (x ∷ xs) c s
        ≡ some (s.under.data0 ∷ xs, after_refusal s)
  unfolding rv_register_read machine write_reg wait_command fetch set_word read_data0
  csr_refused c x xs s h refused e =
      rw
        (
          width32 c,
          command-transfer supported 0 c s.under (omega arith) (omega arith) e,
          transfer_refused supported 0 c s.under h refused,
        )
        refl

  pub csr_allowed :
      (c x : ℕ) (xs : List ℕ) (s : Dm Machine)
      → c < 4096
      → supported c ≡ true
      → s.under.error ≡ 0
      → rv_register_read (machine supported) (suc f) mxl_rv32 (x ∷ xs) c s
        ≡ some (s.under.csr c ∷ xs, after_read (s.under.csr c) s)
  unfolding rv_register_read machine write_reg wait_command fetch set_word read_data0
  csr_allowed c x xs s h allowed e =
      rw
        (
          width32 c,
          command-transfer supported 0 c s.under (omega arith) (omega arith) e,
          transfer_allowed supported c s.under h allowed,
          e,
        )
        refl

  pub csr_write_refused :
      (c x : ℕ) (xs : List ℕ) (s : Dm Machine)
      → c < 4096
      → supported c ≡ false
      → s.under.error ≡ 0
      → rv_register_write (machine supported) (suc f) mxl_rv32 (x ∷ xs) c s
        ≡ some (tt, after_write_refusal x s)
  unfolding rv_register_write machine write_reg wait_command supply word
  csr_write_refused c x xs s h refused e =
      rw
        (
          width32 c,
          command-transfer supported 1 c (record s.under { data0 = x }) (omega arith) (omega arith)
              e,
          transfer_refused supported 1 c (record s.under { data0 = x }) h refused,
        )
        refl

  pub csr_write_allowed :
      (c x : ℕ) (xs : List ℕ) (s : Dm Machine)
      → c < 4096
      → supported c ≡ true
      → s.under.error ≡ 0
      → rv_register_write (machine supported) (suc f) mxl_rv32 (x ∷ xs) c s
        ≡ some (tt, after_csr_write c x s)
  unfolding rv_register_write machine write_reg wait_command supply word
  csr_write_allowed c x xs s h allowed e =
      rw
        (
          width32 c,
          command-transfer supported 1 c (record s.under { data0 = x }) (omega arith) (omega arith)
              e,
          transfer_stored supported c (record s.under { data0 = x }) h allowed,
          e,
        )
        refl
