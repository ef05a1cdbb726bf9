-- ===== src/Target/Register/Tests.antt =====
-- Tests of the register access, and examples for its theorems.
use nuclei_dlink.Base.{ℕ, ◌+◌, Bool, false, ◌≡◌, refl, some, [], ◌∷◌, arith}
use nuclei_dlink.Target.Memory.{Dm, mxl_rv32}
use nuclei_dlink.Target.Register.Names.{Hart}
use nuclei_dlink.Target.Register.Machine.{Machine, machine, update}
use nuclei_dlink.Target.Register.Access.{rv_target_read_register, rv_target_write_register}
use nuclei_dlink.Target.Register.Delivery.{csr_delivery, csr_storage}

-- A debug module that has no CSR.
abbrev none_supported : ℕ → Bool
none_supported c = false

abbrev hart32 : Hart
hart32 = record { mxl = mxl_rv32; misa_d = false; vlenb = 0 }

abbrev hart_state : Machine
hart_state = record {
  running = false;
  gpr = λ r. 100 + r;
  csr = λ c. 5000 + c;
  program = λ i. 0;
  data0 = 0;
  error = 0;
}

abbrev dm : Dm Machine
dm = record {
  err_flag = false;
  abstractcs = 0;
  data0 = 0;
  data1 = 0;
  hartinfo = 0;
  dmstatus = 0;
  dcsr = 0;
  save_vtype = 0 ∷ 0 ∷ [];
  save_vl = 0 ∷ 0 ∷ [];
  under = hart_state;
}

csr_delivery_example :
    (s' : Dm Machine) × (rv_target_read_register
        (machine none_supported)
        3
        hart32
        (0 ∷ 0 ∷ [])
        (65 + 0x305)
        dm
      ≡ some ((5000 + 0x305) ∷ 0 ∷ [], s'))
    × (s'.under.gpr ≡ hart_state.gpr)
    × (s'.under.csr ≡ hart_state.csr)
    × (s'.under.error ≡ 0)
csr_delivery_example =
    csr_delivery none_supported 2 hart32 refl 0x305 0 (0 ∷ []) dm (omega arith) refl refl

csr_storage_example :
    (s' : Dm Machine) × (rv_target_write_register
        (machine none_supported)
        3
        hart32
        (7 ∷ 0 ∷ [])
        (65 + 0x305)
        dm
      ≡ some (tt, s'))
    × (s'.under.gpr ≡ hart_state.gpr)
    × (s'.under.csr ≡ update hart_state.csr 0x305 7)
    × (s'.under.error ≡ 0)
csr_storage_example =
    csr_storage none_supported 2 hart32 refl 0x305 7 (0 ∷ []) dm (omega arith) refl refl

-- The `step` bit and `ebreakm` are set.
abbrev stepped : Dm Machine
stepped = record dm { under = record hart_state { csr = λ c. 0x8004 } }
