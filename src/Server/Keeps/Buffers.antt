-- ===== src/Server/Keeps/Buffers.antt =====
-- The buffers of registers in the state of gdb-server.c keep their sizes.
use nuclei_dlink.Base.{
  ℕ, ◌*◌, ◌≡◌, ◌∙◌, Bool, true, false, List, [], arith, length, if◌then◌else◌, write_at,
}
use nuclei_dlink.Base.Action.{Action, gets, modify, given, ◌>>=◌}
use nuclei_dlink.Server.{Target, State, reg_num, on_target}
use nuclei_dlink.Server.Registers.{parse_registers}
use nuclei_dlink.Server.Keeps.{
  with_registers, with_tmp, with_built, After, Keeps, IsSized, Keeps-given_bind, Keeps-target_bind,
}
use nuclei_dlink.Server.Keeps.Steps.{length-write_at, length-parse_registers}

-- The buffers of registers: what is read out of the state, and what is stored in it.
module _ (W : Type 0) where
  pub Keeps-regs_bind :
      {B : Type 0} (b : ℕ) (f : List ℕ → Action (State W) B)
      → ((old : List ℕ) → length old ≡ 2 * reg_num → Keeps b b (f old))
      → Keeps b b (gets (λ s. s.regs) >>= f)
  unfolding Keeps
  Keeps-regs_bind b f h s v = h s.regs v.registers s v

  pub Keeps-reg_tmp_bind :
      {B : Type 0} (b : ℕ) (f : List ℕ → Action (State W) B)
      → ((old : List ℕ) → length old ≡ 8 → Keeps b b (f old))
      → Keeps b b (gets (λ s. s.reg_tmp) >>= f)
  unfolding Keeps
  Keeps-reg_tmp_bind b f h s v = h s.reg_tmp v.tmp s v

  pub Keeps-parsed_bind :
      {B : Type 0} (b mxl n k : ℕ) (hex old : List ℕ) (f : List ℕ → Action (State W) B)
      → length old ≡ k
      → ((new : List ℕ) → length new ≡ k → Keeps b b (f new))
      → Keeps b b (given (parse_registers mxl n hex old) >>= f)
  Keeps-parsed_bind b mxl n k hex old f sized h =
      Keeps-given_bind W b b (parse_registers mxl n hex old) f
        (λ new e. h new (length-parse_registers mxl n hex old new e ∙ sized))

  pub Keeps-written_bind :
      {B : Type 0} (b k : ℕ) (words old : List ℕ) (f : List ℕ → Action (State W) B)
      → length old ≡ k
      → ((new : List ℕ) → length new ≡ k → Keeps b b (f new))
      → Keeps b b (given (write_at 0 words old) >>= f)
  Keeps-written_bind b k words old f sized h =
      Keeps-given_bind W b b (write_at 0 words old) f
        (λ new e. h new (length-write_at 0 words old new e ∙ sized))

  pub Keeps-set_regs :
      (b : ℕ) (new : List ℕ)
      → length new ≡ 2 * reg_num
      → Keeps {W = W} b b (modify (λ s. record s { regs = new }))
  unfolding Keeps After
  Keeps-set_regs b new e s v = with_registers v e

  pub Keeps-save_regs :
      (b : ℕ) (new : List ℕ)
      → length new ≡ 2 * reg_num
      → Keeps {W = W} b b (modify (λ s. record s { regs = new; restore_reg_flag = true }))
  unfolding Keeps After
  Keeps-save_regs b new e s v = with_registers v e

  -- A response that is begun is empty.
  pub Keeps-set_tmp :
      (b : ℕ) (new : List ℕ) (vector : Bool)
      → length new ≡ 8
      → Keeps {W = W} b b
          (modify (λ s. record s { reg_tmp = new; rsp = if vector then [] else s.rsp }))
  unfolding Keeps After
  Keeps-set_tmp b new true e s v = with_built (with_tmp v e) (omega arith)
  Keeps-set_tmp b new false e s v = with_tmp v e

  pub Keeps-put_tmp :
      (b : ℕ) (new : List ℕ)
      → length new ≡ 8
      → Keeps {W = W} b b (modify (λ s. record s { reg_tmp = new }))
  unfolding Keeps After
  Keeps-put_tmp b new e s v = with_tmp v e

  pub Keeps-pass_tmp :
      (b regno : ℕ) (new : List ℕ)
      → length new ≡ 8
      → Keeps {W = W} b b (modify (λ s. record s { reg_tmp_num = regno; reg_tmp = new }))
  unfolding Keeps After
  Keeps-pass_tmp b regno new e s v = with_tmp v e

module _ (W : Type 0) (target : Target W) (sized : IsSized target) where
  pub Keeps-core_bind :
      {B : Type 0} (b k : ℕ) (old : List ℕ) (f : List ℕ → Action (State W) B)
      → length old ≡ k
      → ((new : List ℕ) → length new ≡ k → Keeps b b (f new))
      → Keeps b b (on_target (target.read_core_registers old) >>= f)
  Keeps-core_bind b k old f same h =
      Keeps-target_bind W b b (target.read_core_registers old) f
        (λ new w w' e. h new (sized.core old new w w' e ∙ same))

  pub Keeps-single_bind :
      {B : Type 0} (b k : ℕ) (old : List ℕ) (regno : ℕ) (f : List ℕ → Action (State W) B)
      → length old ≡ k
      → ((new : List ℕ) → length new ≡ k → Keeps b b (f new))
      → Keeps b b (on_target (target.read_register old regno) >>= f)
  Keeps-single_bind b k old regno f same h =
      Keeps-target_bind W b b (target.read_register old regno) f
        (λ new w w' e. h new (sized.single old new regno w w' e ∙ same))

pub ruleset stored = (
  Keeps-regs_bind, Keeps-reg_tmp_bind, Keeps-parsed_bind, Keeps-written_bind, Keeps-set_regs,
  Keeps-save_regs, Keeps-set_tmp, Keeps-put_tmp, Keeps-pass_tmp, Keeps-core_bind, Keeps-single_bind,
)
