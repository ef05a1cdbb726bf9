-- ===== src/Target/Dmi/Transport.antt =====
-- A debug transport module as the debug specification has it, which completes an operation before the
-- next scan, and the link to it.
use nuclei_dlink.Base.{
  ℕ, ◌-◌, ◌*◌, ◌/◌, ◌%◌, ◌^◌, ◌≡◌, refl, sym, ap, ◌∙◌, ◌==◌, ==_iff, if◌then◌else◌, Bool-cases, inl,
  inr,
}
use nuclei_dlink.Target.Dmi.{
  Link, Dtm, reg_idcode, reg_dtmcs, reg_dmi, op_read, op_write, select_reg,
}

-- The registers of a debug module.
pub record Registers (D : Type 0) : Type 0 where
  pub load : ℕ → D → ℕ × D
  pub store : ℕ → ℕ → D → D

-- The instruction register, the identifier, the status of the transport module, the data of the last
-- operation, and the debug module.
pub record Transport (D : Type 0) : Type 0 where
  pub instruction : ℕ
  pub idcode : ℕ
  pub dtmcs : ℕ
  pub last_data : ℕ
  pub module' : D

module _ {D : Type 0} (dm : Registers D) where
  -- The operation of a scanned word.
  unfoldable pub execute : ℕ → ℕ → ℕ → Transport D → Transport D
  execute op data' address t =
      let (value, after) = dm.load address t.module' in
      if op == op_read
      then record t { last_data = value; module' = after }
      else if op == op_write
      then record t { module' = dm.store address data' t.module' }
      else t

  -- A scan of `len` bits of the register of the interface gives the data of the last operation with
  -- the status 0, and starts the operation scanned in.
  unfoldable pub scan_dmi : ℕ → ℕ → Transport D → ℕ × Transport D
  scan_dmi word len t = (
    t.last_data * 2 ^ 2,
    execute (word % 2 ^ 2) (word / 2 ^ 2 % 2 ^ 32) (word / 2 ^ 34 % 2 ^ (len - 34)) t,
  )

  unfoldable pub transport : Link (Transport D)
  transport = record {
    shift_scan = λ word ir len t.
        if ir
        then (1, record t { instruction = word })
        else if t.instruction == reg_dmi
        then scan_dmi word len t
        else if t.instruction == reg_idcode
        then (t.idcode, t)
        else if t.instruction == reg_dtmcs
        then (t.dtmcs, t)
        else (0, t);
    idle = λ n t. t;
  }

module _ {D : Type 0} where
  -- With a register in the instruction register, the state after it has been selected.
  unfoldable pub selected : ℕ → Dtm (Transport D) → Dtm (Transport D)
  selected reg s = record s { last_reg = reg; chain = record s.chain { instruction = reg } }

module _ {D : Type 0} (dm : Registers D) where
  -- A selection puts the register into the instruction register, when the one that was selected last is
  -- still there.
  pub select_reg-selected :
      (reg : ℕ) (s : Dtm (Transport D))
      → (s.last_reg ≡ reg → s.chain.instruction ≡ reg)
      → select_reg (transport dm) reg s ≡ selected reg s
  unfolding select_reg transport selected
  select_reg-selected reg s sel = elim (Bool-cases (reg == s.last_reg)) [
    | inl h ↦
        let e : s.last_reg ≡ reg = sym ((==_iff reg s.last_reg).0 h) in
        rw h (
          ap (λ r. record s { last_reg = r }) e
          ∙ ap (λ i. record s { last_reg = reg; chain = record s.chain { instruction = i } })
              (sel e))
    | inr h ↦ rw h refl
  ]
