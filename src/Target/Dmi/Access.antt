-- ===== src/Target/Dmi/Access.antt =====
-- `rv_dmi_read` and `rv_dmi_write` of riscv-target.c over a transport module that completes every
-- operation.
use native.Mathlib.Nat.{mod-eq_of_lt}
use nuclei_dlink.Base.{
  ℕ, ◌+◌, ◌-◌, ◌*◌, ◌/◌, ◌%◌, ◌^◌, ◌<◌, ◌≡◌, refl, bit_or, arith, ◌==◌, Bool-cases, inl, inr,
  bit_or_comm, bit_or_above,
}
use nuclei_dlink.Target.Dmi.{
  Dtm, reg_dmi, op_nop, op_read, op_write, abits, idle_clocks, dmi_word, sync_reg, rv_dtm_sync,
  poll_result, run_op, result_done, rv_dmi_read, rv_dmi_write,
}
use nuclei_dlink.Target.Dmi.Transport.{
  Registers, Transport, execute, scan_dmi, transport, selected, select_reg-selected,
}

dmi_word-sum :
    (address data' op : ℕ)
    → address < 2 ^ 30
    → data' < 2 ^ 32
    → op < 2 ^ 2
    → dmi_word address data' op ≡ address * 2 ^ 34 + data' * 2 ^ 2 + op
unfolding dmi_word
dmi_word-sum address data' op a d o =
    let whole : address * 2 ^ 34 % 2 ^ 64 ≡ address * 2 ^ 34 = omega arith in
    let low : op % 2 ^ 2 ≡ op = omega arith in
    let high : bit_or (address * 2 ^ 34) (data' * 2 ^ 2) ≡ (address * 2 ^ 32 + data') * 2 ^ 2 =
      omega (
        arith,
        bit_or_comm (address * 2 ^ 34) (data' * 2 ^ 2),
        bit_or_above 34 (data' * 2 ^ 2) address (omega arith),
      ) in
    rw (whole, low, high)
      (omega (
        arith,
        bit_or_comm ((address * 2 ^ 32 + data') * 2 ^ 2) op,
        bit_or_above 2 op (address * 2 ^ 32 + data') o,
      ))

-- The state is one that the code reaches: the last register that was selected is the one in the
-- instruction register.
abbrev pub IsSelected : {D : Type 0} → Dtm (Transport D) → Type 0
IsSelected s = s.last_reg ≡ reg_dmi → s.chain.instruction ≡ reg_dmi

module _ {D : Type 0} (dm : Registers D) where
  -- The state after a scan of the register of the interface.
  synced : Dtm (Transport D) → Dtm (Transport D)
  synced s = record s {
    last_reg = reg_dmi;
    op = 0;
    data' = s.chain.last_data;
    chain = execute dm s.op s.data' s.address (record s.chain { instruction = reg_dmi });
  }

  rv_dtm_sync-synced :
      (s : Dtm (Transport D))
      → IsSelected s
      → s.op < 2 ^ 2
      → s.data' < 2 ^ 32
      → s.address < 2 ^ 30
      → s.address < 2 ^ abits s.dtmcs
      → s.chain.last_data < 2 ^ 32
      → rv_dtm_sync (transport dm) reg_dmi s ≡ synced s
  unfolding rv_dtm_sync sync_reg synced transport scan_dmi selected
  rv_dtm_sync-synced s sel o d a fits l =
      let sum = dmi_word-sum s.address s.data' s.op a d o in
      let e0 : dmi_word s.address s.data' s.op % 2 ^ 2 ≡ s.op = omega (arith, sum) in
      let e1 : dmi_word s.address s.data' s.op / 2 ^ 2 % 2 ^ 32 ≡ s.data' = omega (arith, sum) in
      let e2 : dmi_word s.address s.data' s.op / 2 ^ 34 ≡ s.address = omega (arith, sum) in
      let e3 : 34 + abits s.dtmcs - 34 ≡ abits s.dtmcs = omega arith in
      let f0 : s.chain.last_data * 2 ^ 2 % 2 ^ 2 ≡ 0 = omega arith in
      let f1 : s.chain.last_data * 2 ^ 2 / 2 ^ 2 % 2 ^ 32 ≡ s.chain.last_data = omega arith in
      elim (Bool-cases (idle_clocks s.dtmcs == 0)) [
        | inl h ↦
            rw (select_reg-selected dm reg_dmi s sel, e0, e1, e2, e3, mod-eq_of_lt fits, f0, f1, h)
              refl
        | inr h ↦
            rw (select_reg-selected dm reg_dmi s sel, e0, e1, e2, e3, mod-eq_of_lt fits, f0, f1, h)
              refl
      ]

  execute-instruction :
      (op data' addr : ℕ) (t : Transport D)
      → (execute dm op data' addr t).instruction ≡ t.instruction
  unfolding execute
  execute-instruction op data' addr t = elim (Bool-cases (op == op_read)) [
    | inl h ↦ rw h refl
    | inr h ↦ elim (Bool-cases (op == op_write)) [ inl g ↦ rw (h, g) refl | inr g ↦ rw (h, g) refl ]
  ]

  asked : ℕ → ℕ → ℕ → Dtm (Transport D) → Dtm (Transport D)
  asked op data' addr s = record s { op = op; data' = data'; address = addr }

  run_op-synced :
      (op data' addr : ℕ) (s : Dtm (Transport D))
      → IsSelected s
      → op < 2 ^ 2
      → data' < 2 ^ 32
      → addr < 2 ^ 30
      → addr < 2 ^ abits s.dtmcs
      → s.chain.last_data < 2 ^ 32
      → (synced (asked op data' addr s)).chain.last_data < 2 ^ 32
      → run_op (transport dm) op data' addr s
        ≡ synced (asked op_nop 0 0 (synced (asked op data' addr s)))
  unfolding run_op poll_result synced asked
  run_op-synced op data' addr s sel o d a fits l l' =
      let first = rv_dtm_sync-synced (asked op data' addr s) sel o d a fits l in
      let some_bits : 0 < 2 ^ abits s.dtmcs = omega (arith, fits) in
      let second =
        rv_dtm_sync-synced (asked op_nop 0 0 (synced (asked op data' addr s)))
          (λ e. execute-instruction op data' addr (record s.chain { instruction = reg_dmi }))
          (omega arith) (omega arith) (omega arith) some_bits l' in
      rw (first, second) refl

-- A read through the transport module gives the register of the debug module, whatever the variable
-- held, and reads it once, with the result done; it keeps the state fit for the next operation. The
-- registers and the last data of the module are words, the address has at most 30 bits and fits into
-- the address bits that the module has told, and the register selected last, if it is the one of the
-- interface, is still in the instruction register.
pub rv_dmi_read-load :
    {D : Type 0} (dm : Registers D) (addr out : ℕ) (s : Dtm (Transport D))
    → ((a : ℕ) (d : D) → (dm.load a d).0 < 2 ^ 32)
    → IsSelected s
    → s.chain.last_data < 2 ^ 32
    → addr < 2 ^ 30
    → addr < 2 ^ abits s.dtmcs
    → let (value, s') = rv_dmi_read (transport dm) addr out s in
      (value ≡ (dm.load addr s.chain.module').0)
      × (s'.chain.module' ≡ (dm.load addr s.chain.module').1)
      × (s'.result ≡ result_done)
      × (s'.dtmcs ≡ s.dtmcs)
      × IsSelected s'
      × (s'.chain.last_data < 2 ^ 32)
unfolding rv_dmi_read synced asked execute
rv_dmi_read-load dm addr out s words sel l a fits =
    rw
      (run_op-synced dm op_read 0 addr s sel (omega arith) (omega arith) a fits l
        (words addr s.chain.module'))
      (refl, refl, refl, refl, (λ e. refl), words addr s.chain.module')

-- A write through the transport module stores into the register of the debug module once, with the
-- result done, and keeps the state fit for the next operation. The value and the last data of the
-- module are words, the address has at most 30 bits and fits into the address bits that the module
-- has told, and the register selected last, if it is the one of the interface, is still in the
-- instruction register.
pub rv_dmi_write-store :
    {D : Type 0} (dm : Registers D) (addr value : ℕ) (s : Dtm (Transport D))
    → IsSelected s
    → s.chain.last_data < 2 ^ 32
    → value < 2 ^ 32
    → addr < 2 ^ 30
    → addr < 2 ^ abits s.dtmcs
    → let s' = rv_dmi_write (transport dm) addr value s in
      (s'.chain.module' ≡ dm.store addr value s.chain.module')
      × (s'.result ≡ result_done)
      × (s'.dtmcs ≡ s.dtmcs)
      × IsSelected s'
      × (s'.chain.last_data < 2 ^ 32)
unfolding rv_dmi_write synced asked execute
rv_dmi_write-store dm addr value s sel l v a fits =
    rw (run_op-synced dm op_write value addr s sel (omega arith) v a fits l l)
      (refl, refl, refl, (λ e. refl), l)
