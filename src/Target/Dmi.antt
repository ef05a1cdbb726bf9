-- ===== src/Target/Dmi.antt =====
-- The debug module interface of riscv-target.c: `rv_dtm_sync`, `rv_dmi_read`, `rv_dmi_write`.
pub mod Transport
pub mod Access
pub mod Identify
use nuclei_dlink.Base.{
  ℕ, zero, suc, ◌+◌, ◌*◌, ◌/◌, ◌%◌, ◌^◌, bit_or, Bool, true, false, not, ◌==◌, if◌then◌else◌,
}
use nuclei_dlink.Tap.{Pins, Port, tap_shift_scan, tap_idle}

-- What the functions use of riscv-tap.c: a scan of a register, of the instruction register or not,
-- and idle clocks.
pub record Link (W : Type 0) : Type 0 where
  pub shift_scan : ℕ → Bool → ℕ → W → ℕ × W
  pub idle : ℕ → W → W

-- riscv-tap.c as the link, with the bits of the other devices on the chain.
pub tap_link : {W : Type 0} → Pins W → ℕ → ℕ → ℕ → ℕ → Link (Port W)
tap_link pins ir_post ir_pre dr_post dr_pre = record {
  shift_scan = λ word ir len p.
      if ir
      then tap_shift_scan pins word true len ir_post ir_pre p
      else tap_shift_scan pins word false len dr_post dr_pre p;
  idle = λ n p. tap_idle pins n p;
}

abbrev pub reg_idcode : ℕ
reg_idcode = 0x01

abbrev pub reg_dtmcs : ℕ
reg_dtmcs = 0x10

abbrev pub reg_dmi : ℕ
reg_dmi = 0x11

abbrev pub op_nop : ℕ
op_nop = 0

abbrev pub op_read : ℕ
op_read = 1

abbrev pub op_write : ℕ
op_write = 2

abbrev pub result_done : ℕ
result_done = 0

abbrev pub result_busy : ℕ
result_busy = 3

abbrev pub dmi_retries : ℕ
dmi_retries = 6

-- `target.dtm`, `target.dmi`, `last_reg` and `result`, and what lies behind the link.
pub record Dtm (W : Type 0) : Type 0 where
  pub last_reg : ℕ
  pub idcode : ℕ
  pub dtmcs : ℕ
  pub op : ℕ
  pub data' : ℕ
  pub address : ℕ
  pub result : ℕ
  pub chain : W

abbrev pub abits : ℕ → ℕ
abits dtmcs = dtmcs / 2 ^ 4 % 2 ^ 6

abbrev pub idle_clocks : ℕ → ℕ
idle_clocks dtmcs = dtmcs / 2 ^ 12 % 2 ^ 3

-- The value with `dmireset`, bit 16, set.
abbrev pub dmireset : ℕ → ℕ
dmireset dtmcs = dtmcs / 2 ^ 17 * 2 ^ 17 + 2 ^ 16 + dtmcs % 2 ^ 16

-- The word that is scanned into the register of the interface.
pub dmi_word : ℕ → ℕ → ℕ → ℕ
dmi_word address data' op = bit_or (bit_or (address * 2 ^ 34 % 2 ^ 64) (data' * 2 ^ 2)) (op % 2 ^ 2)

module _ {W : Type 0} (link : Link W) where
  -- The instruction register is scanned only when the register is another one than the last.
  pub select_reg : ℕ → Dtm W → Dtm W
  select_reg reg s =
      if reg == s.last_reg
      then s
      else record s { last_reg = reg; chain = (link.shift_scan reg true 5 s.chain).1 }

  pub sync_reg : ℕ → Dtm W → Dtm W
  sync_reg reg s =
      let (word, after) = link.shift_scan s.data' false 32 s.chain in
      let (out, after') =
        link.shift_scan (dmi_word s.address s.data' s.op) false (32 + 2 + abits s.dtmcs) s.chain in
      if reg == reg_idcode
      then record s { idcode = word % 2 ^ 32; chain = after }
      else if reg == reg_dtmcs
      then record s { dtmcs = word % 2 ^ 32; chain = after }
      else if reg == reg_dmi
      then record s { op = out % 2 ^ 2; data' = out / 2 ^ 2 % 2 ^ 32; chain = after' }
      else s

  pub rv_dtm_sync : ℕ → Dtm W → Dtm W
  rv_dtm_sync reg s =
      let s' = sync_reg reg (select_reg reg s) in
      if idle_clocks s'.dtmcs == 0
      then s'
      else record s' { chain = link.idle (idle_clocks s'.dtmcs) s'.chain }

  -- The loop that asks for the result with at most `n` tries.
  pub poll_result : ℕ → Dtm W → Dtm W
  poll_result zero s = s
  poll_result (suc n) s =
      let s' = rv_dtm_sync reg_dmi (record s { op = op_nop; data' = 0; address = 0 }) in
      let again = poll_result n (record s' { chain = link.idle 32 s'.chain }) in
      if s'.op == result_busy then again else s'

  -- After an operation that is not done, the error is reset.
  pub reset_error : Dtm W → Dtm W
  reset_error s =
      let value = dmireset s.dtmcs in
      rv_dtm_sync reg_dtmcs (record s { dtmcs = value; data' = value })

  -- An operation and its result; `rv_dmi_write` without the end.
  pub run_op : ℕ → ℕ → ℕ → Dtm W → Dtm W
  run_op op data' address s =
      poll_result dmi_retries
        (rv_dtm_sync reg_dmi (record s { op = op; data' = data'; address = address }))

  -- The value that `*out` holds, given what it held before.
  pub rv_dmi_read : ℕ → ℕ → Dtm W → ℕ × Dtm W
  rv_dmi_read addr out s =
      let s' = run_op op_read 0 addr s in
      let failed = reset_error s' in
      if s'.op == result_done
      then (s'.data', record s' { result = s'.op })
      else (out, record failed { result = failed.op })

  pub rv_dmi_write : ℕ → ℕ → Dtm W → Dtm W
  rv_dmi_write addr value s =
      let s' = run_op op_write value addr s in
      let failed = reset_error s' in
      if s'.op == result_done
      then record s' { result = s'.op }
      else record failed { result = failed.op }
