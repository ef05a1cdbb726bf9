-- ===== src/Target/Control.antt =====
-- Run control of riscv-target.c: `rv_target_reset`, `rv_target_halt`, `rv_target_resume`,
-- `rv_target_step`, `rv_target_fini_pre` and the core registers. The delays are not modelled.
pub mod Resume
pub mod Lengths
use nuclei_dlink.Base.{
  ℕ, zero, suc, ◌+◌, ◌*◌, ◌/◌, ◌%◌, ◌^◌, ◌||◌, List, [], ◌∷◌, ◌++◌, take, drop, ◌==◌, if◌then◌else◌,
  field, set_field,
}
use nuclei_dlink.Base.Action.{Action, pure, gets, modify, given, ◌>>=◌, ◌>>◌, skip}
use nuclei_dlink.Target.Memory.{Dmi, Dm, mxl_rv32, mxl_rv64, write_reg}
use nuclei_dlink.Target.Register.{word}
use nuclei_dlink.Target.Register.Names.{Hart, dcsr_regno, dpc_regno}
use nuclei_dlink.Target.Register.Access.{rv_target_read_register, rv_target_write_register}

abbrev pub reg_dmcontrol : ℕ
reg_dmcontrol = 0x10

abbrev pub reg_dmstatus : ℕ
reg_dmstatus = 0x11

-- Bits of dmcontrol.
abbrev pub dmactive : ℕ
dmactive = 2 ^ 0

abbrev pub ndmreset : ℕ
ndmreset = 2 ^ 1

abbrev pub clrresethaltreq : ℕ
clrresethaltreq = 2 ^ 2

abbrev pub setresethaltreq : ℕ
setresethaltreq = 2 ^ 3

abbrev pub ackhavereset : ℕ
ackhavereset = 2 ^ 28

abbrev pub hartreset : ℕ
hartreset = 2 ^ 29

abbrev pub resumereq : ℕ
resumereq = 2 ^ 30

abbrev pub haltreq : ℕ
haltreq = 2 ^ 31

-- `step` and the three `ebreak` bits of dcsr.
abbrev pub set_step : ℕ → ℕ → ℕ
set_step v dcsr = set_field 2 1 v dcsr

abbrev pub set_ebreak : ℕ → ℕ → ℕ
set_ebreak v dcsr = set_field 12 1 v (set_field 13 1 v (set_field 15 1 v dcsr))

module _ {D : Type 0} (dmi : Dmi D) (fuel : ℕ) (hart : Hart) where
  unfoldable pub write_control : ℕ → Action (Dm D) (Unit {0})
  write_control value = modify (write_reg dmi hart.mxl reg_dmcontrol value)

  pub read_dmstatus : Dm D → Dm D
  read_dmstatus s =
      let (value, after) = dmi.read reg_dmstatus s.dmstatus s.under in
      record s { dmstatus = value; under = after }

  -- `n` reads of the status, up to the one that tells that the hart has halted.
  pub wait_halted : ℕ → Dm D → Dm D
  wait_halted zero s = s
  wait_halted (suc n) s =
      let s1 = read_dmstatus s in
      let again = wait_halted n s1 in if field 9 1 s1.dmstatus == 1 then s1 else again

  pub rv_target_reset : Action (Dm D) (Unit {0})
  rv_target_reset = do
    write_control (dmactive + haltreq + setresethaltreq + hartreset + ndmreset)
    write_control (dmactive + haltreq + setresethaltreq)
    modify (wait_halted 100)
    status ← gets (λ s. s.dmstatus)
    let acknowledged = if field 19 1 status == 1 then ackhavereset else 0
    write_control (dmactive + haltreq + clrresethaltreq + acknowledged)

  pub rv_target_halt : Action (Dm D) (Unit {0})
  rv_target_halt = write_control (haltreq + dmactive)

  -- dcsr is read, changed and written back.
  unfoldable pub update_dcsr : (ℕ → ℕ) → Action (Dm D) (Unit {0})
  update_dcsr f = do
    old ← gets (λ s. s.dcsr)
    reg ← rv_target_read_register dmi fuel hart (old ∷ []) dcsr_regno
    dcsr ← given (word reg 0)
    modify (λ s. record s { dcsr = f dcsr })
    rv_target_write_register dmi fuel hart (f dcsr ∷ []) dcsr_regno

  unfoldable pub rv_target_resume : Action (Dm D) (Unit {0})
  rv_target_resume = do update_dcsr (set_step 0); write_control (resumereq + dmactive)

  unfoldable pub rv_target_step : Action (Dm D) (Unit {0})
  rv_target_step = do update_dcsr (set_step 1); write_control (resumereq + dmactive)

  pub rv_target_fini_pre : Action (Dm D) (Unit {0})
  rv_target_fini_pre = do update_dcsr (set_ebreak 0); write_control 0

  -- Register `regno` at place `i` of a buffer of registers.
  pub read_at : ℕ → ℕ → List ℕ → Action (Dm D) (List ℕ)
  read_at i regno regs = do
    rest ← rv_target_read_register dmi fuel hart (drop (i * hart.mxl) regs) regno
    pure (take (i * hart.mxl) regs ++ rest)

  pub write_at_place : ℕ → ℕ → List ℕ → Action (Dm D) (Unit {0})
  write_at_place i regno regs =
      rv_target_write_register dmi fuel hart (drop (i * hart.mxl) regs) regno

  -- The loops over `n` registers from `i` on.
  pub read_registers : ℕ → ℕ → List ℕ → Action (Dm D) (List ℕ)
  read_registers zero i regs = pure regs
  read_registers (suc n) i regs = do regs' ← read_at i i regs; read_registers n (suc i) regs'

  pub write_registers : ℕ → ℕ → List ℕ → Action (Dm D) (Unit {0})
  write_registers zero i regs = skip
  write_registers (suc n) i regs = do write_at_place i i regs; write_registers n (suc i) regs

  pub read_all : List ℕ → Action (Dm D) (List ℕ)
  read_all regs = do regs' ← read_registers 31 1 regs; read_at 32 dpc_regno regs'

  pub write_all : List ℕ → Action (Dm D) (Unit {0})
  write_all regs = do write_registers 31 1 regs; write_at_place 32 dpc_regno regs

  -- On a target of another width the buffer is left as it is.
  pub rv_target_read_core_registers : List ℕ → Action (Dm D) (List ℕ)
  rv_target_read_core_registers regs =
      if (hart.mxl == mxl_rv32) || (hart.mxl == mxl_rv64) then read_all regs else pure regs

  pub rv_target_write_core_registers : List ℕ → Action (Dm D) (Unit {0})
  rv_target_write_core_registers regs =
      if (hart.mxl == mxl_rv32) || (hart.mxl == mxl_rv64) then write_all regs else skip
