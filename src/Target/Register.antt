-- ===== src/Target/Register.antt =====
-- Register access of riscv-target.c by abstract commands, and the execution of the program buffer:
-- `rv_register_read`, `rv_register_write`, `rv_program_exec`. A register's value lies in a buffer of
-- 32-bit words; an access past its end is a fault. A step that faults or waits for ever gives `none`.
pub mod Names
pub mod Buffer
pub mod Access
pub mod Lengths
pub mod Machine
pub mod Gpr
pub mod Csr
pub mod Delivery
mod Tests
use mathlib.Core.Option
use nuclei_dlink.Base.{
  ℕ, zero, suc, ◌+◌, ◌*◌, ◌/◌, ◌%◌, ◌^◌, Bool, true, false, Option, none, some, List, [], ◌∷◌, ◌==◌,
  ltb, length, get_elem?, set, if◌then◌else◌,
}
use nuclei_dlink.Base.Action.{Action, pure, gets, modify, run, given, ◌>>=◌, ◌>>◌, skip}
use nuclei_dlink.Opcodes.{ebreak}
use nuclei_dlink.Target.Memory.{
  Dmi, Dm, mxl_rv32, mxl_rv64, reg_data0, reg_data1, reg_abstractcs, reg_command, cmderr, write_reg,
  read_data0,
}

abbrev pub reg_program_buffer0 : ℕ
reg_program_buffer0 = 0x20

-- `RV_REG_DCSR - RV_REG_CSR0`, whose width does not depend on the target's.
abbrev pub dcsr_number : ℕ
dcsr_number = 0x7b0

-- Bit 12.
abbrev pub busy : ℕ → Bool
busy abstractcs = abstractcs / 2 ^ 12 % 2 == 1

-- The command of a register access: `aarsize` by the width, `transfer`, `write`.
pub reg_command_word : ℕ → ℕ → ℕ → ℕ
reg_command_word mxl write regno =
    let aarsize = if mxl == mxl_rv32 then 2 else if mxl == mxl_rv64 then 3 else 0 in
    aarsize * 2 ^ 20 + 2 ^ 17 + write * 2 ^ 16 + regno % 2 ^ 16

-- `postexec` with no transfer.
abbrev pub exec_command_word : ℕ
exec_command_word = 2 * 2 ^ 20 + 2 ^ 18 + 0x1000

-- The width at which a register is accessed.
pub width_of : ℕ → ℕ → ℕ
width_of mxl regno = if regno == dcsr_number then mxl_rv32 else mxl

-- Word `i` of a buffer.
unfoldable pub word : List ℕ → ℕ → Option ℕ
word reg i = get_elem? reg i

pub set_word : List ℕ → ℕ → ℕ → Option (List ℕ)
set_word [] i v = none
set_word (x ∷ xs) zero v = some (v ∷ xs)
set_word (x ∷ xs) (suc i) v = Option.map (λ ys. x ∷ ys) (set_word xs i v)

module _ {D : Type 0} (dmi : Dmi D) (fuel mxl : ℕ) where
  -- The loop that waits for the command; true when it has met an error, which it resets. The reset
  -- clears the copy of `busy` too, and so ends the loop.
  pub wait_command : ℕ → Action (Dm D) Bool
  wait_command zero s = none
  wait_command (suc n) s =
      let (status, after) = dmi.read reg_abstractcs s.abstractcs s.under in
      let s1 = record s { abstractcs = status; under = after } in
      let again = wait_command n s1 in
      let failed =
        write_reg dmi mxl reg_abstractcs 0x700
          (record s1 { err_flag = true; abstractcs = 0x700 }) in
      if cmderr status == 0
      then (if busy status then again else some (false, s1))
      else some (true, failed)

  pub read_data1 : Dm D → Dm D
  read_data1 s =
      let (value, after) = dmi.read reg_data1 s.data1 s.under in
      record s { data1 = value; under = after }

  -- The end of a read: the data registers go into the buffer.
  pub fetch : ℕ → List ℕ → Action (Dm D) (List ℕ)
  fetch width reg =
      let low = (do
        modify (read_data0 dmi mxl)
        v ← gets (λ s. s.data0)
        given (set_word reg 0 v)) in
      let high = (do
        reg1 ← low
        modify read_data1
        v ← gets (λ s. s.data1)
        given (set_word reg1 1 v)) in
      if width == mxl_rv32 then low else if width == mxl_rv64 then high else pure reg

  pub rv_register_read : List ℕ → ℕ → Action (Dm D) (List ℕ)
  rv_register_read reg regno = do
    let width = width_of mxl regno
    modify (λ s.
        write_reg dmi mxl reg_command (reg_command_word width 0 regno)
          (record s { err_flag = false }))
    failed ← wait_command fuel
    reg' ← given (if failed then set_word reg 0 0xffff_ffff else some reg)
    fetch width reg'

  -- The words of the buffer go into the data registers.
  pub supply : ℕ → List ℕ → Action (Dm D) (Unit {0})
  supply width reg =
      let low = (do
        v ← given (word reg 0)
        modify (λ s. write_reg dmi mxl reg_data0 v (record s { data0 = v }))) in
      let high = (do
        low
        v ← given (word reg 1)
        modify (λ s. write_reg dmi mxl reg_data1 v (record s { data1 = v }))) in
      if width == mxl_rv32 then low else if width == mxl_rv64 then high else skip

  pub rv_register_write : List ℕ → ℕ → Action (Dm D) (Unit {0})
  rv_register_write reg regno = do
    let width = width_of mxl regno
    modify (λ s. record s { err_flag = false })
    supply width reg
    modify (write_reg dmi mxl reg_command (reg_command_word width 1 regno))
    failed ← wait_command fuel
    skip

  -- The instructions go into the program buffer, from entry `i` on.
  pub load_program : ℕ → List ℕ → Dm D → Dm D
  load_program i [] s = write_reg dmi mxl (reg_program_buffer0 + i) ebreak s
  load_program i (x ∷ inst) s =
      load_program (i + 1) inst (write_reg dmi mxl (reg_program_buffer0 + i) x s)

  pub rv_program_exec : List ℕ → Action (Dm D) (Unit {0})
  rv_program_exec inst = do
    modify (λ s. write_reg dmi mxl reg_command exec_command_word (load_program 0 inst s))
    failed ← wait_command fuel
    skip
