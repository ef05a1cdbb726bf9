-- ===== src/Target/Memory.antt =====
-- Memory access of riscv-target.c through the abstract commands of the debug module:
-- `rv_memory_read`, `rv_memory_write`, `rv_target_read_memory`, `rv_target_write_memory`.
pub mod Commands
pub mod Bytes
pub mod Halves
pub mod Stores
use nuclei_dlink.Base.{
  ℕ, zero, suc, ◌+◌, ◌*◌, ◌/◌, ◌%◌, ◌^◌, Bool, true, false, not, ◌&&◌, List, [], ◌∷◌, ◌++◌, ◌==◌,
  if◌then◌else◌, length, ltb,
}
use nuclei_dlink.Target.Dmi.{Link, Dtm, rv_dmi_read, rv_dmi_write}

-- What the functions use of the debug module interface. A read is given what the variable held.
pub record Dmi (D : Type 0) : Type 0 where
  pub read : ℕ → ℕ → D → ℕ × D
  pub write : ℕ → ℕ → D → D

pub dmi_over : {W : Type 0} → Link W → Dmi (Dtm W)
dmi_over link = record {
  read = λ addr out s. rv_dmi_read link addr out s;
  write = λ addr value s. rv_dmi_write link addr value s;
}

abbrev pub reg_data0 : ℕ
reg_data0 = 0x04

abbrev pub reg_data1 : ℕ
reg_data1 = 0x05

abbrev pub reg_data2 : ℕ
reg_data2 = 0x06

abbrev pub reg_data3 : ℕ
reg_data3 = 0x07

abbrev pub reg_abstractcs : ℕ
reg_abstractcs = 0x16

abbrev pub reg_command : ℕ
reg_command = 0x17

abbrev pub mxl_rv32 : ℕ
mxl_rv32 = 1

abbrev pub mxl_rv64 : ℕ
mxl_rv64 = 2

-- `err_flag`, the copies of registers of the debug module in `target.dm`, the copies of `dcsr`,
-- `vtype` and `vl` of the hart, the last two as two words each, and what lies behind the interface.
pub record Dm (D : Type 0) : Type 0 where
  pub err_flag : Bool
  pub abstractcs : ℕ
  pub data0 : ℕ
  pub data1 : ℕ
  pub hartinfo : ℕ
  pub dmstatus : ℕ
  pub dcsr : ℕ
  pub save_vtype : List ℕ
  pub save_vl : List ℕ
  pub under : D

-- Bits 8 to 10.
abbrev pub cmderr : ℕ → ℕ
cmderr abstractcs = abstractcs / 2 ^ 8 % 2 ^ 3

-- The command of a memory access of `2 ^ aamsize` bytes.
abbrev pub mem_command : ℕ → ℕ → ℕ
mem_command aamsize write = 2 * 2 ^ 24 + aamsize % 2 ^ 3 * 2 ^ 20 + write * 2 ^ 16

-- The part of `data0` that an element of the buffer takes.
abbrev pub element : ℕ → ℕ → ℕ
element aamsize data' = data' % 2 ^ (8 * 2 ^ aamsize)

-- The bytes of an element of 8, 16 or 32 bits, in the order of the debugger's memory.
pub element_bytes : ℕ → ℕ → List ℕ
element_bytes zero x = x % 2 ^ 8 ∷ []
element_bytes (suc zero) x = x % 2 ^ 8 ∷ x / 2 ^ 8 % 2 ^ 8 ∷ []
element_bytes (suc (suc size)) x =
    x % 2 ^ 8 ∷ x / 2 ^ 8 % 2 ^ 8 ∷ x / 2 ^ 16 % 2 ^ 8 ∷ x / 2 ^ 24 % 2 ^ 8 ∷ []

pub elements_bytes : ℕ → List ℕ → List ℕ
elements_bytes size [] = []
elements_bytes size (x ∷ xs) = element_bytes size x ++ elements_bytes size xs

-- The elements in a buffer of bytes; bytes that fill no element are left out.
pub bytes_elements : ℕ → List ℕ → List ℕ
bytes_elements zero bytes = bytes
bytes_elements (suc zero) (a ∷ b ∷ bytes) = (a + b * 2 ^ 8) ∷ bytes_elements 1 bytes
bytes_elements (suc (suc size)) (a ∷ b ∷ c ∷ d ∷ bytes) =
    (a + b * 2 ^ 8 + c * 2 ^ 16 + d * 2 ^ 24) ∷ bytes_elements (suc (suc size)) bytes
bytes_elements _ bytes = []

-- The size of the accesses: words, halfwords or bytes by the alignment of the buffer, of the
-- address and of the length.
pub access_size : ℕ → ℕ → ℕ → ℕ
access_size ptr addr len =
    if (ptr % 4 == 0) && ((addr % 4 == 0) && (len % 4 == 0))
    then 2
    else if (ptr % 2 == 0) && ((addr % 2 == 0) && (len % 2 == 0))
    then 1
    else 0

module _ {D : Type 0} (dmi : Dmi D) (mxl : ℕ) where
  unfoldable pub write_reg : ℕ → ℕ → Dm D → Dm D
  write_reg reg value s = record s { under = dmi.write reg value s.under }

  pub set_address : ℕ → ℕ → ℕ → Dm D → Dm D
  set_address addr i aamsize s =
      let low = (addr + i * 2 ^ aamsize) % 2 ^ 32 in
      if mxl == mxl_rv32
      then write_reg reg_data1 low (record s { data1 = low })
      else if mxl == mxl_rv64
      then write_reg reg_data3 (addr / 2 ^ 32 % 2 ^ 32) (write_reg reg_data2 low s)
      else s

  -- The command, the status after it, and the reset of an error.
  pub run_command : ℕ → Dm D → Bool × Dm D
  run_command command s =
      let s1 = write_reg reg_command command s in
      let (status, after) = dmi.read reg_abstractcs s1.abstractcs s1.under in
      let s2 = record s1 { abstractcs = status; under = after } in
      if cmderr status == 0 then (true, s2) else (
        false,
        write_reg reg_abstractcs 0x700 (record s2 { err_flag = true; abstractcs = 0x700 }),
      )

  unfoldable pub read_data0 : Dm D → Dm D
  read_data0 s =
      let (value, after) = dmi.read reg_data0 s.data0 s.under in
      record s { data0 = value; under = after }

  -- The loop over `n` elements from index `i` on, with the elements that it stores: none of a size above
  -- that of 32 bits.
  pub read_elements : ℕ → ℕ → ℕ → ℕ → Dm D → List ℕ × Dm D
  read_elements zero i addr aamsize s = ([], s)
  read_elements (suc n) i addr aamsize s =
      let (ok, s1) = run_command (mem_command aamsize 0) (set_address addr i aamsize s) in
      let s2 = read_data0 s1 in
      let (rest, s3) = read_elements n (suc i) addr aamsize s2 in
      let stored = if ltb aamsize 3 then element aamsize s2.data0 ∷ rest else rest in
      if ok then (stored, s3) else ([], record s1 { data0 = 0xffff_ffff })

  pub rv_memory_read : ℕ → ℕ → ℕ → Dm D → List ℕ × Dm D
  rv_memory_read addr len aamsize s =
      read_elements len 0 addr aamsize (record s { err_flag = false })

  -- The loop over the elements of the buffer from index `i` on; none is taken from the buffer at a size
  -- above that of 32 bits.
  pub write_elements : List ℕ → ℕ → ℕ → ℕ → Dm D → Dm D
  write_elements [] i addr aamsize s = s
  write_elements (x ∷ xs) i addr aamsize s =
      let s0 = set_address addr i aamsize s in
      let s1 = if ltb aamsize 3 then record s0 { data0 = element aamsize x } else s0 in
      let (ok, s2) = run_command (mem_command aamsize 1) (write_reg reg_data0 s1.data0 s1) in
      let rest = write_elements xs (suc i) addr aamsize s2 in if ok then rest else s2

  pub rv_memory_write : List ℕ → ℕ → ℕ → Dm D → Dm D
  rv_memory_write mem addr aamsize s =
      write_elements mem 0 addr aamsize (record s { err_flag = false })

  -- With the bytes of the elements that are stored in the buffer, which lies at `ptr`.
  pub rv_target_read_memory : ℕ → ℕ → ℕ → Dm D → List ℕ × Dm D
  rv_target_read_memory ptr addr len s =
      let size = access_size ptr addr len in
      let (xs, s') = rv_memory_read addr (len / 2 ^ size) size s in (elements_bytes size xs, s')

  -- The bytes of the buffer, which lies at `ptr`.
  pub rv_target_write_memory : ℕ → List ℕ → ℕ → Dm D → Dm D
  rv_target_write_memory ptr mem addr s =
      let size = access_size ptr addr (length mem) in
      rv_memory_write (bytes_elements size mem) addr size s
