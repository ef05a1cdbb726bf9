-- ===== src/Target/Watchpoint.antt =====
-- `rv_parse_watchpoint_inst` of riscv-target.c: the base register and the offset of the load or
-- store that a watchpoint stopped at.
pub mod Compressed
pub mod Encoded
mod Tests
use nuclei_dlink.Base.{
  ℕ, ◌+◌, ◌-◌, ◌*◌, ◌/◌, ◌%◌, ◌^◌, bit_or, Bool, false, ◌||◌, List, [], ◌∷◌, ◌==◌, ltb,
  if◌then◌else◌, field,
}

-- The labels of a `case`.
unfoldable pub one_of : ℕ → List ℕ → Bool
one_of x [] = false
one_of x (y ∷ ys) = (x == y) || one_of x ys

-- `>> 20` of a 32-bit signed number, as the bits of the result.
pub shift_right_signed : ℕ → ℕ
shift_right_signed v = if ltb v (2 ^ 31) then v / 2 ^ 20 else v / 2 ^ 20 + (2 ^ 32 - 2 ^ 12)

-- 32-bit instructions: LOAD and LOAD-FP, STORE and STORE-FP.
pub parse_full : ℕ → ℕ × ℕ
parse_full inst =
    let opcode = field 0 7 inst in
    let load : ℕ × ℕ = (field 15 5 inst, shift_right_signed (field 20 12 inst * 2 ^ 20)) in
    let store : ℕ × ℕ = (
      field 15 5 inst,
      shift_right_signed (bit_or (field 25 7 inst * 2 ^ 25) (field 7 5 inst * 2 ^ 20)),
    ) in
    if one_of opcode (0x03 ∷ 0x07 ∷ [])
    then load
    else if one_of opcode (0x23 ∷ 0x27 ∷ [])
    then store
    else (0, 0)

-- The opcode of a 16-bit instruction.
pub compressed_opcode : ℕ → ℕ
compressed_opcode inst = bit_or (field 13 3 inst * 2 ^ 2) (field 0 2 inst)

pub compressed_regno : ℕ → ℕ
compressed_regno inst =
    let opcode = compressed_opcode inst in
    if one_of opcode (0x4 ∷ 0x8 ∷ 0xc ∷ 0x14 ∷ 0x18 ∷ 0x1c ∷ [])
    then field 7 3 inst + 8
    else if one_of opcode (0x6 ∷ 0xa ∷ 0xe ∷ 0x16 ∷ 0x1a ∷ 0x1e ∷ [])
    then 2
    else 0

pub compressed_offset : ℕ → ℕ
compressed_offset inst =
    let opcode = compressed_opcode inst in
    if one_of opcode (0x4 ∷ 0x14 ∷ [])
    then bit_or (field 10 3 inst * 2 ^ 3) (field 5 2 inst * 2 ^ 6)
    else if one_of opcode (0x8 ∷ 0xc ∷ 0x18 ∷ 0x1c ∷ [])
    then bit_or (bit_or (field 10 3 inst * 2 ^ 3) (field 6 1 inst * 2 ^ 2)) (field 5 1 inst * 2 ^ 6)
    else if one_of opcode (0x6 ∷ [])
    then bit_or (bit_or (field 12 1 inst * 2 ^ 5) (field 5 2 inst * 2 ^ 3)) (field 2 3 inst * 2 ^ 6)
    else if one_of opcode (0xa ∷ 0xe ∷ [])
    then bit_or (bit_or (field 12 1 inst * 2 ^ 5) (field 4 3 inst * 2 ^ 2)) (field 2 2 inst * 2 ^ 6)
    else if one_of opcode (0x16 ∷ [])
    then bit_or (field 10 3 inst * 2 ^ 3) (field 7 3 inst * 2 ^ 6)
    else if one_of opcode (0x1a ∷ 0x1e ∷ [])
    then bit_or (field 9 4 inst * 2 ^ 2) (field 7 2 inst * 2 ^ 6)
    else 0

-- The register number and the offset of the instruction.
pub rv_parse_watchpoint_inst : ℕ → ℕ × ℕ
rv_parse_watchpoint_inst inst =
    if field 0 2 inst == 0x3
    then parse_full inst
    else (compressed_regno inst, compressed_offset inst)
