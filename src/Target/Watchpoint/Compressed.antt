-- ===== src/Target/Watchpoint/Compressed.antt =====
-- `rv_parse_watchpoint_inst` on the 16-bit loads and stores, as the "C" extension of RISC-V lays them out.
pub mod Accesses
use nuclei_dlink.Base.{
  ℕ, ◌+◌, ◌-◌, ◌*◌, ◌/◌, ◌%◌, ◌^◌, ◌<◌, ◌≡◌, refl, ap, ◌∙◌, bit_or, arith, ltb, true, false, ◌==◌,
  List, if◌then◌else◌, [], ◌∷◌, bit_or_comm, bit_or_above, field,
}
use nuclei_dlink.Target.Watchpoint.{
  one_of, compressed_opcode, compressed_regno, compressed_offset, rv_parse_watchpoint_inst,
}

-- The parts of an offset, each below the next, are put together by `|`.
or_up : (k lo hi : ℕ) → lo < 2 ^ k → bit_or (hi * 2 ^ k) lo ≡ hi * 2 ^ k + lo
or_up k lo hi h = bit_or_comm (hi * 2 ^ k) lo ∙ bit_or_above k lo hi h ∙ omega arith

or_three :
    (i j k a b c : ℕ)
    → b * 2 ^ j < 2 ^ i
    → a * 2 ^ i + b * 2 ^ j < 2 ^ k
    → bit_or (bit_or (a * 2 ^ i) (b * 2 ^ j)) (c * 2 ^ k) ≡ a * 2 ^ i + b * 2 ^ j + c * 2 ^ k
or_three i j k a b c low fits =
    rw (or_up i (b * 2 ^ j) a low) (bit_or_above k (a * 2 ^ i + b * 2 ^ j) c fits)

-- The formats CL and CS of the accesses to a word, with the parts of the instruction: the function, bits
-- 3 to 5 of the offset, the base register from x8 on, bits 2 and 6 of the offset, and the other register.
abbrev pub cl_word : ℕ → ℕ → ℕ → ℕ → ℕ → ℕ → ℕ
cl_word f a b c d e = f * 2 ^ 13 + a * 2 ^ 10 + b * 2 ^ 7 + c * 2 ^ 6 + d * 2 ^ 5 + e * 2 ^ 2

-- The formats CL and CS of the accesses to a double word: bits 3 to 5 and 6 to 7 of the offset.
abbrev pub cl_double : ℕ → ℕ → ℕ → ℕ → ℕ → ℕ
cl_double f a b c e = f * 2 ^ 13 + a * 2 ^ 10 + b * 2 ^ 7 + c * 2 ^ 5 + e * 2 ^ 2

-- The format CI of the loads from the stack: bit 5 of the offset, the register, and bits 2 to 4 and 6 to 7,
-- or 3 to 4 and 6 to 8 for a double word.
abbrev pub ci_word : ℕ → ℕ → ℕ → ℕ → ℕ → ℕ
ci_word f a r b c = f * 2 ^ 13 + a * 2 ^ 12 + r * 2 ^ 7 + b * 2 ^ 4 + c * 2 ^ 2 + 2

abbrev pub ci_double : ℕ → ℕ → ℕ → ℕ → ℕ → ℕ
ci_double f a r b c = f * 2 ^ 13 + a * 2 ^ 12 + r * 2 ^ 7 + b * 2 ^ 5 + c * 2 ^ 2 + 2

-- The format CSS of the stores to the stack: bits 2 to 5 and 6 to 7 of the offset, or 3 to 5 and 6 to 8 for
-- a double word, and the register.
abbrev pub css_word : ℕ → ℕ → ℕ → ℕ → ℕ
css_word f a b r = f * 2 ^ 13 + a * 2 ^ 9 + b * 2 ^ 7 + r * 2 ^ 2 + 2

abbrev pub css_double : ℕ → ℕ → ℕ → ℕ → ℕ
css_double f a b r = f * 2 ^ 13 + a * 2 ^ 10 + b * 2 ^ 7 + r * 2 ^ 2 + 2

abbrev pub by_base : List ℕ
by_base = 0x4 ∷ 0x8 ∷ 0xc ∷ 0x14 ∷ 0x18 ∷ 0x1c ∷ []

pub parse_cl_word :
    (f a b c d e : ℕ)
    → f < 2 ^ 3
    → a < 2 ^ 3
    → b < 2 ^ 3
    → c < 2
    → d < 2
    → e < 2 ^ 3
    → one_of (bit_or (f * 2 ^ 2) 0) by_base ≡ true
    → one_of (bit_or (f * 2 ^ 2) 0) (0x4 ∷ 0x14 ∷ []) ≡ false
    → one_of (bit_or (f * 2 ^ 2) 0) (0x8 ∷ 0xc ∷ 0x18 ∷ 0x1c ∷ []) ≡ true
    → rv_parse_watchpoint_inst (cl_word f a b c d e) ≡ (b + 8, a * 2 ^ 3 + c * 2 ^ 2 + d * 2 ^ 6)
unfolding rv_parse_watchpoint_inst compressed_regno compressed_offset compressed_opcode
parse_cl_word f a b c d e hf ha hb hc hd he is not_double word =
    let op : field 0 2 (cl_word f a b c d e) ≡ 0 = omega arith in
    let high : field 13 3 (cl_word f a b c d e) ≡ f = omega arith in
    let fa : field 10 3 (cl_word f a b c d e) ≡ a = omega arith in
    let fb : field 7 3 (cl_word f a b c d e) ≡ b = omega arith in
    let fc : field 6 1 (cl_word f a b c d e) ≡ c = omega arith in
    let fd : field 5 1 (cl_word f a b c d e) ≡ d = omega arith in
    let all = or_three 3 2 6 a c d (omega arith) (omega arith) in
    rw (op, high, is, not_double, word, fa, fb, fc, fd, all) refl

pub parse_cl_double :
    (f a b c e : ℕ)
    → f < 2 ^ 3
    → a < 2 ^ 3
    → b < 2 ^ 3
    → c < 2 ^ 2
    → e < 2 ^ 3
    → one_of (bit_or (f * 2 ^ 2) 0) by_base ≡ true
    → one_of (bit_or (f * 2 ^ 2) 0) (0x4 ∷ 0x14 ∷ []) ≡ true
    → rv_parse_watchpoint_inst (cl_double f a b c e) ≡ (b + 8, a * 2 ^ 3 + c * 2 ^ 6)
unfolding rv_parse_watchpoint_inst compressed_regno compressed_offset compressed_opcode
parse_cl_double f a b c e hf ha hb hc he is double =
    let op : field 0 2 (cl_double f a b c e) ≡ 0 = omega arith in
    let high : field 13 3 (cl_double f a b c e) ≡ f = omega arith in
    let fa : field 10 3 (cl_double f a b c e) ≡ a = omega arith in
    let fb : field 7 3 (cl_double f a b c e) ≡ b = omega arith in
    let fc : field 5 2 (cl_double f a b c e) ≡ c = omega arith in
    let all = bit_or_above 6 (a * 2 ^ 3) c (omega arith) in
    rw (op, high, is, double, fa, fb, fc, all) refl

abbrev pub by_stack : List ℕ
by_stack = 0x6 ∷ 0xa ∷ 0xe ∷ 0x16 ∷ 0x1a ∷ 0x1e ∷ []

-- An access to the stack, which is none by another base.
pub IsStack : ℕ → Type 0
IsStack opcode =
    (one_of opcode by_base ≡ false)
    × (one_of opcode by_stack ≡ true)
    × (one_of opcode (0x4 ∷ 0x14 ∷ []) ≡ false)
    × (one_of opcode (0x8 ∷ 0xc ∷ 0x18 ∷ 0x1c ∷ []) ≡ false)

pub parse_ci_word :
    (f a r b c : ℕ)
    → f < 2 ^ 3
    → a < 2
    → r < 2 ^ 5
    → b < 2 ^ 3
    → c < 2 ^ 2
    → IsStack (bit_or (f * 2 ^ 2) 2)
    → one_of (bit_or (f * 2 ^ 2) 2) (0x6 ∷ []) ≡ false
    → one_of (bit_or (f * 2 ^ 2) 2) (0xa ∷ 0xe ∷ []) ≡ true
    → rv_parse_watchpoint_inst (ci_word f a r b c) ≡ (2, a * 2 ^ 5 + b * 2 ^ 2 + c * 2 ^ 6)
unfolding rv_parse_watchpoint_inst compressed_regno compressed_offset compressed_opcode IsStack
parse_ci_word f a r b c hf ha hr hb hc (other, is, first, second) not_double word =
    let op : field 0 2 (ci_word f a r b c) ≡ 2 = omega arith in
    let high : field 13 3 (ci_word f a r b c) ≡ f = omega arith in
    let fa : field 12 1 (ci_word f a r b c) ≡ a = omega arith in
    let fb : field 4 3 (ci_word f a r b c) ≡ b = omega arith in
    let fc : field 2 2 (ci_word f a r b c) ≡ c = omega arith in
    let all = or_three 5 2 6 a b c (omega arith) (omega arith) in
    rw (op, high, other, is, first, second, not_double, word, fa, fb, fc, all) refl

pub parse_ci_double :
    (f a r b c : ℕ)
    → f < 2 ^ 3
    → a < 2
    → r < 2 ^ 5
    → b < 2 ^ 2
    → c < 2 ^ 3
    → IsStack (bit_or (f * 2 ^ 2) 2)
    → one_of (bit_or (f * 2 ^ 2) 2) (0x6 ∷ []) ≡ true
    → rv_parse_watchpoint_inst (ci_double f a r b c) ≡ (2, a * 2 ^ 5 + b * 2 ^ 3 + c * 2 ^ 6)
unfolding rv_parse_watchpoint_inst compressed_regno compressed_offset compressed_opcode IsStack
parse_ci_double f a r b c hf ha hr hb hc (other, is, first, second) double =
    let op : field 0 2 (ci_double f a r b c) ≡ 2 = omega arith in
    let high : field 13 3 (ci_double f a r b c) ≡ f = omega arith in
    let fa : field 12 1 (ci_double f a r b c) ≡ a = omega arith in
    let fb : field 5 2 (ci_double f a r b c) ≡ b = omega arith in
    let fc : field 2 3 (ci_double f a r b c) ≡ c = omega arith in
    let all = or_three 5 3 6 a b c (omega arith) (omega arith) in
    rw (op, high, other, is, first, second, double, fa, fb, fc, all) refl

pub parse_css_double :
    (f a b r : ℕ)
    → f < 2 ^ 3
    → a < 2 ^ 3
    → b < 2 ^ 3
    → r < 2 ^ 5
    → IsStack (bit_or (f * 2 ^ 2) 2)
    → one_of (bit_or (f * 2 ^ 2) 2) (0x6 ∷ []) ≡ false
    → one_of (bit_or (f * 2 ^ 2) 2) (0xa ∷ 0xe ∷ []) ≡ false
    → one_of (bit_or (f * 2 ^ 2) 2) (0x16 ∷ []) ≡ true
    → rv_parse_watchpoint_inst (css_double f a b r) ≡ (2, a * 2 ^ 3 + b * 2 ^ 6)
unfolding rv_parse_watchpoint_inst compressed_regno compressed_offset compressed_opcode IsStack
parse_css_double f a b r hf ha hb hr (other, is, first, second) third fourth double =
    let op : field 0 2 (css_double f a b r) ≡ 2 = omega arith in
    let high : field 13 3 (css_double f a b r) ≡ f = omega arith in
    let fa : field 10 3 (css_double f a b r) ≡ a = omega arith in
    let fb : field 7 3 (css_double f a b r) ≡ b = omega arith in
    let all = bit_or_above 6 (a * 2 ^ 3) b (omega arith) in
    rw (op, high, other, is, first, second, third, fourth, double, fa, fb, all) refl

pub parse_css_word :
    (f a b r : ℕ)
    → f < 2 ^ 3
    → a < 2 ^ 4
    → b < 2 ^ 2
    → r < 2 ^ 5
    → IsStack (bit_or (f * 2 ^ 2) 2)
    → one_of (bit_or (f * 2 ^ 2) 2) (0x6 ∷ []) ≡ false
    → one_of (bit_or (f * 2 ^ 2) 2) (0xa ∷ 0xe ∷ []) ≡ false
    → one_of (bit_or (f * 2 ^ 2) 2) (0x16 ∷ []) ≡ false
    → one_of (bit_or (f * 2 ^ 2) 2) (0x1a ∷ 0x1e ∷ []) ≡ true
    → rv_parse_watchpoint_inst (css_word f a b r) ≡ (2, a * 2 ^ 2 + b * 2 ^ 6)
unfolding rv_parse_watchpoint_inst compressed_regno compressed_offset compressed_opcode IsStack
parse_css_word f a b r hf ha hb hr (other, is, first, second) third fourth fifth word =
    let op : field 0 2 (css_word f a b r) ≡ 2 = omega arith in
    let high : field 13 3 (css_word f a b r) ≡ f = omega arith in
    let fa : field 9 4 (css_word f a b r) ≡ a = omega arith in
    let fb : field 7 2 (css_word f a b r) ≡ b = omega arith in
    let all = bit_or_above 6 (a * 2 ^ 2) b (omega arith) in
    rw (op, high, other, is, first, second, third, fourth, fifth, word, fa, fb, all) refl
