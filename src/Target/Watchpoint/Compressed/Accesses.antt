-- ===== src/Target/Watchpoint/Compressed/Accesses.antt =====
-- The 16-bit loads and stores of a 32-bit target, by their names in the "C" extension. `n` is the offset in
-- words, or in double words.
use nuclei_dlink.Base.{ℕ, ◌+◌, ◌*◌, ◌/◌, ◌%◌, ◌^◌, ◌<◌, ◌≡◌, refl, ap, ◌∙◌, arith}
use nuclei_dlink.Target.Watchpoint.{one_of, rv_parse_watchpoint_inst}
use nuclei_dlink.Target.Watchpoint.Compressed.{
  cl_word, cl_double, ci_word, ci_double, css_word, css_double, IsStack, parse_cl_word,
  parse_cl_double, parse_ci_word, parse_ci_double, parse_css_word, parse_css_double,
}

-- By a base register, x8 being the register 0 of three bits.
abbrev pub word_by_base : ℕ → ℕ → ℕ → ℕ → ℕ
word_by_base funct reg base n = cl_word funct (n / 2 % 2 ^ 3) base (n % 2) (n / 2 ^ 4) reg

abbrev pub double_by_base : ℕ → ℕ → ℕ → ℕ → ℕ
double_by_base funct reg base n = cl_double funct (n % 2 ^ 3) base (n / 2 ^ 3) reg

-- By the stack pointer.
abbrev pub word_from_stack : ℕ → ℕ → ℕ → ℕ
word_from_stack funct reg n = ci_word funct (n / 2 ^ 3 % 2) reg (n % 2 ^ 3) (n / 2 ^ 4)

abbrev pub word_to_stack : ℕ → ℕ → ℕ → ℕ
word_to_stack funct reg n = css_word funct (n % 2 ^ 4) (n / 2 ^ 4) reg

abbrev pub c_lw : ℕ → ℕ → ℕ → ℕ
c_lw = word_by_base 2

abbrev pub c_flw : ℕ → ℕ → ℕ → ℕ
c_flw = word_by_base 3

abbrev pub c_sw : ℕ → ℕ → ℕ → ℕ
c_sw = word_by_base 6

abbrev pub c_fsw : ℕ → ℕ → ℕ → ℕ
c_fsw = word_by_base 7

abbrev pub c_fld : ℕ → ℕ → ℕ → ℕ
c_fld = double_by_base 1

abbrev pub c_fsd : ℕ → ℕ → ℕ → ℕ
c_fsd = double_by_base 5

abbrev pub c_lwsp : ℕ → ℕ → ℕ
c_lwsp = word_from_stack 2

abbrev pub c_flwsp : ℕ → ℕ → ℕ
c_flwsp = word_from_stack 3

abbrev pub c_swsp : ℕ → ℕ → ℕ
c_swsp = word_to_stack 6

abbrev pub c_fswsp : ℕ → ℕ → ℕ
c_fswsp = word_to_stack 7

abbrev pub c_fldsp : ℕ → ℕ → ℕ
c_fldsp reg n = ci_double 1 (n / 2 ^ 2 % 2) reg (n % 2 ^ 2) (n / 2 ^ 3)

abbrev pub c_fsdsp : ℕ → ℕ → ℕ
c_fsdsp reg n = css_double 5 (n % 2 ^ 3) (n / 2 ^ 3) reg

-- The parser finds the base register and the offset in the 16-bit loads and stores of words and double
-- words whose base is one of the registers from x8 to x15.
pub rv_parse_watchpoint_inst-by_base :
    (reg base n : ℕ)
    → reg < 2 ^ 3
    → base < 2 ^ 3
    → n < 2 ^ 5
    → (rv_parse_watchpoint_inst (c_lw reg base n) ≡ (base + 8, n * 4))
      × (rv_parse_watchpoint_inst (c_flw reg base n) ≡ (base + 8, n * 4))
      × (rv_parse_watchpoint_inst (c_sw reg base n) ≡ (base + 8, n * 4))
      × (rv_parse_watchpoint_inst (c_fsw reg base n) ≡ (base + 8, n * 4))
      × (rv_parse_watchpoint_inst (c_fld reg base n) ≡ (base + 8, n * 8))
      × (rv_parse_watchpoint_inst (c_fsd reg base n) ≡ (base + 8, n * 8))
unfolding one_of
rv_parse_watchpoint_inst-by_base reg base n hr hb hn =
    let w : n / 2 % 2 ^ 3 * 2 ^ 3 + n % 2 * 2 ^ 2 + n / 2 ^ 4 * 2 ^ 6 ≡ n * 4 = omega arith in
    let d : n % 2 ^ 3 * 2 ^ 3 + n / 2 ^ 3 * 2 ^ 6 ≡ n * 8 = omega arith in
    let at : ℕ → ℕ × ℕ = λ offset. (base + 8, offset) in
    let word = λ (f : ℕ) (h : f < 2 ^ 3).
      parse_cl_word f (n / 2 % 2 ^ 3) base (n % 2) (n / 2 ^ 4) reg h (omega arith) hb (omega arith)
        (omega arith) hr in
    let double = λ (f : ℕ) (h : f < 2 ^ 3).
      parse_cl_double f (n % 2 ^ 3) base (n / 2 ^ 3) reg h (omega arith) hb (omega arith) hr in
    (
      word 2 (omega arith) refl refl refl ∙ ap at w,
      word 3 (omega arith) refl refl refl ∙ ap at w,
      word 6 (omega arith) refl refl refl ∙ ap at w,
      word 7 (omega arith) refl refl refl ∙ ap at w,
      double 1 (omega arith) refl refl ∙ ap at d,
      double 5 (omega arith) refl refl ∙ ap at d,
    )

-- The parser finds the stack pointer and the offset in the 16-bit loads and stores of words and double
-- words on the stack.
pub rv_parse_watchpoint_inst-by_stack :
    (reg n : ℕ)
    → reg < 2 ^ 5
    → n < 2 ^ 6
    → (rv_parse_watchpoint_inst (c_lwsp reg n) ≡ (2, n * 4))
      × (rv_parse_watchpoint_inst (c_flwsp reg n) ≡ (2, n * 4))
      × (rv_parse_watchpoint_inst (c_swsp reg n) ≡ (2, n * 4))
      × (rv_parse_watchpoint_inst (c_fswsp reg n) ≡ (2, n * 4))
      × (rv_parse_watchpoint_inst (c_fldsp reg n) ≡ (2, n * 8))
      × (rv_parse_watchpoint_inst (c_fsdsp reg n) ≡ (2, n * 8))
unfolding one_of IsStack
rv_parse_watchpoint_inst-by_stack reg n hr hn =
    let l : n / 2 ^ 3 % 2 * 2 ^ 5 + n % 2 ^ 3 * 2 ^ 2 + n / 2 ^ 4 * 2 ^ 6 ≡ n * 4 = omega arith in
    let s : n % 2 ^ 4 * 2 ^ 2 + n / 2 ^ 4 * 2 ^ 6 ≡ n * 4 = omega arith in
    let ld : n / 2 ^ 2 % 2 * 2 ^ 5 + n % 2 ^ 2 * 2 ^ 3 + n / 2 ^ 3 * 2 ^ 6 ≡ n * 8 = omega arith in
    let sd : n % 2 ^ 3 * 2 ^ 3 + n / 2 ^ 3 * 2 ^ 6 ≡ n * 8 = omega arith in
    let at : ℕ → ℕ × ℕ = λ offset. (2, offset) in
    let from = λ (f : ℕ) (h : f < 2 ^ 3).
      parse_ci_word f (n / 2 ^ 3 % 2) reg (n % 2 ^ 3) (n / 2 ^ 4) h (omega arith) hr (omega arith)
        (omega arith) in
    let to = λ (f : ℕ) (h : f < 2 ^ 3).
      parse_css_word f (n % 2 ^ 4) (n / 2 ^ 4) reg h (omega arith) (omega arith) hr in
    (
      from 2 (omega arith) (refl, refl, refl, refl) refl refl ∙ ap at l,
      from 3 (omega arith) (refl, refl, refl, refl) refl refl ∙ ap at l,
      to 6 (omega arith) (refl, refl, refl, refl) refl refl refl refl ∙ ap at s,
      to 7 (omega arith) (refl, refl, refl, refl) refl refl refl refl ∙ ap at s,
      parse_ci_double 1 (n / 2 ^ 2 % 2) reg (n % 2 ^ 2) (n / 2 ^ 3) (omega arith) (omega arith) hr
            (omega arith) (omega arith) (refl, refl, refl, refl) refl
          ∙ ap at ld,
      parse_css_double 5 (n % 2 ^ 3) (n / 2 ^ 3) reg (omega arith) (omega arith) (omega arith) hr
            (refl, refl, refl, refl) refl refl refl
          ∙ ap at sd,
    )
