-- ===== src/Target/Watchpoint/Encoded.antt =====
-- `rv_parse_watchpoint_inst` on the loads and stores that opcodes.h encodes.
use nuclei_dlink.Base.{
  ℕ, ◌+◌, ◌-◌, ◌*◌, ◌/◌, ◌%◌, ◌^◌, ◌<◌, ◌≡◌, refl, ap, ◌∙◌, bit_or, arith, ltb, true, false,
  if◌then◌else◌, [], ◌∷◌, bit_or_comm, bit_or_above,
}
use nuclei_dlink.Opcodes.{sb, sh, sw, sd, fsw, fsd, lb, lh, lw, ld, flw, fld}
use nuclei_dlink.Opcodes.Fields.{
  load_word, store_word, load_word-opcode, load_word-base, load_word-offset, store_word-opcode,
  store_word-base, store_word-low, store_word-high, stores, loads,
}
use nuclei_dlink.Target.Watchpoint.{
  one_of, shift_right_signed, parse_full, rv_parse_watchpoint_inst,
}

-- A 12-bit number with its sign, as a 32-bit word.
pub sign_extend : ℕ → ℕ
sign_extend x = if ltb x (2 ^ 11) then x else x + (2 ^ 32 - 2 ^ 12)

sign_extend_lem : (x : ℕ) → x < 2 ^ 12 → shift_right_signed (x * 2 ^ 20) ≡ sign_extend x
unfolding sign_extend shift_right_signed
sign_extend_lem x h = ground arith

parse_load :
    (rd base offset m : ℕ)
    → m < 2 ^ 15
    → one_of (m % 2 ^ 7) (0x03 ∷ 0x07 ∷ []) ≡ true
    → m % 2 ^ 2 ≡ 3
    → rv_parse_watchpoint_inst (load_word rd base offset m)
      ≡ (base % 2 ^ 5, sign_extend (offset % 2 ^ 12))
unfolding rv_parse_watchpoint_inst parse_full
parse_load rd base offset m fits is low =
    let two : load_word rd base offset m / 2 ^ 0 % 2 ^ 2 ≡ 3 =
      omega (arith, load_word-opcode rd base offset m fits) in
    rw
      (
        two,
        load_word-opcode rd base offset m fits,
        is,
        load_word-base rd base offset m fits,
        load_word-offset rd base offset m fits,
      )
      (ap (λ (t : ℕ). (base % 2 ^ 5, t)) (sign_extend_lem (offset % 2 ^ 12) (omega arith)))

sign_extend_split :
    (x : ℕ)
    → shift_right_signed (bit_or (x / 2 ^ 5 % 2 ^ 7 * 2 ^ 25) (x % 2 ^ 5 * 2 ^ 20))
      ≡ sign_extend (x % 2 ^ 12)
sign_extend_split x =
    let whole : bit_or (x / 2 ^ 5 % 2 ^ 7 * 2 ^ 25) (x % 2 ^ 5 * 2 ^ 20) ≡ x % 2 ^ 12 * 2 ^ 20 =
      omega (
        arith,
        bit_or_comm (x / 2 ^ 5 % 2 ^ 7 * 2 ^ 25) (x % 2 ^ 5 * 2 ^ 20),
        bit_or_above 25 (x % 2 ^ 5 * 2 ^ 20) (x / 2 ^ 5 % 2 ^ 7) (omega arith),
      ) in
    ap shift_right_signed whole ∙ sign_extend_lem (x % 2 ^ 12) (omega arith)

parse_store :
    (src base offset m : ℕ)
    → m < 2 ^ 15
    → one_of (m % 2 ^ 7) (0x03 ∷ 0x07 ∷ []) ≡ false
    → one_of (m % 2 ^ 7) (0x23 ∷ 0x27 ∷ []) ≡ true
    → m % 2 ^ 2 ≡ 3
    → m / 2 ^ 7 % 2 ^ 5 ≡ 0
    → rv_parse_watchpoint_inst (store_word src base offset m)
      ≡ (base % 2 ^ 5, sign_extend (offset % 2 ^ 12))
unfolding rv_parse_watchpoint_inst parse_full
parse_store src base offset m fits not_load is low clear =
    let two : store_word src base offset m / 2 ^ 0 % 2 ^ 2 ≡ 3 =
      omega (arith, store_word-opcode src base offset m fits) in
    rw
      (
        two,
        store_word-opcode src base offset m fits,
        not_load,
        is,
        store_word-base src base offset m fits,
        store_word-low src base offset m fits clear,
        store_word-high src base offset m fits,
      )
      (ap (λ (t : ℕ). (base % 2 ^ 5, t)) (sign_extend_split offset))

-- The base register and the offset of an encoded access.
pub accessed : ℕ → ℕ → ℕ × ℕ
accessed base offset = (base % 2 ^ 5, sign_extend (offset % 2 ^ 12))

-- The parser finds the base register and the sign-extended 12-bit offset in every store that the
-- encoders produce, whatever the numbers given to them.
pub rv_parse_watchpoint_inst-store :
    (src base offset : ℕ)
    → (rv_parse_watchpoint_inst (sb src base offset) ≡ accessed base offset)
      × (rv_parse_watchpoint_inst (sh src base offset) ≡ accessed base offset)
      × (rv_parse_watchpoint_inst (sw src base offset) ≡ accessed base offset)
      × (rv_parse_watchpoint_inst (sd src base offset) ≡ accessed base offset)
      × (rv_parse_watchpoint_inst (fsw src base offset) ≡ accessed base offset)
      × (rv_parse_watchpoint_inst (fsd src base offset) ≡ accessed base offset)
unfolding accessed one_of
rv_parse_watchpoint_inst-store src base offset =
    let e = stores src base offset in
    (
      ap rv_parse_watchpoint_inst e.0
          ∙ parse_store src base offset 0x23 (omega arith) refl refl refl refl,
      ap rv_parse_watchpoint_inst e.1
          ∙ parse_store src base offset 0x1023 (omega arith) refl refl refl refl,
      ap rv_parse_watchpoint_inst e.2
          ∙ parse_store src base offset 0x2023 (omega arith) refl refl refl refl,
      ap rv_parse_watchpoint_inst e.3
          ∙ parse_store src base offset 0x3023 (omega arith) refl refl refl refl,
      ap rv_parse_watchpoint_inst e.4
          ∙ parse_store src base offset 0x2027 (omega arith) refl refl refl refl,
      ap rv_parse_watchpoint_inst e.5
          ∙ parse_store src base offset 0x3027 (omega arith) refl refl refl refl,
    )

-- The parser finds the base register and the sign-extended 12-bit offset in the loads that the
-- encoders produce, whatever the numbers given to them.
pub rv_parse_watchpoint_inst-load :
    (rd base offset : ℕ)
    → (rv_parse_watchpoint_inst (lb rd base offset) ≡ accessed base offset)
      × (rv_parse_watchpoint_inst (lh rd base offset) ≡ accessed base offset)
      × (rv_parse_watchpoint_inst (lw rd base offset) ≡ accessed base offset)
      × (rv_parse_watchpoint_inst (ld rd base offset) ≡ accessed base offset)
      × (rv_parse_watchpoint_inst (flw rd base offset) ≡ accessed base offset)
      × (rv_parse_watchpoint_inst (fld rd base offset) ≡ accessed base offset)
unfolding accessed one_of
rv_parse_watchpoint_inst-load rd base offset =
    let e = loads rd base offset in
    (
      ap rv_parse_watchpoint_inst e.0 ∙ parse_load rd base offset 0x3 (omega arith) refl refl,
      ap rv_parse_watchpoint_inst e.1 ∙ parse_load rd base offset 0x1003 (omega arith) refl refl,
      ap rv_parse_watchpoint_inst e.2 ∙ parse_load rd base offset 0x2003 (omega arith) refl refl,
      ap rv_parse_watchpoint_inst e.3 ∙ parse_load rd base offset 0x3003 (omega arith) refl refl,
      ap rv_parse_watchpoint_inst e.4 ∙ parse_load rd base offset 0x2007 (omega arith) refl refl,
      ap rv_parse_watchpoint_inst e.5 ∙ parse_load rd base offset 0x3007 (omega arith) refl refl,
    )
