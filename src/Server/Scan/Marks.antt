-- ===== src/Server/Scan/Marks.antt =====
-- The commas and colons behind numbers, and the length of their text.
use nuclei_dlink.Base.{
  ℕ, zero, suc, ◌/◌, ◌%◌, ◌^◌, ◌<◌, ◌≤◌, ◌≡◌, refl, ap, false, some, List, ◌∷◌, ◌++◌, arith, length,
  ltb, ◌==◌, ==_refl, Bool-cases, inl, inr,
}
use nuclei_dlink.Codec.{hex_digit}
use nuclei_dlink.Server.Scan.{after_char, hex_digits, hex_text, print_hex}
use nuclei_dlink.Server.Scan.Numbers.{hex_text-digits, hex_digit_low}

-- The text behind a character that no digit is.
after_char-hex_digits :
    (n v ch : ℕ) (rest : List ℕ)
    → ((d : ℕ) → d < 16 → (hex_digit d == ch) ≡ false)
    → after_char ch (hex_digits n v ++ ch ∷ rest) ≡ some rest
unfolding after_char hex_digits
after_char-hex_digits zero v ch rest differs = rw (==_refl ch) refl
after_char-hex_digits (suc n) v ch rest differs =
    let d = v / 16 ^ n % 16 in
    let positive : (hex_digit d == 0) ≡ false = ground (arith, hex_digit_low d (omega arith)) in
    rw (differs d (omega arith), positive) (after_char-hex_digits n v ch rest differs)

digit-ne-comma : (d : ℕ) → d < 16 → (hex_digit d == b',') ≡ false
unfolding hex_digit
digit-ne-comma d h = ground arith

digit-ne-colon : (d : ℕ) → d < 16 → (hex_digit d == b':') ≡ false
unfolding hex_digit
digit-ne-colon d h = ground arith

pub after_comma :
    (v : ℕ) (rest : List ℕ) → v < 2 ^ 32 → after_char b',' (print_hex v ++ b',' ∷ rest) ≡ some rest
unfolding print_hex
after_comma v rest h =
    let (m, text, low) = hex_text-digits 7 v h in
    rw (text) (after_char-hex_digits (suc m) v b',' rest digit-ne-comma)

-- The colon behind two numbers.
after_char_skip :
    (n v ch c : ℕ) (rest : List ℕ)
    → ((d : ℕ) → d < 16 → (hex_digit d == ch) ≡ false)
    → after_char ch (hex_digits n v ++ rest) ≡ after_char ch rest
unfolding after_char hex_digits
after_char_skip zero v ch c rest differs = refl
after_char_skip (suc n) v ch c rest differs =
    let d = v / 16 ^ n % 16 in
    let positive : (hex_digit d == 0) ≡ false = ground (arith, hex_digit_low d (omega arith)) in
    rw (differs d (omega arith), positive) (after_char_skip n v ch c rest differs)

pub after_colon :
    (v w : ℕ) (rest : List ℕ)
    → v < 2 ^ 32
    → w < 2 ^ 32
    → after_char b':' (print_hex v ++ b',' ∷ (print_hex w ++ b':' ∷ rest)) ≡ some rest
unfolding print_hex after_char
after_colon v w rest h k =
    let (m, text, low) = hex_text-digits 7 v h in
    let (l, text', low') = hex_text-digits 7 w k in
    rw
      (
        text,
        text',
        after_char_skip (suc m) v b':' 0 (b',' ∷ (hex_digits (suc l) w ++ b':' ∷ rest))
            digit-ne-colon,
      )
      (after_char-hex_digits (suc l) w b':' rest digit-ne-colon)

length-hex_digits : (n v : ℕ) → length (hex_digits n v) ≡ n
unfolding hex_digits
length-hex_digits zero v = refl
length-hex_digits (suc n) v = ap suc (length-hex_digits n v)

length-hex_text : (n v : ℕ) → length (hex_text n v) ≤ suc n
unfolding hex_text
length-hex_text zero v = omega (arith, length-hex_digits 1 v)
length-hex_text (suc n) v = elim (Bool-cases (ltb v (16 ^ suc n))) [
  | inl e ↦ rw (e) (omega (arith, length-hex_text n v))
  | inr e ↦ rw (e) (omega (arith, length-hex_digits (suc (suc n)) v))
]

pub length-print_hex : (v : ℕ) → length (print_hex v) ≤ 8
unfolding print_hex
length-print_hex v = length-hex_text 7 v
