-- ===== src/Server/Scan/Numbers.antt =====
-- Reading back the hexadecimal numbers that gdb-server.c and the debugger print.
use nuclei_dlink.Base.{
  ℕ, zero, suc, ◌+◌, ◌-◌, ◌*◌, ◌/◌, ◌%◌, ◌^◌, ◌<◌, ◌≤◌, ◌≡◌, refl, ap, sym, ◌∙◌, min, false, ◌||◌,
  ◌&&◌, none, some, List, [], ◌∷◌, ◌++◌, arith, ltb, ltb→lt, ◌==◌, Bool-cases, inl, inr,
}
use native.Mathlib.Nat.{pow-suc, div-div-eq-div-mul, div-add-mod, mod-eq_of_lt}
use nuclei_dlink.Codec.{hex_digit}
use nuclei_dlink.Server.Scan.{
  is_space, hex_value, skip_spaces, scan_digits, scan_number, scan_fields, scan_unsigned,
  scan_signed, scan_hex, hex_digits, hex_text, print_hex,
}

hex_value-hex_digit : (d : ℕ) → d < 16 → hex_value (hex_digit d) ≡ some d
unfolding hex_value hex_digit
hex_value-hex_digit d h = ground arith

pub hex_digit_low : (d : ℕ) → d < 16 → 48 ≤ hex_digit d
unfolding hex_digit
hex_digit_low d h = ground arith

hex_digit-ne-x : (d : ℕ) → d < 16 → (hex_digit d == b'x') ≡ false
unfolding hex_digit
hex_digit-ne-x d h = ground arith

hex_digit-ne-X : (d : ℕ) → d < 16 → (hex_digit d == b'X') ≡ false
unfolding hex_digit
hex_digit-ne-X d h = ground arith

top_digit : (p x : ℕ) → x % (p * 16) ≡ x / p % 16 * p + x % p
top_digit p x = omega (
  arith,
  div-add-mod x (p * 16),
  div-add-mod x p,
  ap (λ (q : ℕ). p * 16 * q) (sym (div-div-eq-div-mul x p 16)),
  ap (λ (q : ℕ). p * q) (div-add-mod (x / p) 16),
)

scan_digits_step :
    (c d acc : ℕ) (s : List ℕ)
    → hex_value c ≡ some d
    → scan_digits acc (c ∷ s) ≡ scan_digits (acc * 16 + d) s
unfolding scan_digits
scan_digits_step c d acc s e = rw (scan_digits, e) refl

scan_digits_end :
    (c acc : ℕ) (s : List ℕ) → hex_value c ≡ none → scan_digits acc (c ∷ s) ≡ (acc, c ∷ s)
unfolding scan_digits
scan_digits_end c acc s e = rw (scan_digits, e) refl

scan_number_step :
    (c d v : ℕ) (s rest : List ℕ)
    → hex_value c ≡ some d
    → scan_digits d s ≡ (v, rest)
    → scan_number (c ∷ s) ≡ some (min v (2 ^ 32 - 1), rest)
unfolding scan_number
scan_number_step c d v s rest e f = rw (scan_number, e, f) refl

scan_digits-hex_digits :
    (n acc v : ℕ) (rest : List ℕ)
    → scan_digits acc (hex_digits n v ++ rest) ≡ scan_digits (acc * 16 ^ n + v % 16 ^ n) rest
unfolding hex_digits
scan_digits-hex_digits zero acc v rest = let e : acc * 1 + v % 1 ≡ acc = omega arith in rw (e) refl
scan_digits-hex_digits (suc n) acc v rest =
    let d = v / 16 ^ n % 16 in
    let e : (acc * 16 + d) * 16 ^ n + v % 16 ^ n ≡ acc * 16 ^ suc n + v % 16 ^ suc n = omega (
      arith,
      top_digit (16 ^ n) v,
      pow-suc 16 n,
      ap (λ (t : ℕ). acc * t) (pow-suc 16 n),
      ap (λ (t : ℕ). v % t) (pow-suc 16 n),
    ) in
    scan_digits_step (hex_digit d) d acc (hex_digits n v ++ rest)
      (hex_value-hex_digit d (omega arith))
    ∙ (scan_digits-hex_digits n (acc * 16 + d) v rest ∙ ap (λ (t : ℕ). scan_digits t rest) e)

-- The text that a number ends at.
abbrev pub IsEnd : ℕ → Type 0
IsEnd c = (hex_value c ≡ none) × ((c == b'x') ≡ false) × ((c == b'X') ≡ false)

scan_number-hex_digits :
    (m v c : ℕ) (rest : List ℕ)
    → v < 16 ^ suc m
    → v < 2 ^ 32
    → hex_value c ≡ none
    → scan_number (hex_digits (suc m) v ++ c ∷ rest) ≡ some (v, c ∷ rest)
unfolding hex_digits
scan_number-hex_digits m v c rest h fits e =
    let d = v / 16 ^ m % 16 in
    let value : d * 16 ^ m + v % 16 ^ m ≡ v = omega (
      arith,
      top_digit (16 ^ m) v,
      pow-suc 16 m,
      ap (λ (t : ℕ). v % t) (pow-suc 16 m),
      mod-eq_of_lt h,
    ) in
    let least : min v (2 ^ 32 - 1) ≡ v = omega arith in
    let scanned : scan_digits d (hex_digits m v ++ c ∷ rest) ≡ (v, c ∷ rest) =
      scan_digits-hex_digits m d v (c ∷ rest) ∙ rw (value) (scan_digits_end c v rest e) in
    scan_number_step (hex_digit d) d v (hex_digits m v ++ c ∷ rest) (c ∷ rest)
      (hex_value-hex_digit d (omega arith)) scanned
    ∙ rw (least) refl

pub hex_text-digits :
    (n v : ℕ) → v < 16 ^ suc n → (m : ℕ) × (hex_text n v ≡ hex_digits (suc m) v) × (v < 16 ^ suc m)
unfolding hex_text
hex_text-digits zero v h = (0, refl, h)
hex_text-digits (suc n) v h = elim (Bool-cases (ltb v (16 ^ suc n))) [
  | inl e ↦
      let (m, text, low) = hex_text-digits n v (ltb→lt v (16 ^ suc n) e) in (m, rw (e) text, low)
  | inr e ↦ (suc n, rw (e) refl, h)
]

skip_none : (c : ℕ) (s : List ℕ) → 48 ≤ c → skip_spaces (c ∷ s) ≡ c ∷ s
unfolding skip_spaces
skip_none c s h = let e : is_space c ≡ false = ground arith in rw (e) refl

sign_none : (c : ℕ) (s : List ℕ) → 48 ≤ c → scan_signed (c ∷ s) ≡ scan_unsigned (c ∷ s)
unfolding scan_signed
sign_none c s h =
    let plus : (c == b'+') ≡ false = ground arith in
    let minus : (c == b'-') ≡ false = ground arith in rw (plus, minus) refl

prefix_none :
    (c x : ℕ) (s : List ℕ)
    → (x == b'x') ≡ false
    → (x == b'X') ≡ false
    → scan_unsigned (c ∷ x ∷ s) ≡ scan_number (c ∷ x ∷ s)
unfolding scan_unsigned
prefix_none c x s e f =
    let none_of : (c == b'0' && (x == b'x' || x == b'X')) ≡ false = ground (arith, e, f) in
    rw (none_of) refl

scan_unsigned-hex_digits :
    (m v c : ℕ) (rest : List ℕ)
    → IsEnd c
    → scan_unsigned (hex_digits (suc m) v ++ c ∷ rest)
      ≡ scan_number (hex_digits (suc m) v ++ c ∷ rest)
unfolding hex_digits
scan_unsigned-hex_digits zero v c rest end = prefix_none _ c rest end.1 end.2
scan_unsigned-hex_digits (suc m) v c rest end =
    let d = v / 16 ^ m % 16 in
    prefix_none _ (hex_digit d) (hex_digits m v ++ c ∷ rest) (hex_digit-ne-x d (omega arith))
      (hex_digit-ne-X d (omega arith))

scan_hex-hex_digits :
    (m v c : ℕ) (rest : List ℕ)
    → IsEnd c
    → scan_hex (hex_digits (suc m) v ++ c ∷ rest) ≡ scan_unsigned (hex_digits (suc m) v ++ c ∷ rest)
unfolding scan_hex hex_digits
scan_hex-hex_digits m v c rest end =
    let low = hex_digit_low (v / 16 ^ m % 16) (omega arith) in
    rw (skip_none (hex_digit (v / 16 ^ m % 16)) (hex_digits m v ++ c ∷ rest) low)
      (sign_none _ _ low)

-- A number of 32 bits that is printed in hexadecimal is read back, with the text behind it, when that
-- begins with a character that continues no number.
pub scan_hex-print_hex :
    (v c : ℕ) (rest : List ℕ)
    → v < 2 ^ 32
    → IsEnd c
    → scan_hex (print_hex v ++ c ∷ rest) ≡ some (v, c ∷ rest)
unfolding print_hex
scan_hex-print_hex v c rest h end =
    let (m, text, low) = hex_text-digits 7 v h in
    rw (text) (
      scan_hex-hex_digits m v c rest end
      ∙ scan_unsigned-hex_digits m v c rest end
      ∙ scan_number-hex_digits m v c rest low h end.0)

pub comma_IsEnd : IsEnd b','
unfolding hex_value
comma_IsEnd = (refl, refl, refl)

pub colon_IsEnd : IsEnd b':'
unfolding hex_value
colon_IsEnd = (refl, refl, refl)

pub nul_IsEnd : IsEnd 0
unfolding hex_value
nul_IsEnd = (refl, refl, refl)

-- Two such numbers with a comma between them.
pub scan_fields-print_hex :
    (v w c : ℕ) (rest : List ℕ)
    → v < 2 ^ 32
    → w < 2 ^ 32
    → IsEnd c
    → (c == b',') ≡ false
    → scan_fields 2 (print_hex v ++ b',' ∷ (print_hex w ++ c ∷ rest)) ≡ v ∷ w ∷ []
unfolding scan_fields
scan_fields-print_hex v w c rest h k end apart =
    rw
      (
        scan_fields,
        scan_hex-print_hex v b',' (print_hex w ++ c ∷ rest) h comma_IsEnd,
        scan_hex-print_hex w c rest k end,
        apart,
      )
      refl
