-- ===== src/Server/Scan.antt =====
-- What gdb-server.c uses of sscanf, strchr and strncmp of the C library, and the hexadecimal
-- numbers that it prints. A text ends at a zero byte, or at the end of the list.
pub mod Bounds
pub mod Numbers
pub mod Marks
use mathlib.Core.Option
use nuclei_dlink.Base.{
  ℕ, zero, suc, ◌+◌, ◌-◌, ◌*◌, ◌/◌, ◌%◌, ◌^◌, min, Bool, true, false, ◌&&◌, ◌||◌, Option, none,
  some, List, [], ◌∷◌, ◌++◌, leb, ltb, ◌==◌, if◌then◌else◌, drop,
}
use nuclei_dlink.Codec.{hex_digit}

abbrev pub is_space : ℕ → Bool
is_space c = (leb 9 c && leb c 13) || c == 32

pub hex_value : ℕ → Option ℕ
hex_value c =
    if leb b'0' c && leb c b'9'
    then some (c - b'0')
    else if leb b'a' c && leb c b'f'
    then some (c - b'a' + 10)
    else if leb b'A' c && leb c b'F'
    then some (c - b'A' + 10)
    else none

pub skip_spaces : List ℕ → List ℕ
skip_spaces [] = []
skip_spaces (c ∷ s) = let rest = skip_spaces s in if is_space c then rest else c ∷ s

-- The digits of a number after those with the value `acc`, and the text behind them.
pub scan_digits : ℕ → List ℕ → ℕ × List ℕ
scan_digits acc [] = (acc, [])
scan_digits acc (c ∷ s) = elim (hex_value c) [
  | none ↦ (acc, c ∷ s)
  | some d ↦ scan_digits (acc * 16 + d) s
]

-- At least one digit. A value that does not fit in 32 bits is the greatest one.
pub scan_number : List ℕ → Option (ℕ × List ℕ)
scan_number [] = none
scan_number (c ∷ s) = elim (hex_value c) [
  | none ↦ none
  | some d ↦ let r = scan_digits d s in some (min r.0 (2 ^ 32 - 1), r.1)
]

-- A number that may begin with `0x`.
pub scan_unsigned : List ℕ → Option (ℕ × List ℕ)
scan_unsigned (c ∷ x ∷ s) =
    if c == b'0' && (x == b'x' || x == b'X')
    then elim (scan_number s) [ none ↦ some (0, x ∷ s) | some r ↦ some r ]
    else scan_number (c ∷ x ∷ s)
scan_unsigned s = scan_number s

scan_signed : List ℕ → Option (ℕ × List ℕ)
scan_signed [] = none
scan_signed (c ∷ s) =
    if c == b'+'
    then scan_unsigned s
    else if c == b'-'
    then Option.map (λ r. ((2 ^ 32 - r.0) % 2 ^ 32, r.1)) (scan_unsigned s)
    else scan_unsigned (c ∷ s)

-- The conversion `%x`.
pub scan_hex : List ℕ → Option (ℕ × List ℕ)
scan_hex s = scan_signed (skip_spaces s)

-- The values that `n` conversions with commas between them store, up to the first that fails.
pub scan_fields : ℕ → List ℕ → List ℕ
scan_fields zero s = []
scan_fields (suc n) s = elim (scan_hex s) [
  | none ↦ []
  | some (v, []) ↦ v ∷ []
  | some (v, c ∷ rest) ↦ let vs = scan_fields n rest in v ∷ (if c == b',' then vs else [])
]

-- The text behind the first `ch`; without one the code has the null pointer and goes on from it.
pub after_char : ℕ → List ℕ → Option (List ℕ)
after_char ch [] = none
after_char ch (c ∷ s) =
    let rest = after_char ch s in if c == ch then some s else if c == 0 then none else rest

-- `strncmp(text, word, strlen(word)) == 0`.
pub starts_with : List ℕ → List ℕ → Bool
starts_with [] s = true
starts_with (c ∷ word) [] = false
starts_with (c ∷ word) (d ∷ s) = (c == d) && starts_with word s

-- `n` digits, the highest first.
unfoldable pub hex_digits : ℕ → ℕ → List ℕ
hex_digits zero v = []
hex_digits (suc n) v = hex_digit (v / 16 ^ n % 16) ∷ hex_digits n v

-- As few digits as it takes, up to `n + 1`: the conversion `%x`.
unfoldable pub hex_text : ℕ → ℕ → List ℕ
hex_text zero v = hex_digits 1 v
hex_text (suc n) v =
    let shorter = hex_text n v in if ltb v (16 ^ suc n) then shorter else hex_digits (suc (suc n)) v

unfoldable pub print_hex : ℕ → List ℕ
print_hex v = hex_text 7 v
