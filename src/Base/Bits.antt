-- ===== src/Base/Bits.antt =====
-- `|` of fields that do not overlap is their sum, at every width; checks over small ranges.
use Prim.Native.Nat.{ℕ, zero, suc, ◌+◌, ◌*◌, ◌/◌, ◌%◌, ◌^◌, ◌≤◌, ◌<◌, max, digits}
use Prim.Native.Nat.{bit_or, bit_or-bitwise}
use mathlib.Core.Path.{◌≡◌, refl, ap}
use mathlib.Core.Bool.{Bool, true, false}
use native.Mathlib.Nat.{pow-suc}
use native.Mathlib.Omega.{arith}
use nuclei_dlink.Base.Tests.{if◌then◌else◌}

abbrev or_digits : ℕ → ℕ → ℕ → ℕ
or_digits n a b = digits (λ y. y) max n a b

-- The fuel of the library's recursion on digits does not matter.
or_digits_fuel : (n m a b : ℕ) → a ≤ n → a ≤ m → or_digits n a b ≡ or_digits m a b
or_digits_fuel zero zero a b p q = refl
or_digits_fuel zero (suc m) zero b p q = refl
or_digits_fuel zero (suc m) (suc a) b p q = absurd (omega arith)
or_digits_fuel (suc n) zero zero b p q = refl
or_digits_fuel (suc n) zero (suc a) b p q = absurd (omega arith)
or_digits_fuel (suc n) (suc m) zero b p q = refl
or_digits_fuel (suc n) (suc m) (suc a) b p q =
    omega (arith, or_digits_fuel n m (suc a / 2) (b / 2) (omega arith) (omega arith))

pub bit_or_zero_left : (b : ℕ) → bit_or 0 b ≡ b
bit_or_zero_left b = bit_or-bitwise 0 b

pub bit_or_low : (a b : ℕ) → bit_or a b ≡ bit_or (a / 2) (b / 2) * 2 + max (a % 2) (b % 2)
bit_or_low zero b = omega (arith, bit_or_zero_left b, bit_or_zero_left (b / 2))
bit_or_low (suc a) b = omega (
  arith,
  bit_or-bitwise (suc a) b,
  bit_or-bitwise (suc a / 2) (b / 2),
  or_digits_fuel a (suc a / 2) (suc a / 2) (b / 2) (omega arith) (omega arith),
)

-- A low field of `k` bits and a field above it.
pub bit_or_above : (k lo hi : ℕ) → lo < 2 ^ k → bit_or lo (hi * 2 ^ k) ≡ lo + hi * 2 ^ k
bit_or_above zero zero hi h = omega (arith, bit_or_zero_left (hi * 2 ^ 0))
bit_or_above zero (suc lo) hi h = absurd (omega arith)
bit_or_above (suc k) lo hi h = omega (
  arith,
  pow-suc 2 k,
  ap (λ (t : ℕ). hi * t) (pow-suc 2 k),
  bit_or_low lo (hi * 2 ^ suc k),
  ap (λ (t : ℕ). bit_or (lo / 2) t) halved,
  bit_or_above k (lo / 2) hi (omega (arith, pow-suc 2 k)),
)
  where
    halved : hi * 2 ^ suc k / 2 ≡ hi * 2 ^ k
    halved = omega (arith, ap (λ (t : ℕ). hi * t) (pow-suc 2 k))

-- Over a small range, a property is checked at every value.
unfoldable pub every_below : (ℕ → Bool) → ℕ → Bool
every_below test zero = true
every_below test (suc n) = if test n then every_below test n else false

pub every_below_sound :
    (test : ℕ → Bool) (bound value : ℕ)
    → value < bound
    → every_below test bound ≡ true
    → test value ≡ true
unfolding every_below
every_below_sound test zero value less passed = absurd (omega arith)
every_below_sound test (suc bound) value less passed =
    ground (arith, λ (below : value < bound). every_below_sound test bound value below)

-- A field of `w` bits from bit `k` on, replaced.
abbrev pub set_field : ℕ → ℕ → ℕ → ℕ → ℕ
set_field k w v x = x / 2 ^ (k + w) * 2 ^ (k + w) + v * 2 ^ k + x % 2 ^ k

-- The `w` bits of a word from bit `k` on.
abbrev pub field : ℕ → ℕ → ℕ → ℕ
field k w x = x / 2 ^ k % 2 ^ w
