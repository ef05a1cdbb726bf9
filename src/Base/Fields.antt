-- ===== src/Base/Fields.antt =====
-- `|` and the fields of a word: a field of an `|` is the `|` of the fields.
use Prim.Native.Nat.{ℕ, zero, suc, ◌+◌, ◌*◌, ◌/◌, ◌%◌, ◌^◌, ◌<◌}
use Prim.Native.Nat.{bit_or}
use mathlib.Core.Path.{◌≡◌, refl, sym, ap, ◌∙◌}
use native.Mathlib.Nat.{pow-suc, div-div-eq-div-mul, div-add-mod}
use native.Mathlib.Omega.{arith}
use nuclei_dlink.Base.Bits.{bit_or_low, bit_or_zero_left}

bit_or_half : (a b : ℕ) → bit_or a b / 2 ≡ bit_or (a / 2) (b / 2)
bit_or_half a b = omega (arith, bit_or_low a b)

div_suc : (k x : ℕ) → x / 2 ^ suc k ≡ x / 2 / 2 ^ k
div_suc k x =
    let e : 2 ^ suc k ≡ 2 * 2 ^ k = omega (arith, pow-suc 2 k) in
    ap (λ (t : ℕ). x / t) e ∙ sym (div-div-eq-div-mul x 2 (2 ^ k))

pub bit_or-div : (k a b : ℕ) → bit_or a b / 2 ^ k ≡ bit_or (a / 2 ^ k) (b / 2 ^ k)
bit_or-div zero a b =
    let f : (x : ℕ) → x / 2 ^ zero ≡ x = λ x. omega arith in rw (f (bit_or a b), f a, f b) refl
bit_or-div (suc k) a b =
    rw (div_suc k (bit_or a b), div_suc k a, div_suc k b, bit_or_half a b)
      (bit_or-div k (a / 2) (b / 2))

mod_suc : (k x : ℕ) → x % 2 ^ suc k ≡ x / 2 % 2 ^ k * 2 + x % 2
mod_suc k x = omega (
  arith,
  div-add-mod x (2 ^ suc k),
  div-add-mod (x / 2) (2 ^ k),
  ap (λ (q : ℕ). 2 ^ suc k * q) (div_suc k x),
  ap (λ (t : ℕ). t * (x / 2 / 2 ^ k)) (pow-suc 2 k),
)

pub bit_or-mod : (k a b : ℕ) → bit_or a b % 2 ^ k ≡ bit_or (a % 2 ^ k) (b % 2 ^ k)
bit_or-mod zero a b =
    let f : (x : ℕ) → x % 2 ^ zero ≡ 0 = λ x. omega arith in rw (f (bit_or a b), f a, f b) refl
bit_or-mod (suc k) a b = omega (
  arith,
  mod_suc k (bit_or a b),
  bit_or_half a b,
  ap (λ (t : ℕ). t % 2 ^ k) (bit_or_half a b),
  bit_or-mod k (a / 2) (b / 2),
  bit_or_low a b,
  bit_or_low (a % 2 ^ suc k) (b % 2 ^ suc k),
  ap (λ (t : ℕ). bit_or t (b % 2 ^ suc k / 2)) (half a),
  ap (λ (t : ℕ). bit_or (a / 2 % 2 ^ k) t) (half b),
  mod_suc k a,
  mod_suc k b,
)
  where
    half : (x : ℕ) → x % 2 ^ suc k / 2 ≡ x / 2 % 2 ^ k
    half x = omega (arith, mod_suc k x)

-- The field of `w` bits from bit `k` on.
pub bit_or-field :
    (k w a b : ℕ) → bit_or a b / 2 ^ k % 2 ^ w ≡ bit_or (a / 2 ^ k % 2 ^ w) (b / 2 ^ k % 2 ^ w)
bit_or-field k w a b =
    ap (λ (t : ℕ). t % 2 ^ w) (bit_or-div k a b) ∙ bit_or-mod w (a / 2 ^ k) (b / 2 ^ k)

pub bit_or_zero_right : (a : ℕ) → bit_or a 0 ≡ a
bit_or_zero_right a = go a a (omega arith)
  where
    go : (n x : ℕ) → x < suc n → bit_or x 0 ≡ x
    go n zero h = bit_or_zero_left 0
    go zero (suc x) h = absurd (omega arith)
    go (suc n) (suc x) h = omega (arith, bit_or_low (suc x) 0, go n (suc x / 2) (omega arith))

pub bit_or_comm : (a b : ℕ) → bit_or a b ≡ bit_or b a
bit_or_comm a b = go a a b (omega arith)
  where
    go : (n x y : ℕ) → x < suc n → bit_or x y ≡ bit_or y x
    go n zero y h = omega (arith, bit_or_zero_left y, bit_or_zero_right y)
    go zero (suc x) y h = absurd (omega arith)
    go (suc n) (suc x) y h =
        omega (
          arith,
          bit_or_low (suc x) y,
          bit_or_low y (suc x),
          go n (suc x / 2) (y / 2) (omega arith),
        )

-- A field of an `|` of which one side is 0 there.
pub bit_or-field_left :
    (k w a b : ℕ) {v : ℕ}
    → a / 2 ^ k % 2 ^ w ≡ v
    → b / 2 ^ k % 2 ^ w ≡ 0
    → bit_or a b / 2 ^ k % 2 ^ w ≡ v
bit_or-field_left k w a b {v} e f = rw (bit_or-field k w a b, e, f) (bit_or_zero_right v)

pub bit_or-field_right :
    (k w a b : ℕ) {v : ℕ}
    → a / 2 ^ k % 2 ^ w ≡ 0
    → b / 2 ^ k % 2 ^ w ≡ v
    → bit_or a b / 2 ^ k % 2 ^ w ≡ v
bit_or-field_right k w a b {v} e f = rw (bit_or-field k w a b, e, f) (bit_or_zero_left v)
