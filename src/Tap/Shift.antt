-- ===== src/Tap/Shift.antt =====
-- The shift state: what goes into the chain of the target, and what comes out of it.
use mathlib.Core.List.{append_assoc, append-nil}
use native.Mathlib.Nat.{pow-suc, pow-le-pow_right, div-div-eq-div-mul}
use nuclei_dlink.Base.{
  ℕ, zero, suc, ◌+◌, ◌*◌, ◌/◌, ◌%◌, ◌^◌, ◌≤◌, ◌<◌, bit_or, bit_or_above, ◌≡◌, refl, sym, ap, ◌∙◌,
  Bool, true, false, List, [], ◌∷◌, ◌++◌, arith, length, All, get_or, replicate,
}
use nuclei_dlink.Tap.{Port, shift_bit, shift_bits}
use nuclei_dlink.Tap.Controller.{scan, shift, exit1}
use nuclei_dlink.Tap.Bench.{Target, Bench, board, IsPort, clock, clocks, tick-port}

-- A target in the shift state, its TDO at the first bit of the chain.
abbrev pub shifting : Bool → List ℕ → List ℕ → List ℕ → Target
shifting ir dr irr chain = record {
  state = scan ir shift;
  chain = chain;
  dr = dr;
  ir = irr;
  tdo = get_or chain 0 0;
}

-- A target that has left it.
abbrev pub exited : Bool → List ℕ → List ℕ → ℕ → List ℕ → Target
exited ir dr irr tdo chain = record {
  state = scan ir exit1;
  chain = chain;
  dr = dr;
  ir = irr;
  tdo = tdo;
}

-- The number that bits stand for, the lowest first, and the lowest bits of a number.
abbrev pub value : List ℕ → ℕ
value [] = 0
value (b ∷ bs) = b + 2 * value bs

abbrev pub bits : ℕ → ℕ → List ℕ
bits zero w = []
bits (suc n) w = w % 2 ∷ bits n (w / 2)

pub clock-shifting :
    (ir : Bool) (dr irr : List ℕ) (x : ℕ) (chain : List ℕ) (tdi : ℕ)
    → clock 0 tdi (shifting ir dr irr (x ∷ chain)) ≡ shifting ir dr irr (chain ++ (tdi ∷ []))
clock-shifting false dr irr x chain tdi = refl
clock-shifting true dr irr x chain tdi = refl

pub clock_exit :
    (ir : Bool) (dr irr : List ℕ) (x : ℕ) (chain : List ℕ) (tdi : ℕ)
    → clock 1 tdi (shifting ir dr irr (x ∷ chain)) ≡ exited ir dr irr x (chain ++ (tdi ∷ []))
clock_exit false dr irr x chain tdi = refl
clock_exit true dr irr x chain tdi = refl

-- Ones pushed in move the chain on.
pub clocks_ones :
    (ir : Bool) (dr irr xs ys : List ℕ)
    → clocks (length xs) 0 1 (shifting ir dr irr (xs ++ ys))
      ≡ shifting ir dr irr (ys ++ replicate (length xs) 1)
clocks_ones ir dr irr [] ys = ap (shifting ir dr irr) (sym (append-nil ys))
clocks_ones ir dr irr (x ∷ xs) ys =
    ap (clocks (length xs) 0 1) (
      clock-shifting ir dr irr x (xs ++ ys) 1
      ∙ ap (shifting ir dr irr) (append_assoc xs ys (1 ∷ [])))
    ∙ clocks_ones ir dr irr xs (ys ++ (1 ∷ []))
    ∙ ap (shifting ir dr irr) (append_assoc ys (1 ∷ []) (replicate (length xs) 1))

next_pow : (i : ℕ) → 2 ^ (i + 1) ≡ 2 * 2 ^ i
next_pow i = let e : i + 1 ≡ suc i = omega arith in rw e (omega (arith, pow-suc 2 i))

div_next : (w i : ℕ) → w / 2 ^ i / 2 ≡ w / 2 ^ (i + 1)
div_next w i = div-div-eq-div-mul w (2 ^ i) 2 ∙ ap (λ (t : ℕ). w / t) (omega (arith, next_pow i))

-- One bit read at index `i` is added above those read before.
out-step :
    (out x i : ℕ)
    → out < 2 ^ i
    → x < 2
    → i < 64
    → (bit_or out (x * 2 ^ i % 2 ^ 64) ≡ out + x * 2 ^ i) × (out + x * 2 ^ i < 2 ^ (i + 1))
out-step out x i h hx hi = (
  ap (λ (t : ℕ). bit_or out t) small ∙ bit_or_above i out x h,
  omega (arith, next_pow i, at_most),
)
  where
    at_most : x * 2 ^ i ≤ 2 ^ i
    at_most = grind arith

    small : x * 2 ^ i % 2 ^ 64 ≡ x * 2 ^ i
    small =
        omega
          (arith, at_most, pow-le-pow_right {n = 2} (omega arith) {i = i} {j = 63} (omega arith))

pub shift_bit-port :
    (tms word i out : ℕ) (p : Port Bench) {t : Target}
    → IsPort p t
    → out < 2 ^ i
    → t.tdo < 2
    → i < 64
    → ((shift_bit board tms word i out p).0 ≡ out + t.tdo * 2 ^ i)
      × (out + t.tdo * 2 ^ i < 2 ^ (i + 1))
      × IsPort (shift_bit board tms word i out p).1 (clock tms (word / 2 ^ i % 2) t)
unfolding shift_bit
shift_bit-port tms word i out p {t} h small bit hi =
    let (read, after) = tick-port tms (word / 2 ^ i % 2) p h in
    let (sum, less) = out-step out t.tdo i small bit hi in (rw read sum, less, after)

-- The loop reads the first bits of the chain, the lowest first, and shifts the word in after the rest.
pub shift_bits-port :
    (ir : Bool) (dr irr xs ys : List ℕ) (word i out : ℕ) (p : Port Bench)
    → IsPort p (shifting ir dr irr (xs ++ ys))
    → All (λ b. b < 2) xs
    → out < 2 ^ i
    → i + length xs ≤ 64
    → ((shift_bits board (length xs) word i out p).0 ≡ out + value xs * 2 ^ i)
      × ((shift_bits board (length xs) word i out p).0 < 2 ^ (i + length xs))
      × IsPort
          (shift_bits board (length xs) word i out p).1
          (shifting ir dr irr (ys ++ bits (length xs) (word / 2 ^ i)))
unfolding shift_bits
shift_bits-port ir dr irr [] ys word i out p h all small hi =
    let e : i + 0 ≡ i = omega arith in (omega arith, rw e small, rw append-nil h)
shift_bits-port ir dr irr (x ∷ xs) ys word i out p h all small hi =
    let (read, less, after) = shift_bit-port 0 word i out p h small all.0 (omega arith) in
    let moved =
      rw (clock-shifting ir dr irr x (xs ++ ys) (word / 2 ^ i % 2), append_assoc) at after in
    let rest =
      shift_bits-port ir dr irr xs (ys ++ (word / 2 ^ i % 2 ∷ [])) word (i + 1)
        (shift_bit board 0 word i out p).0 (shift_bit board 0 word i out p).1 moved all.1
        (rw read less) (omega arith) in
    let longer : i + suc (length xs) ≡ i + 1 + length xs = omega arith in
    (
      omega (arith, rest.0, read, ap (λ (t : ℕ). value xs * t) (next_pow i)),
      rw longer rest.1,
      rw (div_next word i) (rw append_assoc at rest.2),
    )
