-- ===== src/Tap/Scan.antt =====
-- `rv_tap_shift_scan` of riscv-tap.c against a target as IEEE 1149.1 has it.
use mathlib.Core.List.{append_assoc, append-nil}
use native.Mathlib.Nat.{pow-suc, div-div-eq-div-mul}
use nuclei_dlink.Base.{
  ℕ, zero, suc, ◌+◌, ◌-◌, ◌*◌, ◌/◌, ◌%◌, ◌^◌, ◌≤◌, ◌<◌, ◌≡◌, refl, sym, ap, subst, ◌∙◌, Bool, true,
  false, List, if◌then◌else◌, [], ◌∷◌, ◌++◌, arith, length, All, replicate, ==_of_ne,
}
use nuclei_dlink.Tap.{Port, tick, ticks, shift_bits, shift_word, tap_shift, tap_shift_scan}
use nuclei_dlink.Tap.Controller.{idle}
use nuclei_dlink.Tap.Bench.{Target, Bench, board, IsPort, clock, clocks, tick-port, ticks-port}
use nuclei_dlink.Tap.Shift.{
  shifting, exited, value, bits, clock_exit, clocks_ones, shift_bit-port, shift_bits-port,
}

-- A target at rest in Run-Test/Idle.
abbrev pub resting : List ℕ → List ℕ → List ℕ → ℕ → Target
resting dr ir chain tdo = record { state = idle; chain = chain; dr = dr; ir = ir; tdo = tdo }

-- A list with an element ends with one.
snoc :
    (l : List ℕ)
    → 0 < length l
    → (xs : List ℕ) × (x : ℕ) × (l ≡ xs ++ (x ∷ [])) × (length l ≡ suc (length xs))
snoc [] h = absurd (omega arith)
snoc (x ∷ []) h = ([], x, refl, refl)
snoc (x ∷ y ∷ l) h =
    let (xs, z, e, n) = snoc (y ∷ l) (omega arith) in (x ∷ xs, z, ap (λ r. x ∷ r) e, ap suc n)

value_snoc : (xs : List ℕ) (x : ℕ) → value (xs ++ (x ∷ [])) ≡ value xs + x * 2 ^ length xs
value_snoc [] x = omega arith
value_snoc (y ∷ xs) x =
    omega (arith, value_snoc xs x, ap (λ (t : ℕ). x * t) (pow-suc 2 (length xs)))

bits_snoc : (n w : ℕ) → bits n w ++ (w / 2 ^ n % 2 ∷ []) ≡ bits (suc n) w
bits_snoc zero w = let e : w / 1 ≡ w = omega arith in rw e refl
bits_snoc (suc n) w = ap (λ r. w % 2 ∷ r) (rw halved (bits_snoc n (w / 2)))
  where
    halved : w / 2 ^ suc n ≡ w / 2 / 2 ^ n
    halved =
        ap (λ (t : ℕ). w / t) (omega (arith, pow-suc 2 n)) ∙ sym (div-div-eq-div-mul w 2 (2 ^ n))

replicate_snoc : (n x : ℕ) → replicate n x ++ (x ∷ []) ≡ replicate (suc n) x
replicate_snoc zero x = refl
replicate_snoc (suc n) x = ap (λ r. x ∷ r) (replicate_snoc n x)

All-init : (P : ℕ → Type 0) (xs : List ℕ) (x : ℕ) → All P (xs ++ (x ∷ [])) → All P xs × P x
All-init P [] x h = (tt, h.0)
All-init P (y ∷ xs) x h = let (init, last) = All-init P xs x h.1 in ((h.0, init), last)

IsPort-eq : {p : Port Bench} {t u : Target} → IsPort p t → t ≡ u → IsPort p u
IsPort-eq {p} h e = subst (IsPort p) e h

module _ (ir : Bool) (dr irr ones : List ℕ) (word : ℕ) where
  -- The word is the last in the chain: its last bit goes in with the exit.
  shift_last :
      (m : List ℕ) (p : Port Bench)
      → IsPort p (shifting ir dr irr (m ++ ones))
      → All (λ b. b < 2) m
      → 0 < length m
      → length m ≤ 64
      → (tdo : ℕ) × ((shift_word board word (length m) 0 p).0 ≡ value m)
        × IsPort
            (shift_word board word (length m) 0 p).1
            (exited ir dr irr tdo (ones ++ (bits (length m) word ++ [])))
  unfolding shift_word
  shift_last m p h small pos le =
      let (xs, x, e, n) = snoc m pos in
      let from_zero : 0 + length xs ≡ length xs = omega arith in
      let one_less : length m - 1 ≡ length xs = omega arith in
      let (init, last) = All-init (λ b. b < 2) xs x (rw e at small) in
      let (read, less, after) =
        shift_bits-port ir dr irr xs (x ∷ ones) word 0 0 p (rw (e, append_assoc) at h) init
          (omega arith) (omega arith) in
      let (read', _, after') =
        shift_bit-port 1 word (length xs) (shift_bits board (length xs) word 0 0 p).0
          (shift_bits board (length xs) word 0 0 p).1 after (rw from_zero at less) last
          (omega arith) in
      (
        x,
        rw one_less (omega (arith, read', read, value_snoc xs x, ap value e)),
        rw one_less (
            IsPort-eq after' (
              clock_exit ir dr irr x (ones ++ bits (length xs) (word / 2 ^ 0))
                (word / 2 ^ length xs % 2)
              ∙ ap (exited ir dr irr x) (chain xs n))),
      )
    where
      chain :
          (xs : List ℕ)
          → length m ≡ suc (length xs)
          → (ones ++ bits (length xs) (word / 2 ^ 0)) ++ (word / 2 ^ length xs % 2 ∷ [])
            ≡ ones ++ (bits (length m) word ++ [])
      chain xs n =
          let whole : word / 1 ≡ word = omega arith in
          rw (whole, append-nil, n, append_assoc) (ap (λ l. ones ++ l) (bits_snoc (length xs) word))

  -- The registers of other targets come after it.
  shift_before :
      (m b : List ℕ) (pre : ℕ) (p : Port Bench)
      → IsPort p (shifting ir dr irr (m ++ (b ++ ones)))
      → All (λ b. b < 2) m
      → length b ≡ suc pre
      → length m ≤ 64
      → (tdo : ℕ) × ((shift_word board word (length m) (suc pre) p).0 ≡ value m)
        × IsPort
            (shift_word board word (length m) (suc pre) p).1
            (exited ir dr irr tdo (ones ++ (bits (length m) word ++ replicate (suc pre) 1)))
  unfolding shift_word
  shift_before m b pre p h small e le =
      let (read, less, after) =
        shift_bits-port ir dr irr m (b ++ ones) word 0 0 p h small (omega arith) (omega arith) in
      let (bs, c, split, n) = snoc b (omega arith) in
      let same : pre ≡ length bs = omega arith in
      let p' = (shift_bits board (length m) word 0 0 p).1 in
      let pushed = ticks-port pre 0 1 p' after in
      let rest = (ones ++ bits (length m) word) ++ replicate pre 1 in
      let (_, out) =
        tick-port 1 1 (ticks board pre 0 1 p') (IsPort-eq pushed (chain bs c split same)) in
      (
        c,
        omega (arith, read),
        IsPort-eq out (clock_exit ir dr irr c rest 1 ∙ ap (exited ir dr irr c) (end bs same)),
      )
    where
      chain :
          (bs : List ℕ) (c : ℕ)
          → b ≡ bs ++ (c ∷ [])
          → pre ≡ length bs
          → clocks pre 0 1 (shifting ir dr irr ((b ++ ones) ++ bits (length m) (word / 2 ^ 0)))
            ≡ shifting ir dr irr (c ∷ ((ones ++ bits (length m) word) ++ replicate pre 1))
      chain bs c split same =
          let whole : word / 1 ≡ word = omega arith in
          rw (split, same, whole)
            (ap (λ l. clocks (length bs) 0 1 (shifting ir dr irr l)) (simp append_assoc)
              ∙ clocks_ones ir dr irr bs (c ∷ (ones ++ bits (length m) word)))

      end :
          (bs : List ℕ)
          → pre ≡ length bs
          → ((ones ++ bits (length m) word) ++ replicate pre 1) ++ (1 ∷ [])
            ≡ ones ++ (bits (length m) word ++ replicate (suc pre) 1)
      end bs same = rw (← replicate_snoc pre 1) (simp append_assoc)

abbrev pub register : Bool → List ℕ → List ℕ → List ℕ
register false dr irr = dr
register true dr irr = irr

abbrev pub updated : Bool → List ℕ → List ℕ → List ℕ → ℕ → Target
updated false dr irr chain tdo = resting chain irr chain tdo
updated true dr irr chain tdo = resting dr chain chain tdo

-- From rest to the shift state.
enter :
    (ir : Bool) (dr irr chain : List ℕ) (tdo : ℕ)
    → clock 0 1 (
        clock 0 1 (
          (if ir
            then clock 1 1 (clock 1 1 (resting dr irr chain tdo))
            else clock 1 1 (resting dr irr chain tdo))))
      ≡ shifting ir dr irr (register ir dr irr)
enter false dr irr chain tdo = refl
enter true dr irr chain tdo = refl

-- From the exit back to rest, by way of the update.
leave :
    (ir : Bool) (dr irr chain : List ℕ) (tdo : ℕ)
    → clock 0 1 (clock 1 1 (exited ir dr irr tdo chain)) ≡ updated ir dr irr chain tdo
leave false dr irr chain tdo = refl
leave true dr irr chain tdo = refl

-- The ticks before the shift state, at the port.
enter-port :
    (ir : Bool) (dr irr chain : List ℕ) (tdo : ℕ) (p : Port Bench)
    → IsPort p (resting dr irr chain tdo)
    → let q = (tick board 1 1 p).1 in
      IsPort
        (tick board 0 1 (tick board 0 1 (if ir then (tick board 1 1 q).1 else q)).1).1
        (shifting ir dr irr (register ir dr irr))
enter-port false dr irr chain tdo p h =
    let q = (tick-port 1 1 p h).1 in (tick-port 0 1 _ (tick-port 0 1 _ q).1).1
enter-port true dr irr chain tdo p h =
    let q = (tick-port 1 1 _ (tick-port 1 1 p h).1).1 in (tick-port 0 1 _ (tick-port 0 1 _ q).1).1

shift_word-port :
    (ir : Bool) (dr irr ones m b : List ℕ) (word : ℕ) (p : Port Bench)
    → IsPort p (shifting ir dr irr (m ++ (b ++ ones)))
    → All (λ x. x < 2) m
    → 0 < length m
    → length m ≤ 64
    → (tdo : ℕ) × ((shift_word board word (length m) (length b) p).0 ≡ value m)
      × IsPort
          (shift_word board word (length m) (length b) p).1
          (exited ir dr irr tdo (ones ++ (bits (length m) word ++ replicate (length b) 1)))
shift_word-port ir dr irr ones m [] word p h small pos le =
    shift_last ir dr irr ones word m p h small pos le
shift_word-port ir dr irr ones m (c ∷ b) word p h small pos le =
    shift_before ir dr irr ones word m (c ∷ b) (length b) p h small refl le

-- On four wires, from Run-Test/Idle, a scan of a word of 1 to 64 bits exchanges it with the
-- register of one target among others in the chain: the result is the number that the register
-- held, the register gets the low bits of the word, the registers of the targets before and after
-- it get ones, the other register is not written, and the controller is at rest again.
pub tap_shift_scan-exchange :
    (ir : Bool) (dr irr chain post m pre : List ℕ) (tdo word : ℕ) (p : Port Bench)
    → IsPort p (resting dr irr chain tdo)
    → register ir dr irr ≡ post ++ (m ++ pre)
    → All (λ x. x < 2) m
    → 0 < length m
    → length m ≤ 64
    → let (out, p') = tap_shift_scan board word ir (length m) (length post) (length pre) p in
      (tdo' : ℕ) × (out ≡ value m)
      × IsPort p' (
          updated ir dr irr
            (replicate (length post) 1 ++ (bits (length m) word ++ replicate (length pre) 1))
            tdo')
unfolding tap_shift_scan tap_shift
tap_shift_scan-exchange ir dr irr chain post m pre tdo word p h held small pos le =
    let shift = enter-port ir dr irr chain tdo p h in
    let moved = ticks-port (length post) 0 1 _ (IsPort-eq shift (ap (shifting ir dr irr) held)) in
    let (tdo', read, exit) =
      shift_word-port ir dr irr (replicate (length post) 1) m pre word _
        (IsPort-eq moved (
          clocks_ones ir dr irr post (m ++ pre)
          ∙ ap (shifting ir dr irr) (append_assoc m pre (replicate (length post) 1))))
        small pos le in
    let done = (tick-port 0 1 _ (tick-port 1 1 _ exit).1).1 in
    rw (==_of_ne (length m) 0 (omega arith)) (tdo', read, IsPort-eq done (leave ir dr irr _ tdo'))

-- A scan of no bits, on four wires and from Run-Test/Idle, moves no bit: the scanned register is
-- captured and written back as it was, and the controller is at rest again.
tap_shift_scan_none :
    (ir : Bool) (dr irr chain : List ℕ) (tdo word post pre : ℕ) (p : Port Bench)
    → IsPort p (resting dr irr chain tdo)
    → let (out, p') = tap_shift_scan board word ir 0 post pre p in
      (tdo' : ℕ) × (out ≡ 0) × IsPort p' (resting dr irr (register ir dr irr) tdo')
unfolding tap_shift_scan tap_shift
tap_shift_scan_none false dr irr chain tdo word post pre p h =
    let capture = (tick-port 0 1 _ (tick-port 1 1 p h).1).1 in
    (tdo, refl, (tick-port 0 1 _ (tick-port 1 1 _ (tick-port 1 1 _ capture).1).1).1)
tap_shift_scan_none true dr irr chain tdo word post pre p h =
    let capture = (tick-port 0 1 _ (tick-port 1 1 _ (tick-port 1 1 p h).1).1).1 in
    (tdo, refl, (tick-port 0 1 _ (tick-port 1 1 _ (tick-port 1 1 _ capture).1).1).1)
