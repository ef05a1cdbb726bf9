-- ===== src/Packet/Receive/Scan.antt =====
-- The search for the first `$` and `#`, over a stream that arrives in parts.
use nuclei_dlink.Base.{
  ℕ, ◌+◌, ◌≤◌, ◌<◌, ◌≡◌, ◌≢◌, refl, ◌∙◌, none, some, Option, List, [], ◌∷◌, ◌++◌, arith, length,
  All, ==_refl, ==_of_ne,
}
use nuclei_dlink.Packet.{mark, scan}

pub scan_found : (c pos p : ℕ) (xs : List ℕ) → scan c pos xs (some p) ≡ some p
unfolding scan mark
scan_found c pos p [] = refl
scan_found c pos p (x ∷ xs) = scan_found c (pos + 1) p xs

pub scan-append :
    (c pos : ℕ) (xs ys : List ℕ) (found : Option ℕ)
    → scan c pos (xs ++ ys) found ≡ scan c (pos + length xs) ys (scan c pos xs found)
unfolding scan
scan-append c pos [] ys found = let e : pos + 0 ≡ pos = omega arith in rw e refl
scan-append c pos (x ∷ xs) ys found =
    let e : pos + length (x ∷ xs) ≡ pos + 1 + length xs = omega arith in
    rw e (scan-append c (pos + 1) xs ys (mark c x pos found))

pub scan_absent : (c pos : ℕ) (xs : List ℕ) → All (λ x. x ≢ c) xs → scan c pos xs none ≡ none
unfolding scan mark
scan_absent c pos [] h = refl
scan_absent c pos (x ∷ xs) h = rw (==_of_ne x c h.0) (scan_absent c (pos + 1) xs h.1)

-- Where the first `c` stands after a part without any.
pub scan_first :
    (c pos : ℕ) (xs ys : List ℕ)
    → All (λ x. x ≢ c) xs
    → scan c pos (xs ++ (c ∷ ys)) none ≡ some (pos + length xs)
scan_first c pos xs ys h =
    scan-append c pos xs (c ∷ ys) none
    ∙ rw (scan_absent c pos xs h) (
        unfold scan mark in
        rw (==_refl c) (scan_found c (pos + length xs + 1) (pos + length xs) ys))

pub scan_bounds :
    (c pos : ℕ) (xs : List ℕ) {p : ℕ}
    → scan c pos xs none ≡ some p
    → (pos ≤ p) × (p < pos + length xs)
unfolding scan mark
scan_bounds c pos [] h = absurd (cc)
scan_bounds c pos (x ∷ xs) {p} h =
    ground (arith, scan_bounds c (pos + 1) xs {p = p}, scan_found c (pos + 1) pos xs)
