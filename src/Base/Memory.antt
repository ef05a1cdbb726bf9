-- ===== src/Base/Memory.antt =====
-- A block written into a buffer (memcpy, snprintf), and parts of a buffer read out of it.
use Prim.Native.Nat.{ℕ, zero, suc, ◌+◌, ◌-◌, ◌≤◌, ◌<◌}
use mathlib.Core.Path.{◌≡◌, refl, ap}
use mathlib.Core.List.{List, [], ◌∷◌, ◌++◌}
use mathlib.Core.Option
use mathlib.Core.Option.{Option, none, some}
use native.Mathlib.Omega.{arith}
use nuclei_dlink.Base.Tests.{ltb, if◌then◌else◌}
use nuclei_dlink.Base.Lists.{length, get_or, take, drop}

module _ {ℓ} {A : Type ℓ} where
  -- `none` is a write past the end of the buffer.
  unfoldable pub write_at : ℕ → List A → List A → Option (List A)
  write_at zero [] buf = some buf
  write_at zero (x ∷ xs) [] = none
  write_at zero (x ∷ xs) (b ∷ buf) = Option.map (λ r. x ∷ r) (write_at zero xs buf)
  write_at (suc i) [] [] = some []
  write_at (suc i) (x ∷ xs) [] = none
  write_at (suc i) xs (b ∷ buf) = Option.map (λ r. b ∷ r) (write_at i xs buf)

  -- `n` elements from index `i` on.
  abbrev pub slice : ℕ → ℕ → List A → List A
  slice i n buf = take n (drop i buf)

pub map-eq-some {ℓ κ} :
    {A : Type ℓ} {B : Type κ} (f : A → B) (o : Option A) {b : B}
    → Option.map f o ≡ some b
    → (a : A) × (o ≡ some a) × (b ≡ f a)
map-eq-some f none h = cc
map-eq-some f (some a) h = (a, refl, ground arith)

module _ {ℓ} {A : Type ℓ} where
  pub write_at_fits :
      (i : ℕ) (xs buf : List A)
      → i + length xs ≤ length buf
      → (buf' : List A) × (write_at i xs buf ≡ some buf') × (length buf' ≡ length buf)
  unfolding write_at
  write_at_fits zero [] buf h = (buf, refl, refl)
  write_at_fits zero (x ∷ xs) [] h = absurd (omega arith)
  write_at_fits zero (x ∷ xs) (b ∷ buf) h =
      let (r, e, n) = write_at_fits zero xs buf (omega arith) in
      (x ∷ r, ap (Option.map (λ r. x ∷ r)) e, ap suc n)
  write_at_fits (suc i) [] [] h = ([], refl, refl)
  write_at_fits (suc i) (x ∷ xs) [] h = absurd (omega arith)
  write_at_fits (suc i) xs (b ∷ buf) h =
      let (r, e, n) = write_at_fits i xs buf (omega arith) in
      (b ∷ r, ap (Option.map (λ r. b ∷ r)) e, ap suc n)

  -- Where a block lies over a part of its own length, it replaces that part.
  pub write_at-append :
      (pre mid xs post : List A)
      → length mid ≡ length xs
      → write_at (length pre) xs (pre ++ (mid ++ post)) ≡ some (pre ++ (xs ++ post))
  unfolding write_at
  write_at-append [] [] [] post h = refl
  write_at-append [] [] (x ∷ xs) post h = absurd (omega arith)
  write_at-append [] (m ∷ mid) [] post h = absurd (omega arith)
  write_at-append [] (m ∷ mid) (x ∷ xs) post h =
      ap (Option.map (λ r. x ∷ r)) (write_at-append [] mid xs post (omega arith))
  write_at-append (p ∷ pre) mid xs post h =
      ap (Option.map (λ r. p ∷ r)) (write_at-append pre mid xs post h)

  pub get_or-append :
      (xs ys : List A) (i : ℕ) (d : A)
      → get_or (xs ++ ys) i d
        ≡ (if ltb i (length xs) then get_or xs i d else get_or ys (i - length xs) d)
  get_or-append [] ys zero d = ground arith
  get_or-append [] ys (suc i) d = ground arith
  get_or-append (x ∷ xs) ys zero d = ground arith
  get_or-append (x ∷ xs) ys (suc i) d = ground (arith, get_or-append xs ys i d)

  pub get_or-write_at :
      (i : ℕ) (xs buf : List A) (buf' : List A) (j : ℕ) (d : A)
      → write_at i xs buf ≡ some buf'
      → get_or buf' j d ≡ (
          if ltb j i
          then get_or buf j d
          else if ltb j (i + length xs)
          then get_or xs (j - i) d
          else get_or buf j d)
  unfolding write_at
  get_or-write_at zero [] buf buf' zero d h = ground arith
  get_or-write_at zero [] buf buf' (suc j) d h = ground arith
  get_or-write_at zero (x ∷ xs) [] buf' j d h = cc
  get_or-write_at zero (x ∷ xs) (b ∷ buf) buf' j d h =
      let (r, e, eq) = map-eq-some (λ r. x ∷ r) (write_at zero xs buf) h in
      rw eq (head j r (λ k. get_or-write_at zero xs buf r k d e))
    where
      head :
          (j : ℕ) (r : List A)
          → ((k : ℕ)
              → get_or r k d ≡ (
                  if ltb k 0
                  then get_or buf k d
                  else if ltb k (0 + length xs)
                  then get_or xs (k - 0) d
                  else get_or buf k d))
          → get_or (x ∷ r) j d ≡ (
              if ltb j 0
              then get_or (b ∷ buf) j d
              else if ltb j (0 + length (x ∷ xs))
              then get_or (x ∷ xs) (j - 0) d
              else get_or (b ∷ buf) j d)
      head zero r ih = ground arith
      head (suc k) r ih = ground (arith, ih k)
  get_or-write_at (suc i) [] [] buf' j d h = ground arith
  get_or-write_at (suc i) (x ∷ xs) [] buf' j d h = cc
  get_or-write_at (suc i) xs (b ∷ buf) buf' j d h =
      let (r, e, eq) = map-eq-some (λ r. b ∷ r) (write_at i xs buf) h in
      rw eq (head j r (λ k. get_or-write_at i xs buf r k d e))
    where
      head :
          (j : ℕ) (r : List A)
          → ((k : ℕ)
              → get_or r k d ≡ (
                  if ltb k i
                  then get_or buf k d
                  else if ltb k (i + length xs)
                  then get_or xs (k - i) d
                  else get_or buf k d))
          → get_or (b ∷ r) j d ≡ (
              if ltb j (suc i)
              then get_or (b ∷ buf) j d
              else if ltb j (suc i + length xs)
              then get_or xs (j - suc i) d
              else get_or (b ∷ buf) j d)
      head zero r ih = ground arith
      head (suc k) r ih = ground (arith, ih k)

  -- A part of a buffer is known from its elements.
  pub slice_ext :
      (d : A) (i : ℕ) (xs buf : List A)
      → i + length xs ≤ length buf
      → ((j : ℕ) → j < length xs → get_or buf (i + j) d ≡ get_or xs j d)
      → slice i (length xs) buf ≡ xs
  slice_ext d zero [] buf h e = refl
  slice_ext d zero (x ∷ xs) [] h e = absurd (omega arith)
  slice_ext d zero (x ∷ xs) (b ∷ buf) h e = ground (
    arith,
    e 0 (omega arith),
    slice_ext d zero xs buf (omega arith) (λ j lt. ground (arith, e (suc j))),
  )
  slice_ext d (suc i) [] [] h e = refl
  slice_ext d (suc i) (x ∷ xs) [] h e = absurd (omega arith)
  slice_ext d (suc i) xs (b ∷ buf) h e =
      slice_ext d i xs buf (omega arith) (λ j lt. ground (arith, e j))

  pub write_at_front :
      (xs buf : List A)
      → length xs ≤ length buf
      → write_at 0 xs buf ≡ some (xs ++ drop (length xs) buf)
  unfolding write_at
  write_at_front [] buf h = refl
  write_at_front (x ∷ xs) [] h = absurd (omega arith)
  write_at_front (x ∷ xs) (b ∷ buf) h =
      ap (Option.map (λ r. x ∷ r)) (write_at_front xs buf (omega arith))
