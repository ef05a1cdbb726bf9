-- ===== src/Server/Scan/Bounds.antt =====
-- The values that gdb-server.c scans fit in 32 bits.
use mathlib.Core.Option
use nuclei_dlink.Base.{
  ℕ, zero, suc, ◌-◌, ◌%◌, ◌^◌, ◌<◌, min, Bool, true, false, Option, none, some, List, [], ◌∷◌,
  arith, get_or, All, All-get_or, ◌==◌, if◌then◌else◌,
}
use nuclei_dlink.Server.{set_low}
use nuclei_dlink.Server.Scan.{
  hex_value, skip_spaces, scan_digits, scan_number, scan_unsigned, scan_signed, scan_hex,
  scan_fields,
}
use nuclei_dlink.Server.Memory.{scan_one}

-- What has been scanned, if anything, is a number of 32 bits.
abbrev Fits : Option (ℕ × List ℕ) → Type 0
Fits none = Unit
Fits (some r) = r.0 < 2 ^ 32

Fits-if : (b : Bool) (x y : Option (ℕ × List ℕ)) → Fits x → Fits y → Fits (if b then x else y)
Fits-if true x y h k = h
Fits-if false x y h k = k

Fits-else :
    (o : Option (ℕ × List ℕ)) (s : List ℕ)
    → Fits o
    → Fits (elim o [ none ↦ some (0, s) | some r ↦ some r ])
Fits-else none s h = omega arith
Fits-else (some r) s h = h

Fits-negated : (o : Option (ℕ × List ℕ)) → Fits (Option.map (λ r. ((2 ^ 32 - r.0) % 2 ^ 32, r.1)) o)
Fits-negated none = tt
Fits-negated (some r) = omega arith

Fits-scan_number : (s : List ℕ) → Fits (scan_number s)
unfolding scan_number
Fits-scan_number [] = tt
Fits-scan_number (c ∷ s) = at (hex_value c)
  where
    at :
        (o : Option ℕ)
        → Fits (elim o [
          | none ↦ none
          | some d ↦ let r = scan_digits d s in some (min r.0 (2 ^ 32 - 1), r.1)
        ])
    at none = tt
    at (some d) = omega arith

Fits-scan_unsigned : (s : List ℕ) → Fits (scan_unsigned s)
unfolding scan_unsigned
Fits-scan_unsigned [] = Fits-scan_number []
Fits-scan_unsigned (c ∷ []) = Fits-scan_number (c ∷ [])
Fits-scan_unsigned (c ∷ x ∷ s) =
    Fits-if _ _ _ (Fits-else (scan_number s) (x ∷ s) (Fits-scan_number s))
      (Fits-scan_number (c ∷ x ∷ s))

Fits-scan_signed : (s : List ℕ) → Fits (scan_signed s)
unfolding scan_signed
Fits-scan_signed [] = tt
Fits-scan_signed (c ∷ s) = search (Fits-if, Fits-negated, Fits-scan_unsigned)

Fits-scan_hex : (s : List ℕ) → Fits (scan_hex s)
unfolding scan_hex
Fits-scan_hex s = Fits-scan_signed (skip_spaces s)

-- A value that is not scanned leaves the old one.
pub scan_one-lt : (s : List ℕ) (old : ℕ) → old < 2 ^ 32 → scan_one s old < 2 ^ 32
unfolding scan_one
scan_one-lt s old h = at (scan_hex s) (Fits-scan_hex s)
  where
    at : (o : Option (ℕ × List ℕ)) → Fits o → elim o [ none ↦ old | some r ↦ r.0 ] < 2 ^ 32
    at none f = h
    at (some r) f = f

abbrev AllFit : List ℕ → Type 0
AllFit vs = All (λ v. v < 2 ^ 32) vs

AllFit-if : (b : Bool) (vs : List ℕ) → AllFit vs → AllFit (if b then vs else [])
AllFit-if true vs h = h
AllFit-if false vs h = tt

scan_fields-AllFit : (n : ℕ) (s : List ℕ) → AllFit (scan_fields n s)
unfolding scan_fields
scan_fields-AllFit zero s = tt
scan_fields-AllFit (suc n) s = at (λ t. scan_fields-AllFit n t) (scan_hex s) (Fits-scan_hex s)
  where
    at :
        ((t : List ℕ) → AllFit (scan_fields n t))
        → (o : Option (ℕ × List ℕ)) → Fits o
        → AllFit (elim o [
          | none ↦ []
          | some (v, []) ↦ v ∷ []
          | some (v, c ∷ rest) ↦ let vs = scan_fields n rest in v ∷ (if c == b',' then vs else [])
        ])
    at ih none f = tt
    at ih (some (v, [])) f = (f, tt)
    at ih (some (v, c ∷ rest)) f = (f, AllFit-if (c == b',') (scan_fields n rest) (ih rest))

pub scan_field-lt :
    (n : ℕ) (s : List ℕ) (i old : ℕ) → old < 2 ^ 32 → get_or (scan_fields n s) i old < 2 ^ 32
scan_field-lt n s i old h =
    All-get_or (λ v. v < 2 ^ 32) (scan_fields n s) i old h (scan_fields-AllFit n s)

-- A store in the low word of a variable whose high word is zero.
pub set_low-lt : (v old : ℕ) → v < 2 ^ 32 → old < 2 ^ 32 → set_low v old < 2 ^ 32
set_low-lt v old h k = omega arith
