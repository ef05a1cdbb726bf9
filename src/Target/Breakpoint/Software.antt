-- ===== src/Target/Breakpoint/Software.antt =====
-- The table of software breakpoints: what an insertion followed by a removal leaves.
use mathlib.Core.Option
use nuclei_dlink.Base.{
  ℕ, ◌≡◌, refl, sym, ap, subst, ◌∙◌, Bool, true, false, Option, none, some, List, [], ◌∷◌, ◌++◌,
  length, take, drop, ==_refl, if◌then◌else◌, Bool-cases, Option-cases, inl, inr, All, take-append,
}
use nuclei_dlink.Target.Breakpoint.{
  Hart, software, unused, type_number, Slot, is_unused, is_at, half_count, ebreak_halves,
  insert_software, remove_software, Tables, software_result, rv_target_insert_breakpoint,
  rv_target_remove_breakpoint,
}

-- The breakpoints in the table, in its order.
unfoldable pub active : List Slot → List Slot
active [] = []
active (b ∷ bs) = if is_unused b then active bs else b ∷ active bs

unfoldable pub has_unused : List Slot → Bool
has_unused [] = false
has_unused (b ∷ bs) = if is_unused b then true else has_unused bs

is_at_self : (b : Slot) → is_at b.type b.addr b.kind b ≡ true
unfolding is_at
is_at_self b = rw (==_refl (type_number b.type), ==_refl b.addr, ==_refl b.kind) refl

unused_first : (b : Slot) (bs : List Slot) → active (record b { type = unused } ∷ bs) ≡ active bs
unfolding active is_unused type_number
unused_first b bs = refl

active_used :
    (b : Slot) (xs ys : List Slot) → active xs ≡ active ys → active (b ∷ xs) ≡ active (b ∷ ys)
unfolding active
active_used b xs ys e = elim (Bool-cases (is_unused b)) [
  | inl h ↦ rw h e
  | inr h ↦ rw h (ap (λ l. b ∷ l) e)
]

-- `memory` is what of the target is looked at.
module _ {W V : Type 0} (memory : W → V) (hart : Hart W) (addr kind : ℕ) (w : W)
    (full : length (hart.read_halves addr (half_count kind) w).0 ≡ half_count kind)
    (restores : let (halves, w') = hart.read_halves addr (half_count kind) w in
      memory (hart.write_halves halves addr (hart.write_halves (ebreak_halves kind) addr w'))
      ≡ memory w) where
  -- The result of an insertion into `bs` is undone by a removal.
  abbrev IsUndone : List Slot → Option (List Slot × W) → Type 0
  IsUndone bs none = has_unused bs ≡ false
  IsUndone bs (some (bs', w')) =
      (has_unused bs ≡ true)
      × (bs'' : List Slot) × (w'' : W) × (remove_software hart addr kind bs' w' ≡ some (bs'', w''))
      × (active bs'' ≡ active bs)
      × (memory w'' ≡ memory w)

  IsUndone-later :
      (b : Slot) (bs : List Slot) (o : Option (List Slot × W))
      → is_unused b ≡ false
      → is_at software addr kind b ≡ false
      → IsUndone bs o
      → IsUndone (b ∷ bs) (Option.map (λ r. (b ∷ r.0, r.1)) o)
  unfolding has_unused remove_software
  IsUndone-later b bs none used other u = rw used u
  IsUndone-later b bs (some (bs', w')) used other (some', bs'', w'', e, same, back) =
      rw (used, other)
        (
          some',
          b ∷ bs'',
          w'',
          ap (Option.map (λ r. (b ∷ r.0, r.1))) e,
          active_used b bs'' bs same,
          back,
        )

  taken_back :
      (rest : List ℕ)
      → let halves = (hart.read_halves addr (half_count kind) w).0 in
        take (half_count kind) (halves ++ rest) ≡ halves
  taken_back rest =
      let halves = (hart.read_halves addr (half_count kind) w).0 in
      ap (λ n. take n (halves ++ rest)) (sym full) ∙ take-append halves rest

  IsUndone-here :
      (b : Slot) (bs : List Slot)
      → is_unused b ≡ true
      → let (halves, w') = hart.read_halves addr (half_count kind) w in
        IsUndone (b ∷ bs) (
          some (
            record b {
              type = software;
              addr = addr;
              kind = kind;
              inst = halves ++ drop (length halves) b.inst;
            }
                ∷ bs,
            hart.write_halves (ebreak_halves kind) addr w',
          ))
  unfolding has_unused remove_software active
  IsUndone-here b bs h =
      let (halves, w1) = hart.read_halves addr (half_count kind) w in
      let w2 = hart.write_halves (ebreak_halves kind) addr w1 in
      let rest = drop (length halves) b.inst in
      let slot : Slot = record {
        type = software;
        addr = addr;
        kind = kind;
        inst = halves ++ rest;
      } in
      rw (h, is_at_self slot)
        (
          refl,
          record slot { type = unused } ∷ bs,
          hart.write_halves halves addr w2,
          ap (λ l. some (record slot { type = unused } ∷ bs, hart.write_halves l addr w2))
              (taken_back rest),
          unused_first slot bs,
          restores,
        )

  insert_software-IsUndone :
      (bs : List Slot)
      → All (λ b. is_at software addr kind b ≡ false) bs
      → IsUndone bs (insert_software hart addr kind bs w)
  unfolding insert_software has_unused
  insert_software-IsUndone [] others = refl
  insert_software-IsUndone (b ∷ bs) (other, others) = elim (Bool-cases (is_unused b)) [
    | inl h ↦ rw h (IsUndone-here b bs h)
    | inr h ↦ rw h (
        IsUndone-later b bs (insert_software hart addr kind bs w) h other
          (insert_software-IsUndone bs others))
  ]

-- An insertion and a removal on a target that reads as many halfwords at the address as it is asked
-- for, and has its memory back when they are written over the ebreak.
pub remove-insert_halves :
    {W V : Type 0} (memory : W → V) (hart : Hart W) (addr kind : ℕ) (t : Tables W)
    → length (hart.read_halves addr (half_count kind) t.target).0 ≡ half_count kind
    → (let (halves, w') = hart.read_halves addr (half_count kind) t.target in
        memory (hart.write_halves halves addr (hart.write_halves (ebreak_halves kind) addr w'))
        ≡ memory t.target)
    → All (λ b. is_at software addr kind b ≡ false) t.software_breakpoints
    → has_unused t.software_breakpoints ≡ true
    → let (err, t') = rv_target_insert_breakpoint hart software addr kind t in
      let (err', t'') = rv_target_remove_breakpoint hart software addr kind t' in
      (err ≡ 0)
      × (err' ≡ 0)
      × (memory t''.target ≡ memory t.target)
      × (active t''.software_breakpoints ≡ active t.software_breakpoints)
      × (t''.hardware_breakpoints ≡ t.hardware_breakpoints)
unfolding rv_target_insert_breakpoint rv_target_remove_breakpoint software_result type_number
remove-insert_halves {W} memory hart addr kind t full restores others room =
    elim (Option-cases (insert_software hart addr kind t.software_breakpoints t.target)) [
      | inl e ↦ absurd (let u = undone none e in cc)
      | inr (r, e) ↦
          let (room', bs, w, e', same, back) = undone (some r) e in
          rw (e, e') (refl, refl, back, same, refl)
    ]
  where
    undone :
        (o : Option (List Slot × W))
        → insert_software hart addr kind t.software_breakpoints t.target ≡ o
        → IsUndone memory hart addr kind t.target full restores t.software_breakpoints o
    undone o e =
        subst (IsUndone memory hart addr kind t.target full restores t.software_breakpoints) e (
          insert_software-IsUndone memory hart addr kind t.target full restores
            t.software_breakpoints others)
