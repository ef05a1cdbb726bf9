-- ===== src/Target/Breakpoint/Hardware.antt =====
-- The table of hardware breakpoints: which slot an insertion takes, whatever the trigger does.
use mathlib.Core.Option
use nuclei_dlink.Base.{
  ℕ, suc, ◌≤◌, ◌≡◌, refl, ap, Bool, true, false, Option, none, some, List, [], ◌∷◌, length, arith,
  ◌==◌, ==_of_ne, Bool-cases, inl, inr,
}
use nuclei_dlink.Target.Breakpoint.{
  Hart, BreakpointType, type_number, Slot, is_unused, set_trigger, reg_tselect, insert_hardware,
  Tables, hardware_result, rv_target_insert_breakpoint, table_error,
}
use nuclei_dlink.Target.Breakpoint.Software.{active, has_unused}

-- An insertion into `bs` takes a slot, or there is none to take.
abbrev IsTaken : {W : Type 0} → List Slot → Option (Bool × List Slot × W) → Type 0
IsTaken bs none = has_unused bs ≡ false
IsTaken bs (some (ok, bs', w)) =
    (has_unused bs ≡ true) × (length (active bs') ≡ suc (length (active bs)))

IsTaken-later :
    {W : Type 0} (b : Slot) (bs : List Slot) (o : Option (Bool × List Slot × W))
    → is_unused b ≡ false
    → IsTaken bs o
    → IsTaken (b ∷ bs) (Option.map (λ r. (r.0, b ∷ r.1, r.2)) o)
unfolding has_unused active
IsTaken-later b bs none used h = rw used h
IsTaken-later b bs (some (ok, bs', w)) used (room, more) = rw used (room, ap suc more)

module _ {W : Type 0} (hart : Hart W) (type : BreakpointType) (addr kind : ℕ) where
  IsTaken-here :
      (b : Slot) (bs : List Slot) (r : Bool × W)
      → (type_number type == 5) ≡ false
      → is_unused b ≡ true
      → IsTaken (b ∷ bs) (some (r.0, record b { type = type; addr = addr; kind = kind } ∷ bs, r.1))
  unfolding has_unused active is_unused
  IsTaken-here b bs r valid free = rw (free, valid) (refl, refl)

  insert_hardware-IsTaken :
      (i : ℕ) (bs : List Slot) (w : W)
      → (type_number type == 5) ≡ false
      → IsTaken bs (insert_hardware hart type addr kind i bs w)
  unfolding insert_hardware has_unused
  insert_hardware-IsTaken i [] w valid = refl
  insert_hardware-IsTaken i (b ∷ bs) w valid = elim (Bool-cases (is_unused b)) [
    | inl h ↦ rw h (IsTaken-here b bs (set_trigger hart i type addr w) valid h)
    | inr h ↦ rw h (
        IsTaken-later b bs (insert_hardware hart type addr kind (suc i) bs w) h
          (insert_hardware-IsTaken (suc i) bs w valid))
  ]

-- The insertion of a hardware breakpoint or a watchpoint takes a slot of the table whenever one is
-- unused, also when it reports an error because a trigger's register did not take its value;
-- without an unused slot it reports the error and leaves the table as it was. The table of software
-- breakpoints is untouched.
pub rv_target_insert_breakpoint-taken :
    {W : Type 0} (hart : Hart W) (type : BreakpointType) (addr kind : ℕ) (t : Tables W)
    → 1 ≤ type_number type
    → type_number type ≤ 4
    → let (err, t') = rv_target_insert_breakpoint hart type addr kind t in
      (has_unused t.hardware_breakpoints ≡ true
        → length (active t'.hardware_breakpoints) ≡ suc (length (active t.hardware_breakpoints)))
      × (has_unused t.hardware_breakpoints ≡ false
          → (err ≡ table_error) × (t'.hardware_breakpoints ≡ t.hardware_breakpoints))
      × (t'.software_breakpoints ≡ t.software_breakpoints)
unfolding rv_target_insert_breakpoint hardware_result
rv_target_insert_breakpoint-taken {W} hart type addr kind t low high = rw not_software (
    result (insert_hardware hart type addr kind 0 t.hardware_breakpoints read.1) (
      insert_hardware-IsTaken hart type addr kind 0 t.hardware_breakpoints read.1
        (==_of_ne (type_number type) 5 (λ e. omega arith))))
  where
    read : ℕ × W
    read = hart.read_register reg_tselect t.target

    not_software : (type_number type == 0) ≡ false
    not_software = ==_of_ne (type_number type) 0 (λ e. omega arith)

    result :
        (o : Option (Bool × List Slot × W))
        → IsTaken t.hardware_breakpoints o
        → let (err, t') = hardware_result hart read.0 read.1 o t in
          (has_unused t.hardware_breakpoints ≡ true
            → length (active t'.hardware_breakpoints)
              ≡ suc (length (active t.hardware_breakpoints)))
          × (has_unused t.hardware_breakpoints ≡ false
              → (err ≡ table_error) × (t'.hardware_breakpoints ≡ t.hardware_breakpoints))
          × (t'.software_breakpoints ≡ t.software_breakpoints)
    result none full = ((λ room. absurd cc), (λ h. (refl, refl)), refl)
    result (some (false, bs, w)) (room, more) = ((λ h. more), (λ full. absurd cc), refl)
    result (some (true, bs, w)) (room, more) = ((λ h. more), (λ full. absurd cc), refl)
