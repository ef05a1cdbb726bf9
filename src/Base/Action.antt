-- ===== src/Base/Action.antt =====
-- Sequencing of stateful steps that can fail to come back, for `do` blocks.
use mathlib.Core.Option.{Option, none, some}
use mathlib.Core.Path.{◌≡◌, refl}

abbrev pub Action : Type 0 → Type 0 → Type 0
Action S A = S → Option (A × S)

module _ {S : Type 0} where
  abbrev pub pure : {A : Type 0} → A → Action S A
  pure a s = some (a, s)

  abbrev pub fault : {A : Type 0} → Action S A
  fault s = none

  abbrev pub gets : {A : Type 0} → (S → A) → Action S A
  gets f s = some (f s, s)

  abbrev pub modify : (S → S) → Action S (Unit {0})
  modify f s = some (tt, f s)

  -- A step that always comes back.
  abbrev pub run : {A : Type 0} → (S → A × S) → Action S A
  run f s = some (f s)

  -- What an operation stores through a pointer, if it is there.
  abbrev pub given : {A : Type 0} → Option A → Action S A
  given none s = none
  given (some a) s = some (a, s)

  infixl 5 ◌>>=◌ ◌>>◌
  abbrev pub ◌>>=◌ : {A B : Type 0} → Action S A → (A → Action S B) → Action S B
  ◌>>=◌ m f s = elim (m s) [ none ↦ none | some (a, s') ↦ f a s' ]

  abbrev pub ◌>>◌ : {A B : Type 0} → Action S A → Action S B → Action S B
  m >> k = m >>= λ _. k

  abbrev pub skip : Action S (Unit {0})
  skip s = some (tt, s)

  pub bind_some :
      {A B : Type 0} {a : A} {s s' : S}
      → (m : Action S A) (f : A → Action S B) → m s ≡ some (a, s')
      → (m >>= f) s ≡ f a s'
  bind_some m f e = rw (◌>>=◌, e) refl

  -- A step after which nothing happens.
  pub bind_pure :
      {A : Type 0} (m : Action S A) (f : A → Action S A) (s : S)
      → ((a : A) (s' : S) → f a s' ≡ some (a, s'))
      → (m >>= f) s ≡ m s
  bind_pure {A = A} m f s h = on (m s)
    where
      on : (o : Option (A × S)) → elim o [ none ↦ none | some (a, s') ↦ f a s' ] ≡ o
      on none = refl
      on (some (a, s')) = h a s'
