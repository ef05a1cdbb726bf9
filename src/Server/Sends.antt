-- ===== src/Server/Sends.antt =====
-- How many responses a step of the server puts into the queue.
use mathlib.Core.List.{append-nil, append_assoc}
use nuclei_dlink.Base.{
  ℕ, ◌+◌, ◌≤◌, ◌≡◌, refl, ap, sym, ◌∙◌, Bool, true, false, Option, none, some, List, [], ◌∷◌, ◌++◌,
  arith, length, length-append, leb, if◌then◌else◌, Bool-cases, inl, inr,
}
use nuclei_dlink.Base.Action.{Action, gets, modify, given, ◌>>=◌, skip}
use nuclei_dlink.Server.{
  State, on_target, respond, rsp_size, gdb_server_send_response, gdb_server_reply_ok,
}

-- The queue has kept its responses, and `k` at most are added; a step that does not come back is free.
unfoldable pub Grown : {W A : Type 0} → ℕ → State W → Option (A × State W) → Type 0
Grown k s none = Unit {0}
Grown k s (some (a, s')) =
    (extra : List (List ℕ)) × (s'.responses ≡ s.responses ++ extra) × (length extra ≤ k)

unfoldable pub Sends : {W A : Type 0} → ℕ → Action (State W) A → Type 0
Sends {W} k m = (s : State W) → Grown k s (m s)

module _ (W : Type 0) where
  still :
      (s s' : State W)
      → s'.responses ≡ s.responses
      → (extra : List (List ℕ)) × (s'.responses ≡ s.responses ++ extra) × (length extra ≤ 0)
  still s s' e = ([], e ∙ sym (append-nil s.responses), omega arith)

  pub Sends-modify :
      (f : State W → State W) → ((s : State W) → (f s).responses ≡ s.responses) → Sends 0 (modify f)
  unfolding Sends Grown
  Sends-modify f h s = still s (f s) (h s)

  pub Sends-gets : {A : Type 0} (f : State W → A) → Sends 0 (gets f)
  unfolding Sends Grown
  Sends-gets f s = still s s refl

  pub Sends-skip : Sends {W = W} 0 skip
  unfolding Sends Grown
  Sends-skip s = still s s refl

  pub Sends-given : {A : Type 0} (o : Option A) → Sends {W = W} 0 (given o)
  unfolding Sends Grown
  Sends-given none s = tt
  Sends-given (some a) s = still s s refl

  pub Sends-on_target : {A : Type 0} (f : Action W A) → Sends 0 (on_target f)
  unfolding Sends Grown
  Sends-on_target {A} f s = at (f s.target)
    where
      at :
          (o : Option (A × W))
          → Grown 0 s (elim o [ none ↦ none | some (a, w) ↦ some (a, record s { target = w }) ])
      at none = tt
      at (some (a, w)) = still s (record s { target = w }) refl

  -- A sum of the two numbers is enough for a sequence.
  pub Sends-bind :
      {A B : Type 0} (j k : ℕ) (m : Action (State W) A) (f : A → Action (State W) B)
      → Sends j m
      → ((a : A) → Sends k (f a))
      → Sends (j + k) (m >>= f)
  unfolding Sends Grown
  Sends-bind {A = A} {B = B} j k m f first second s = at (m s) (first s)
    where
      join :
          (s' : State W) (extra : List (List ℕ)) (o : Option (B × State W))
          → s'.responses ≡ s.responses ++ extra
          → length extra ≤ j
          → Grown k s' o
          → Grown (j + k) s o
      join s' extra none e short g = tt
      join s' extra (some (b, s'')) e short (more, e', short') = (
        extra ++ more,
        e' ∙ (ap (λ l. l ++ more) e ∙ append_assoc s.responses extra more),
        omega (arith, length-append extra more, short, short'),
      )

      at :
          (o : Option (A × State W))
          → Grown j s o
          → Grown (j + k) s (elim o [ none ↦ none | some (a, s') ↦ f a s' ])
      at none g = tt
      at (some (a, s')) (extra, e, short) = join s' extra (f a s') e short (second a s')

  pub Sends-if :
      {A : Type 0} (k : ℕ) (b : Bool) (m n : Action (State W) A)
      → Sends k m
      → Sends k n
      → Sends k (if b then m else n)
  Sends-if k true m n g h = g
  Sends-if k false m n g h = h

  pub Sends-more : {A : Type 0} (m : Action (State W) A) → Sends 0 m → Sends 1 m
  unfolding Sends Grown
  Sends-more {A} m h s = at (m s) (h s)
    where
      at : (o : Option (A × State W)) → Grown 0 s o → Grown 1 s o
      at none g = tt
      at (some (a, s')) (extra, e, short) = (extra, e, omega arith)

  pub Sends-send : Sends {W = W} 1 gdb_server_send_response
  unfolding Sends Grown gdb_server_send_response
  Sends-send s = (s.rsp ∷ [], refl, omega arith)

  pub Sends-respond : (text : List ℕ) → Sends {W = W} 1 (respond text)
  unfolding Sends Grown respond gdb_server_send_response
  Sends-respond text s = elim (Bool-cases (leb (length text) rsp_size)) [
    | inl e ↦ rw (e) (text ∷ [], refl, omega arith)
    | inr e ↦ rw (e) tt
  ]

  pub Sends-ok : Sends {W = W} 1 gdb_server_reply_ok
  unfolding gdb_server_reply_ok
  Sends-ok = Sends-respond _
