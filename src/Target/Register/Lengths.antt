-- ===== src/Target/Register/Lengths.antt =====
-- Reads of registers of riscv-target.c leave their buffers at their lengths.
use nuclei_dlink.Base.{
  ℕ, zero, suc, ◌≤◌, ◌≡◌, refl, subst, ◌∙◌, Bool, true, false, Option, none, some, List, [], ◌∷◌,
  ◌++◌, arith, length, length-append, length-drop, length-take, take, drop, leb, if◌then◌else◌,
  map-eq-some, Option-cases, Bool-cases, inl, inr,
}
use nuclei_dlink.Base.Action.{Action, pure, fault, run, given, ◌>>=◌}
use nuclei_dlink.Target.Memory.{Dmi, Dm, rv_memory_read}
use nuclei_dlink.Target.Memory.Commands.{length-rv_memory_read}
use nuclei_dlink.Target.Register.{set_word, fetch, rv_register_read}
use nuclei_dlink.Target.Register.Names.{Calls, Hart}
use nuclei_dlink.Target.Register.Buffer.{
  read_by, read_vector, read_double, read_through, rv_register_read_buf,
}
use nuclei_dlink.Target.Register.Access.{
  read_or_exec, read_priv, read_vector_register, read_by_class, read_register, calls,
  rv_target_read_register,
}

-- A step that does not come back is free.
Gives : {S : Type 0} → ℕ → Option (List ℕ × S) → Type 0
Gives n none = Unit {0}
Gives n (some (reg, s)) = length reg ≡ n

-- The result of a step has the length.
unfoldable pub Sized : {S : Type 0} → ℕ → Action S (List ℕ) → Type 0
unfolding Gives
Sized {S} n m = (s : S) → Gives n (m s)

module _ (S : Type 0) where
  pub Sized-bind :
      {A : Type 0} (n : ℕ) (m : Action S A) (f : A → Action S (List ℕ))
      → ((a : A) → Sized n (f a))
      → Sized n (m >>= f)
  unfolding Sized Gives
  Sized-bind n m f h s = elim (Option-cases (m s)) [
    | inl e ↦ rw (◌>>=◌, e) tt
    | inr ((a, s'), e) ↦ rw (◌>>=◌, e) (h a s')
  ]

  pub Sized-bind-Sized :
      (n k : ℕ) (m : Action S (List ℕ)) (f : List ℕ → Action S (List ℕ))
      → Sized k m
      → ((reg : List ℕ) → length reg ≡ k → Sized n (f reg))
      → Sized n (m >>= f)
  unfolding Sized Gives
  Sized-bind-Sized n k m f g h s = at (m s) (g s)
    where
      at :
          (o : Option (List ℕ × S))
          → Gives k o
          → Gives n (elim o [ none ↦ none | some (a, s') ↦ f a s' ])
      at none e = tt
      at (some (reg, s')) e = h reg e s'

  pub length-result :
      (n : ℕ) (m : Action S (List ℕ)) (s s' : S) (reg : List ℕ)
      → Sized n m
      → m s ≡ some (reg, s')
      → length reg ≡ n
  unfolding Sized Gives
  length-result n m s s' reg h e = subst (Gives n) e (h s)

  pub Sized-pure : (n : ℕ) (reg : List ℕ) → length reg ≡ n → Sized {S = S} n (pure reg)
  unfolding Sized Gives
  Sized-pure n reg e s = e

  pub Sized-fault : (n : ℕ) → Sized {S = S} n fault
  unfolding Sized Gives
  Sized-fault n s = tt

  pub Sized-if :
      (n : ℕ) (b : Bool) (m m' : Action S (List ℕ))
      → Sized n m
      → Sized n m'
      → Sized n (if b then m else m')
  Sized-if n true m m' g h = g
  Sized-if n false m m' g h = h

  pub Sized-given :
      (n : ℕ) (o : Option (List ℕ))
      → ((reg : List ℕ) → o ≡ some reg → length reg ≡ n)
      → Sized {S = S} n (given o)
  unfolding Sized Gives
  Sized-given n none h s = tt
  Sized-given n (some reg) h s = h reg refl

-- The same length on the way.
pub Sized-link :
    (S : Type 0) (n : ℕ) (m : Action S (List ℕ)) (f : List ℕ → Action S (List ℕ))
    → Sized n m
    → ((reg : List ℕ) → length reg ≡ n → Sized n (f reg))
    → Sized n (m >>= f)
Sized-link S n m f = Sized-bind-Sized S n n m f

length-set_word :
    (reg : List ℕ) (i v : ℕ) (reg' : List ℕ)
    → set_word reg i v ≡ some reg'
    → length reg' ≡ length reg
unfolding set_word
length-set_word [] i v reg' e = cc
length-set_word (x ∷ xs) zero v reg' e = ground (arith, e)
length-set_word (x ∷ xs) (suc i) v reg' e =
    let (ys, e', same) = map-eq-some (λ ys. x ∷ ys) (set_word xs i v) e in
    rw (same) (omega (arith, length-set_word xs i v ys e'))

module _ (D : Type 0) (n : ℕ) where
  Sized-set_word :
      (reg : List ℕ) (i v : ℕ) → length reg ≡ n → Sized {S = Dm D} n (given (set_word reg i v))
  Sized-set_word reg i v e =
      Sized-given (Dm D) n (set_word reg i v) (λ reg' e'. length-set_word reg i v reg' e' ∙ e)

  Sized-spoilt :
      (failed : Bool) (reg : List ℕ) (v : ℕ)
      → length reg ≡ n
      → Sized {S = Dm D} n (given (if failed then set_word reg 0 v else some reg))
  Sized-spoilt true reg v e = Sized-set_word reg 0 v e
  Sized-spoilt false reg v e = Sized-given (Dm D) n (some reg) (λ reg' e'. ground (arith, e'))

ruleset sized =
    (Sized-set_word, Sized-spoilt, Sized-pure, Sized-if, Sized-fault, Sized-link, Sized-bind)

module _ {D : Type 0} (dmi : Dmi D) (fuel mxl n : ℕ) where
  Sized-fetch : (width : ℕ) (reg : List ℕ) → length reg ≡ n → Sized n (fetch dmi fuel mxl width reg)
  unfolding fetch
  Sized-fetch width reg e = search sized depth 14

  Sized-rv_register_read :
      (reg : List ℕ) (regno : ℕ)
      → length reg ≡ n
      → Sized n (rv_register_read dmi fuel mxl reg regno)
  unfolding rv_register_read
  Sized-rv_register_read reg regno e = search (Sized-fetch, sized) depth 14

-- What is known of the calls of a level.
IsSizedCalls : {D : Type 0} → Calls D → Type 0
IsSizedCalls self = (regno n : ℕ) (reg : List ℕ) → length reg ≡ n → Sized n (self.read regno reg)

pub length-take_append :
    (k : ℕ) (reg rest : List ℕ)
    → length rest ≡ length (drop k reg)
    → length (take k reg ++ rest) ≡ length reg
length-take_append k reg rest e =
    omega (arith, length-append (take k reg) rest, length-take k reg, length-drop k reg, e)

module _ {D : Type 0} (dmi : Dmi D) (fuel : ℕ) (hart : Hart) (self : Calls D)
    (h : IsSizedCalls self) where
  Sized-read_by :
      (inst n : ℕ) (reg : List ℕ) → length reg ≡ n → Sized n (read_by dmi fuel hart self inst reg)
  unfolding read_by IsSizedCalls
  Sized-read_by inst n reg e = search (h, sized)

  Sized-read_vector :
      (k v n : ℕ) (reg : List ℕ) → length reg ≡ n → Sized n (read_vector dmi fuel hart self k v reg)
  unfolding read_vector IsSizedCalls
  Sized-read_vector zero v n reg e = Sized-pure (Dm D) n reg e
  Sized-read_vector (suc k) v n reg e = Sized-bind (Dm D) n _ _ (λ u.
      Sized-link (Dm D) n _ _ (h _ n reg e) (λ reg' e'.
        Sized-bind-Sized (Dm D) n (length (drop hart.mxl reg')) _ _
          (Sized-read_vector k v (length (drop hart.mxl reg')) (drop hart.mxl reg') refl)
          (λ rest e''. Sized-pure (Dm D) n _ (length-take_append hart.mxl reg' rest e'' ∙ e'))))

  -- The words of memory lie over the first ones of the buffer.
  fetched :
      (addr n : ℕ) (reg : List ℕ)
      → length reg ≡ n
      → 8 ≤ n
      → Sized n (
          run (rv_memory_read dmi hart.mxl addr 8 2) >>= λ words.
          pure (words ++ drop (length words) reg))
  unfolding Sized Gives
  fetched addr n reg e room s =
      let words = (rv_memory_read dmi hart.mxl addr 8 2 s).0 in
      omega (
        arith,
        length-rv_memory_read dmi hart.mxl addr 8 2 s,
        e,
        room,
        length-append words (drop (length words) reg),
        length-drop (length words) reg,
      )

  Sized-read_double :
      (regno n : ℕ) (reg : List ℕ)
      → length reg ≡ n
      → 8 ≤ n
      → Sized n (read_double dmi fuel hart self regno reg)
  unfolding read_double
  Sized-read_double regno n reg e room = search (fetched, Sized-bind)

  double :
      (regno n : ℕ) (reg : List ℕ)
      → length reg ≡ n
      → Sized n (if leb 8 (length reg) then read_double dmi fuel hart self regno reg else fault)
  double regno n reg e = elim (Bool-cases (leb 8 (length reg))) [
    | inl b ↦ rw (b) (Sized-read_double regno n reg e (ground (arith, b, e)))
    | inr b ↦ rw (b) (Sized-fault (Dm D) n)
  ]

  Sized-read_through :
      (regno n : ℕ) (reg : List ℕ)
      → length reg ≡ n
      → Sized n (read_through dmi fuel hart self regno reg)
  unfolding read_through
  Sized-read_through regno n reg e =
      search (sized, Sized-read_by, Sized-read_vector, double) depth 12

  Sized-rv_register_read_buf :
      (regno n : ℕ) (reg : List ℕ)
      → length reg ≡ n
      → Sized n (rv_register_read_buf dmi fuel hart self regno reg)
  unfolding rv_register_read_buf
  Sized-rv_register_read_buf regno n reg e = search (sized, Sized-read_through) depth 12

  Sized-read_or_exec :
      (number regno n : ℕ) (reg : List ℕ)
      → length reg ≡ n
      → Sized n (read_or_exec dmi fuel hart self number regno reg)
  unfolding read_or_exec
  Sized-read_or_exec number regno n reg e =
      search (sized, Sized-rv_register_read, Sized-rv_register_read_buf) depth 12

  Sized-read_priv :
      (n : ℕ) (reg : List ℕ) → length reg ≡ n → Sized n (read_priv dmi fuel hart self reg)
  unfolding read_priv
  Sized-read_priv n reg e = search sized

  Sized-read_vector_register :
      (regno n : ℕ) (reg : List ℕ)
      → length reg ≡ n
      → Sized n (read_vector_register dmi fuel hart self regno reg)
  unfolding read_vector_register
  Sized-read_vector_register regno n reg e = search (sized, Sized-rv_register_read_buf) depth 12

  Sized-read_by_class :
      (regno n : ℕ) (reg : List ℕ)
      → length reg ≡ n
      → Sized n (read_by_class dmi fuel hart self regno reg)
  unfolding read_by_class IsSizedCalls
  Sized-read_by_class regno n reg e =
      search
        (
          sized, h, Sized-rv_register_read, Sized-read_or_exec, Sized-read_priv,
          Sized-read_vector_register,
        )
        depth 12

  Sized-read_register :
      (regno n : ℕ) (reg : List ℕ)
      → length reg ≡ n
      → Sized n (read_register dmi fuel hart self regno reg)
  unfolding read_register
  Sized-read_register regno n reg e = search (sized, Sized-read_by_class) depth 12

module _ {D : Type 0} (dmi : Dmi D) (fuel : ℕ) (hart : Hart) where
  calls-IsSizedCalls : (n : ℕ) → IsSizedCalls (calls dmi fuel hart n)
  unfolding calls IsSizedCalls
  calls-IsSizedCalls zero regno n reg e = Sized-fault (Dm D) n
  calls-IsSizedCalls (suc k) regno n reg e =
      Sized-read_register dmi fuel hart (calls dmi fuel hart k) (calls-IsSizedCalls k) regno n reg e

  -- A read of a register leaves its buffer at its length.
  pub Sized-rv_target_read_register :
      (regno n : ℕ) (reg : List ℕ)
      → length reg ≡ n
      → Sized n (rv_target_read_register dmi fuel hart reg regno)
  unfolding rv_target_read_register IsSizedCalls
  Sized-rv_target_read_register regno n reg e = calls-IsSizedCalls 5 regno n reg e
