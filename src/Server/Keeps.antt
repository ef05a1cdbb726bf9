-- ===== src/Server/Keeps.antt =====
-- The state that gdb-server.c keeps in its buffers and variables, as every step leaves it.
pub mod Steps
pub mod Buffers
pub mod Memory
pub mod Registers
pub mod Rounds
use nuclei_dlink.Base.{
  ℕ, ◌+◌, ◌*◌, ◌≤◌, ◌<◌, ◌^◌, ◌≡◌, refl, Bool, true, false, Option, none, some, List, length, All,
  All-append, [], ◌∷◌, ◌++◌, if◌then◌else◌, Option-cases, inl, inr,
}
use nuclei_dlink.Base.Action.{Action, gets, modify, given, ◌>>=◌, skip}
use nuclei_dlink.Server.{State, Target, on_target, buff_size, reg_num, rsp_size}

-- The buffers have their sizes, the numbers of 64 bits their upper half zero, `mem_len` is less than
-- `bound`, and the response that is built and those in the queue fit in their buffers.
pub record Fits (bound : ℕ) (mem_buffer regs reg_tmp : List ℕ)
    (mem_addr mem_len breakpoint_addr : ℕ) (rsp : List ℕ) (responses : List (List ℕ)) : Type 0 where
  pub buffer : length mem_buffer ≡ buff_size
  pub registers : length regs ≡ 2 * reg_num
  pub tmp : length reg_tmp ≡ 8
  pub addr : mem_addr < 2 ^ 32
  pub len : mem_len < bound
  pub point : breakpoint_addr < 2 ^ 32
  pub built : length rsp ≤ rsp_size
  pub queued : All (λ r. length r ≤ rsp_size) responses

module _ {b mem_addr mem_len breakpoint_addr : ℕ} {mem_buffer regs reg_tmp rsp : List ℕ}
    {responses : List (List ℕ)}
    (f : Fits b mem_buffer regs reg_tmp mem_addr mem_len breakpoint_addr rsp responses) where
  -- One part changed.
  pub with_buffer :
      {new : List ℕ}
      → length new ≡ buff_size
      → Fits b new regs reg_tmp mem_addr mem_len breakpoint_addr rsp responses
  with_buffer e = record {
    buffer = e;
    registers = f.registers;
    tmp = f.tmp;
    addr = f.addr;
    len = f.len;
    point = f.point;
    built = f.built;
    queued = f.queued;
  }

  pub with_registers :
      {new : List ℕ}
      → length new ≡ 2 * reg_num
      → Fits b mem_buffer new reg_tmp mem_addr mem_len breakpoint_addr rsp responses
  with_registers e = record {
    buffer = f.buffer;
    registers = e;
    tmp = f.tmp;
    addr = f.addr;
    len = f.len;
    point = f.point;
    built = f.built;
    queued = f.queued;
  }

  pub with_tmp :
      {new : List ℕ}
      → length new ≡ 8
      → Fits b mem_buffer regs new mem_addr mem_len breakpoint_addr rsp responses
  with_tmp e = record {
    buffer = f.buffer;
    registers = f.registers;
    tmp = e;
    addr = f.addr;
    len = f.len;
    point = f.point;
    built = f.built;
    queued = f.queued;
  }

  pub with_addr :
      {new : ℕ}
      → new < 2 ^ 32
      → Fits b mem_buffer regs reg_tmp new mem_len breakpoint_addr rsp responses
  with_addr h = record {
    buffer = f.buffer;
    registers = f.registers;
    tmp = f.tmp;
    addr = h;
    len = f.len;
    point = f.point;
    built = f.built;
    queued = f.queued;
  }

  pub with_len :
      {b' new : ℕ}
      → new < b'
      → Fits b' mem_buffer regs reg_tmp mem_addr new breakpoint_addr rsp responses
  with_len h = record {
    buffer = f.buffer;
    registers = f.registers;
    tmp = f.tmp;
    addr = f.addr;
    len = h;
    point = f.point;
    built = f.built;
    queued = f.queued;
  }

  pub with_point :
      {new : ℕ} → new < 2 ^ 32 → Fits b mem_buffer regs reg_tmp mem_addr mem_len new rsp responses
  with_point h = record {
    buffer = f.buffer;
    registers = f.registers;
    tmp = f.tmp;
    addr = f.addr;
    len = f.len;
    point = h;
    built = f.built;
    queued = f.queued;
  }

  pub with_built :
      {new : List ℕ}
      → length new ≤ rsp_size
      → Fits b mem_buffer regs reg_tmp mem_addr mem_len breakpoint_addr new responses
  with_built h = record {
    buffer = f.buffer;
    registers = f.registers;
    tmp = f.tmp;
    addr = f.addr;
    len = f.len;
    point = f.point;
    built = h;
    queued = f.queued;
  }

  pub with_queued :
      Fits b mem_buffer regs reg_tmp mem_addr mem_len breakpoint_addr rsp (responses ++ rsp ∷ [])
  with_queued = record {
    buffer = f.buffer;
    registers = f.registers;
    tmp = f.tmp;
    addr = f.addr;
    len = f.len;
    point = f.point;
    built = f.built;
    queued = All-append (λ r. length r ≤ rsp_size) responses (rsp ∷ []) f.queued (f.built, tt);
  }

abbrev pub IsValid : {W : Type 0} → ℕ → State W → Type 0
IsValid bound s =
    Fits bound s.mem_buffer s.regs s.reg_tmp s.mem_addr s.mem_len s.breakpoint_addr s.rsp
      s.responses

-- A step that does not come back is free.
unfoldable pub After : {W A : Type 0} → ℕ → Option (A × State W) → Type 0
After bound none = Unit {0}
After bound (some (a, s)) = IsValid bound s

-- A step leads from the one bound of `mem_len` to the other.
unfoldable pub Keeps : {W A : Type 0} → ℕ → ℕ → Action (State W) A → Type 0
Keeps {W} from to m = (s : State W) → IsValid from s → After to (m s)

-- The target gives as many words of registers as the buffers have.
pub record IsSized {W : Type 0} (target : Target W) : Type 0 where
  pub core :
      (old new : List ℕ) (w w' : W)
      → target.read_core_registers old w ≡ some (new, w')
      → length new ≡ length old
  pub single :
      (old new : List ℕ) (regno : ℕ) (w w' : W)
      → target.read_register old regno w ≡ some (new, w')
      → length new ≡ length old

module _ (W : Type 0) where
  pub Keeps-modify :
      (from to : ℕ) (f : State W → State W)
      → ((s : State W) → IsValid from s → IsValid to (f s))
      → Keeps from to (modify f)
  unfolding Keeps After
  Keeps-modify from to f h s v = h s v

  pub Keeps-skip : (b : ℕ) → Keeps {W = W} b b skip
  unfolding Keeps After
  Keeps-skip b s v = v

  pub Keeps-bind :
      {A B : Type 0} (from mid to : ℕ) (m : Action (State W) A) (f : A → Action (State W) B)
      → Keeps from mid m
      → ((a : A) → Keeps mid to (f a))
      → Keeps from to (m >>= f)
  unfolding Keeps After
  Keeps-bind {A = A} {B = B} from mid to m f first second s v = at (m s) (first s v)
    where
      at :
          (o : Option (A × State W))
          → After mid o
          → After to (elim o [ none ↦ none | some (a, s') ↦ f a s' ])
      at none h = tt
      at (some (a, s')) h = second a s' h

  -- A step that changes no state, and what is known of its result.
  pub Keeps-gets_bind :
      {A B : Type 0} (from to : ℕ) (g : State W → A) (f : A → Action (State W) B)
      → ((s : State W) → IsValid from s → Keeps from to (f (g s)))
      → Keeps from to (gets g >>= f)
  unfolding Keeps
  Keeps-gets_bind from to g f h s v = h s v s v

  pub Keeps-given_bind :
      {A B : Type 0} (from to : ℕ) (o : Option A) (f : A → Action (State W) B)
      → ((a : A) → o ≡ some a → Keeps from to (f a))
      → Keeps from to (given o >>= f)
  unfolding Keeps After
  Keeps-given_bind from to none f h s v = tt
  Keeps-given_bind from to (some a) f h s v = h a refl s v

  pub Keeps-target_bind :
      {A B : Type 0} (from to : ℕ) (g : Action W A) (f : A → Action (State W) B)
      → ((a : A) (w w' : W) → g w ≡ some (a, w') → Keeps from to (f a))
      → Keeps from to (on_target g >>= f)
  unfolding Keeps After
  Keeps-target_bind from to g f h s v = elim (Option-cases (g s.target)) [
    | inl e ↦ rw (◌>>=◌, e) tt
    | inr ((a, w'), e) ↦ rw (◌>>=◌, e) (h a s.target w' e (record s { target = w' }) v)
  ]

  pub Keeps-on_target : {A : Type 0} (b : ℕ) (g : Action W A) → Keeps b b (on_target g)
  unfolding Keeps After
  Keeps-on_target {A} b g s v = at (g s.target)
    where
      at :
          (o : Option (A × W))
          → After b (elim o [ none ↦ none | some (a, w) ↦ some (a, record s { target = w }) ])
      at none = tt
      at (some (a, w)) = v

  pub Keeps-if :
      {A : Type 0} (from to : ℕ) (b : Bool) (m n : Action (State W) A)
      → Keeps from to m
      → Keeps from to n
      → Keeps from to (if b then m else n)
  Keeps-if from to true m n g h = g
  Keeps-if from to false m n g h = h
