-- ===== src/Target/Memory/Stores.antt =====
-- `rv_target_write_memory` of riscv-target.c over a memory of bytes, and the read after it.
use nuclei_dlink.Base.{
  ℕ, zero, suc, ◌+◌, ◌-◌, ◌*◌, ◌/◌, ◌%◌, ◌^◌, ◌≤◌, ◌<◌, ◌≡◌, refl, ap, sym, ◌∙◌, true, false, ◌&&◌,
  List, [], ◌∷◌, arith, length, get_or, All, All-get_or, ◌==◌, leb, ltb, if◌then◌else◌, Bool-cases,
  inl, inr, length-append, get_or-append, ◌++◌,
}
use mathlib.Core.Path.{fun_ext}
use native.Mathlib.Nat.{suc-mul}
use nuclei_dlink.Target.Memory.{
  Dm, mxl_rv32, bytes_elements, element, access_size, rv_target_read_memory, rv_target_write_memory,
}
use nuclei_dlink.Target.Memory.Commands.{Module, abstract_commands, stored, rv_memory_write-stored}
use nuclei_dlink.Target.Memory.Bytes.{byte_memory, bytes_from, rv_target_read_memory-bytes}

-- Bytes laid over a memory at the addresses from `a` on.
abbrev pub over : List ℕ → ℕ → (ℕ → ℕ) → ℕ → ℕ
over bytes a m c = if leb a c && ltb c (a + length bytes) then get_or bytes (c - a) 0 else m c

over-append :
    (xs ys : List ℕ) (a : ℕ) (m : ℕ → ℕ) (c : ℕ)
    → over ys (a + length xs) (over xs a m) c ≡ over (xs ++ ys) a m c
over-append xs ys a m c = ground (arith, length-append xs ys, get_or-append xs ys (c - a) 0)

-- The bytes of an element.
digit0 : (b k : ℕ) → b < 2 ^ 8 → k < 1 → element 0 b / 2 ^ (8 * k) % 2 ^ 8 ≡ get_or (b ∷ []) k 0
digit0 b zero h lt = omega arith
digit0 b (suc k) h lt = absurd (omega arith)

digit1 :
    (b0 b1 k : ℕ)
    → b0 < 2 ^ 8
    → b1 < 2 ^ 8
    → k < 2
    → element 1 (b0 + b1 * 2 ^ 8) / 2 ^ (8 * k) % 2 ^ 8 ≡ get_or (b0 ∷ b1 ∷ []) k 0
digit1 b0 b1 zero h0 h1 lt = omega arith
digit1 b0 b1 (suc zero) h0 h1 lt = omega arith
digit1 b0 b1 (suc (suc k)) h0 h1 lt = absurd (omega arith)

digit2 :
    (b0 b1 b2 b3 k : ℕ)
    → b0 < 2 ^ 8
    → b1 < 2 ^ 8
    → b2 < 2 ^ 8
    → b3 < 2 ^ 8
    → k < 4
    → element 2 (b0 + b1 * 2 ^ 8 + b2 * 2 ^ 16 + b3 * 2 ^ 24) / 2 ^ (8 * k) % 2 ^ 8
      ≡ get_or (b0 ∷ b1 ∷ b2 ∷ b3 ∷ []) k 0
digit2 b0 b1 b2 b3 zero h0 h1 h2 h3 lt = omega arith
digit2 b0 b1 b2 b3 (suc zero) h0 h1 h2 h3 lt = omega arith
digit2 b0 b1 b2 b3 (suc (suc zero)) h0 h1 h2 h3 lt = omega arith
digit2 b0 b1 b2 b3 (suc (suc (suc zero))) h0 h1 h2 h3 lt = omega arith
digit2 b0 b1 b2 b3 (suc (suc (suc (suc k)))) h0 h1 h2 h3 lt = absurd (omega arith)

-- A store is known from the bytes of its value.
store_over :
    (size a v : ℕ) (bytes : List ℕ) (m : ℕ → ℕ)
    → length bytes ≡ 2 ^ size
    → ((k : ℕ) → k < 2 ^ size → v / 2 ^ (8 * k) % 2 ^ 8 ≡ get_or bytes k 0)
    → byte_memory.store size a v m ≡ over bytes a m
unfolding byte_memory
store_over size a v bytes m sized digit = fun_ext (λ c. ground (arith, sized, digit (c - a)))

abbrev pub AllBytes : List ℕ → Type 0
AllBytes = All (λ b. b < 2 ^ 8)

module _ (addr : ℕ) where
  -- One element, and those behind it.
  element-over :
      (size i x : ℕ) (xs bytes rest : List ℕ) (m : ℕ → ℕ)
      → addr + i * 2 ^ size < 2 ^ 32
      → length bytes ≡ 2 ^ size
      → ((k : ℕ) → k < 2 ^ size → element size x / 2 ^ (8 * k) % 2 ^ 8 ≡ get_or bytes k 0)
      → ((m' : ℕ → ℕ)
          → stored byte_memory xs (suc i) addr size m' ≡ over rest (addr + suc i * 2 ^ size) m')
      → stored byte_memory (x ∷ xs) i addr size m ≡ over (bytes ++ rest) (addr + i * 2 ^ size) m
  unfolding stored
  element-over size i x xs bytes rest m low sized digit ih =
      let a = addr + i * 2 ^ size in
      let here : a % 2 ^ 32 ≡ a = omega (arith, low) in
      let next : addr + suc i * 2 ^ size ≡ a + length bytes =
        omega (arith, sized, suc-mul i (2 ^ size)) in
      rw (here, store_over size a (element size x) bytes m sized digit)
        (ih (over bytes a m)
          ∙ ap (λ b. over rest b (over bytes a m)) next
          ∙ fun_ext (over-append bytes rest a m))

  stored_over0 :
      (bytes : List ℕ) (i : ℕ) (m : ℕ → ℕ)
      → AllBytes bytes
      → addr + i * 2 ^ 0 + length bytes ≤ 2 ^ 32
      → stored byte_memory (bytes_elements 0 bytes) i addr 0 m ≡ over bytes (addr + i * 2 ^ 0) m
  unfolding stored bytes_elements
  stored_over0 [] i m h fits = fun_ext (λ c. ground arith)
  stored_over0 (b ∷ bytes) i m h fits =
      element-over 0 i b bytes (b ∷ []) bytes m (omega arith) refl (λ k lt. digit0 b k h.0 lt)
        (λ m'. stored_over0 bytes (suc i) m' h.1 (omega arith))

  pub stored_over1 :
      (bytes : List ℕ) (i : ℕ) (m : ℕ → ℕ)
      → AllBytes bytes
      → length bytes % 2 ≡ 0
      → addr + i * 2 ^ 1 + length bytes ≤ 2 ^ 32
      → stored byte_memory (bytes_elements 1 bytes) i addr 1 m ≡ over bytes (addr + i * 2 ^ 1) m
  unfolding stored bytes_elements
  stored_over1 [] i m h even fits = fun_ext (λ c. ground arith)
  stored_over1 (b ∷ []) i m h even fits = absurd (omega arith)
  stored_over1 (b0 ∷ b1 ∷ bytes) i m h even fits =
      element-over 1 i (b0 + b1 * 2 ^ 8) (bytes_elements 1 bytes) (b0 ∷ b1 ∷ []) bytes m
        (omega arith) refl (λ k lt. digit1 b0 b1 k h.0 h.1.0 lt)
        (λ m'. stored_over1 bytes (suc i) m' h.1.1 (omega arith) (omega arith))

  stored_over2 :
      (bytes : List ℕ) (i : ℕ) (m : ℕ → ℕ)
      → AllBytes bytes
      → length bytes % 4 ≡ 0
      → addr + i * 2 ^ 2 + length bytes ≤ 2 ^ 32
      → stored byte_memory (bytes_elements 2 bytes) i addr 2 m ≡ over bytes (addr + i * 2 ^ 2) m
  unfolding stored bytes_elements
  stored_over2 [] i m h four fits = fun_ext (λ c. ground arith)
  stored_over2 (a ∷ []) i m h four fits = absurd (omega arith)
  stored_over2 (a ∷ b ∷ []) i m h four fits = absurd (omega arith)
  stored_over2 (a ∷ b ∷ c ∷ []) i m h four fits = absurd (omega arith)
  stored_over2 (b0 ∷ b1 ∷ b2 ∷ b3 ∷ bytes) i m h four fits =
      element-over 2 i (b0 + b1 * 2 ^ 8 + b2 * 2 ^ 16 + b3 * 2 ^ 24) (bytes_elements 2 bytes)
        (b0 ∷ b1 ∷ b2 ∷ b3 ∷ []) bytes m (omega arith) refl
        (λ k lt. digit2 b0 b1 b2 b3 k h.0 h.1.0 h.1.1.0 h.1.1.1.0 lt)
        (λ m'. stored_over2 bytes (suc i) m' h.1.1.1.1 (omega arith) (omega arith))

  stored_over :
      (ptr : ℕ) (mem : List ℕ) (m : ℕ → ℕ)
      → AllBytes mem
      → addr + length mem ≤ 2 ^ 32
      → let size = access_size ptr addr (length mem) in
        stored byte_memory (bytes_elements size mem) 0 addr size m ≡ over mem addr m
  unfolding access_size
  stored_over ptr mem m h fits =
      let n = length mem in
      let start : addr + 0 ≡ addr = omega arith in
      elim (Bool-cases ((ptr % 4 == 0) && ((addr % 4 == 0) && (n % 4 == 0)))) [
        | inl e ↦
            let whole : n % 4 ≡ 0 = ground arith in
            rw e (stored_over2 mem 0 m h whole (omega arith) ∙ ap (λ a. over mem a m) start)
        | inr e ↦ elim (Bool-cases ((ptr % 2 == 0) && ((addr % 2 == 0) && (n % 2 == 0)))) [
          | inl g ↦
              let whole : n % 2 ≡ 0 = ground arith in
              rw (e, g) (stored_over1 mem 0 m h whole (omega arith) ∙ ap (λ a. over mem a m) start)
          | inr g ↦ rw (e, g) (stored_over0 mem 0 m h (omega arith) ∙ ap (λ a. over mem a m) start)
        ]
      ]

-- A write of memory lays the bytes of the buffer over the target's memory at the addresses from `addr`
-- on, changes no other byte, and clears the error flag, whatever size of access the alignments of the
-- buffer, the address and the length lead to. The target is one of 32 bits that runs the memory
-- commands without errors, the buffer holds bytes, and the range does not pass the end of the address
-- space.
pub rv_target_write_memory-bytes :
    (ptr addr : ℕ) (mem : List ℕ) (s : Dm (Module (ℕ → ℕ)))
    → AllBytes mem
    → addr + length mem ≤ 2 ^ 32
    → let s' = rv_target_write_memory (abstract_commands byte_memory) mxl_rv32 ptr mem addr s in
      (s'.under.memory ≡ over mem addr s.under.memory) × (s'.err_flag ≡ false)
unfolding rv_target_write_memory access_size
rv_target_write_memory-bytes ptr addr mem s h fits =
    let size = access_size ptr addr (length mem) in
    let small : access_size ptr addr (length mem) < 3 = ground arith in
    let (m, ok) = rv_memory_write-stored byte_memory (bytes_elements size mem) addr size s small in
    (m ∙ stored_over addr ptr mem s.under.memory h fits, ok)

over-lt :
    (mem : List ℕ) (addr : ℕ) (m : ℕ → ℕ) (a : ℕ)
    → AllBytes mem
    → m a < 2 ^ 8
    → over mem addr m a < 2 ^ 8
over-lt mem addr m a h low = elim (Bool-cases (leb addr a && ltb a (addr + length mem))) [
  | inl e ↦ rw (e) (All-get_or (λ b. b < 2 ^ 8) mem (a - addr) 0 (omega arith) h)
  | inr e ↦ rw (e) low
]

bytes_from-ext :
    (bytes : List ℕ) (a : ℕ) (f : ℕ → ℕ)
    → ((k : ℕ) → k < length bytes → f (a + k) ≡ get_or bytes k 0)
    → bytes_from (length bytes) a f ≡ bytes
unfolding bytes_from
bytes_from-ext [] a f h = refl
bytes_from-ext (b ∷ bytes) a f h =
    let start : a + 0 ≡ a = omega arith in
    let first : f a ≡ b = ap f (sym start) ∙ h 0 (omega arith) in
    let later : (k : ℕ) → k < length bytes → f (a + 1 + k) ≡ get_or bytes k 0 = (λ k lt.
      let next : a + 1 + k ≡ a + suc k = omega arith in ap f next ∙ h (suc k) (omega arith)) in
    rw (first, bytes_from-ext bytes (a + 1) f later) refl

bytes_from-over :
    (mem : List ℕ) (addr : ℕ) (m : ℕ → ℕ) → bytes_from (length mem) addr (over mem addr m) ≡ mem
bytes_from-over mem addr m = bytes_from-ext mem addr (over mem addr m) (λ k lt.
    let inside : (leb addr (addr + k) && ltb (addr + k) (addr + length mem)) ≡ true =
      ground (arith, lt) in
    let place : addr + k - addr ≡ k = omega arith in rw (inside, place) refl)

-- What is written to memory is read back, whatever the alignments of the two buffers are, and the read
-- leaves the memory as the write has left it. The target is one of 32 bits that runs the memory commands without errors, the buffer and the memory hold bytes,
-- and the range does not pass the end of the address space.
pub rv_target_read_memory-rv_target_write_memory :
    (ptr ptr' addr : ℕ) (mem : List ℕ) (s : Dm (Module (ℕ → ℕ)))
    → AllBytes mem
    → ((a : ℕ) → s.under.memory a < 2 ^ 8)
    → addr + length mem ≤ 2 ^ 32
    → let s' = rv_target_write_memory (abstract_commands byte_memory) mxl_rv32 ptr mem addr s in
      let (xs, s'') =
        rv_target_read_memory (abstract_commands byte_memory) mxl_rv32 ptr' addr (length mem) s' in
      (xs ≡ mem) × (s''.under.memory ≡ over mem addr s.under.memory)
rv_target_read_memory-rv_target_write_memory ptr ptr' addr mem s h bytes fits =
    let write = rv_target_write_memory-bytes ptr addr mem s h fits in
    let s' = rv_target_write_memory (abstract_commands byte_memory) mxl_rv32 ptr mem addr s in
    let m = s.under.memory in
    let small : (a : ℕ) → s'.under.memory a < 2 ^ 8 =
      (λ a. rw (write.0) (over-lt mem addr m a h (bytes a))) in
    let read = rv_target_read_memory-bytes ptr' addr (length mem) s' small fits in
    (
      read.0 ∙ (ap (λ f. bytes_from (length mem) addr f) write.0 ∙ bytes_from-over mem addr m),
      read.1 ∙ write.0,
    )
