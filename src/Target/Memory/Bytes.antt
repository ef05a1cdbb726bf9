-- ===== src/Target/Memory/Bytes.antt =====
-- `rv_target_read_memory` of riscv-target.c over a memory of bytes.
use nuclei_dlink.Base.{
  ℕ, zero, suc, ◌+◌, ◌-◌, ◌*◌, ◌/◌, ◌%◌, ◌^◌, ◌≤◌, ◌<◌, ◌≡◌, refl, ap, ◌∙◌, false, ◌&&◌, List, [],
  ◌∷◌, arith, ◌==◌, leb, ltb, if◌then◌else◌, Bool-cases, inl, inr,
}
use nuclei_dlink.Target.Memory.{
  Dm, mxl_rv32, element_bytes, elements_bytes, access_size, rv_target_read_memory,
}
use nuclei_dlink.Target.Memory.Commands.{
  Memory, Module, abstract_commands, loaded, rv_memory_read-loaded,
}

-- Memory by bytes, the lowest byte of an element at the lowest address.
unfoldable pub load_bytes : ℕ → ℕ → (ℕ → ℕ) → ℕ
load_bytes zero a m = m a
load_bytes (suc zero) a m = m a + m (a + 1) * 2 ^ 8
load_bytes (suc (suc size)) a m = m a + m (a + 1) * 2 ^ 8 + m (a + 2) * 2 ^ 16 + m (a + 3) * 2 ^ 24

unfoldable pub byte_memory : Memory (ℕ → ℕ)
byte_memory = record {
  load = load_bytes;
  store = λ size addr value m a.
      if leb addr a && ltb a (addr + 2 ^ size) then value / 2 ^ (8 * (a - addr)) % 2 ^ 8 else m a;
}

unfoldable pub bytes_from : ℕ → ℕ → (ℕ → ℕ) → List ℕ
bytes_from zero a m = []
bytes_from (suc n) a m = m a ∷ bytes_from n (a + 1) m

module _ (m : ℕ → ℕ) (bytes : (a : ℕ) → m a < 2 ^ 8) where
  loaded_bytes0 :
      (n i addr : ℕ)
      → addr + (i + n) ≤ 2 ^ 32
      → elements_bytes 0 (loaded byte_memory n i addr 0 m) ≡ bytes_from n (addr + i) m
  unfolding elements_bytes element_bytes loaded byte_memory load_bytes bytes_from
  loaded_bytes0 zero i addr fits = refl
  loaded_bytes0 (suc n) i addr fits =
      let e : (addr + i * 2 ^ 0) % 2 ^ 32 ≡ addr + i = omega arith in
      let v : m (addr + i) % 2 ^ 8 % 2 ^ 8 ≡ m (addr + i) = omega (arith, bytes (addr + i)) in
      let next : addr + i + 1 ≡ addr + suc i = omega arith in
      rw (e, v, next) (ap (λ l. m (addr + i) ∷ l) (loaded_bytes0 n (suc i) addr (omega arith)))

  loaded_bytes1 :
      (n i addr : ℕ)
      → addr + (i + n) * 2 ≤ 2 ^ 32
      → elements_bytes 1 (loaded byte_memory n i addr 1 m) ≡ bytes_from (n * 2) (addr + i * 2) m
  unfolding elements_bytes element_bytes loaded byte_memory load_bytes bytes_from
  loaded_bytes1 zero i addr fits = refl
  loaded_bytes1 (suc n) i addr fits =
      let a = addr + i * 2 in
      let e : (addr + i * 2 ^ 1) % 2 ^ 32 ≡ a = omega arith in
      let b0 : (m a + m (a + 1) * 2 ^ 8) % 2 ^ 16 % 2 ^ 8 ≡ m a = omega (arith, bytes a) in
      let b1 : (m a + m (a + 1) * 2 ^ 8) % 2 ^ 16 / 2 ^ 8 % 2 ^ 8 ≡ m (a + 1) =
        omega (arith, bytes a, bytes (a + 1)) in
      let double : suc n * 2 ≡ suc (suc (n * 2)) = omega arith in
      let next : a + 1 + 1 ≡ addr + suc i * 2 = omega arith in
      rw (e, b0, b1, double, next)
        (ap (λ l. m a ∷ m (a + 1) ∷ l) (loaded_bytes1 n (suc i) addr (omega arith)))

  loaded_bytes2 :
      (n i addr : ℕ)
      → addr + (i + n) * 4 ≤ 2 ^ 32
      → elements_bytes 2 (loaded byte_memory n i addr 2 m) ≡ bytes_from (n * 4) (addr + i * 4) m
  unfolding elements_bytes element_bytes loaded byte_memory load_bytes bytes_from
  loaded_bytes2 zero i addr fits = refl
  loaded_bytes2 (suc n) i addr fits =
      let a = addr + i * 4 in
      let w = m a + m (a + 1) * 2 ^ 8 + m (a + 2) * 2 ^ 16 + m (a + 3) * 2 ^ 24 in
      let e : (addr + i * 2 ^ 2) % 2 ^ 32 ≡ a = omega arith in
      let b0 : w % 2 ^ 32 % 2 ^ 8 ≡ m a = omega (arith, bytes a) in
      let b1 : w % 2 ^ 32 / 2 ^ 8 % 2 ^ 8 ≡ m (a + 1) = omega (arith, bytes a, bytes (a + 1)) in
      let b2 : w % 2 ^ 32 / 2 ^ 16 % 2 ^ 8 ≡ m (a + 2) =
        omega (arith, bytes a, bytes (a + 1), bytes (a + 2)) in
      let b3 : w % 2 ^ 32 / 2 ^ 24 % 2 ^ 8 ≡ m (a + 3) =
        omega (arith, bytes a, bytes (a + 1), bytes (a + 2), bytes (a + 3)) in
      let four : suc n * 4 ≡ suc (suc (suc (suc (n * 4)))) = omega arith in
      let n2 : a + 1 + 1 ≡ a + 2 = omega arith in
      let n3 : a + 2 + 1 ≡ a + 3 = omega arith in
      let next : a + 3 + 1 ≡ addr + suc i * 4 = omega arith in
      rw (e, b0, b1, b2, b3, four, n2, n3, next)
        (ap (λ l. m a ∷ m (a + 1) ∷ m (a + 2) ∷ m (a + 3) ∷ l)
          (loaded_bytes2 n (suc i) addr (omega arith)))

  from_start : (addr : ℕ) (k len : ℕ) → k ≡ len → bytes_from k (addr + 0) m ≡ bytes_from len addr m
  from_start addr k len e =
      let start : addr + 0 ≡ addr = omega arith in
      ap (λ k. bytes_from k (addr + 0) m) e ∙ ap (λ a. bytes_from len a m) start

  loaded_bytes :
      (ptr addr len : ℕ)
      → addr + len ≤ 2 ^ 32
      → let size = access_size ptr addr len in
        elements_bytes size (loaded byte_memory (len / 2 ^ size) 0 addr size m)
        ≡ bytes_from len addr m
  unfolding access_size
  loaded_bytes ptr addr len fits =
      elim (Bool-cases ((ptr % 4 == 0) && ((addr % 4 == 0) && (len % 4 == 0)))) [
        | inl h ↦
            let whole : len / 2 ^ 2 * 4 ≡ len = ground arith in
            rw h (loaded_bytes2 (len / 2 ^ 2) 0 addr (omega arith) ∙ from_start addr _ len whole)
        | inr h ↦ elim (Bool-cases ((ptr % 2 == 0) && ((addr % 2 == 0) && (len % 2 == 0)))) [
          | inl g ↦
              let whole : len / 2 ^ 1 * 2 ≡ len = ground arith in
              rw (h, g)
                (loaded_bytes1 (len / 2 ^ 1) 0 addr (omega arith) ∙ from_start addr _ len whole)
          | inr g ↦
              let whole : len / 2 ^ 0 ≡ len = omega arith in
              rw (h, g)
                (loaded_bytes0 (len / 2 ^ 0) 0 addr (omega arith) ∙ from_start addr _ len whole)
        ]
      ]

-- A read of memory fills the buffer with the bytes of the target's memory at the addresses from `addr`
-- on, whatever size of access the alignments of the buffer, the address and the length lead to, and
-- leaves the memory as it was. The target is one of 32 bits that runs the memory commands without
-- errors, its memory holds bytes, and the range does not pass the end of the address space.
pub rv_target_read_memory-bytes :
    (ptr addr len : ℕ) (s : Dm (Module (ℕ → ℕ)))
    → ((a : ℕ) → s.under.memory a < 2 ^ 8)
    → addr + len ≤ 2 ^ 32
    → let (xs, s') =
        rv_target_read_memory (abstract_commands byte_memory) mxl_rv32 ptr addr len s in
      (xs ≡ bytes_from len addr s.under.memory)
      × (s'.under.memory ≡ s.under.memory)
      × (s'.err_flag ≡ false)
unfolding rv_target_read_memory access_size
rv_target_read_memory-bytes ptr addr len s bytes fits =
    let size = access_size ptr addr len in
    let small : access_size ptr addr len < 3 = ground arith in
    let (xs, same, ok) = rv_memory_read-loaded byte_memory addr (len / 2 ^ size) size s small in
    (ap (elements_bytes size) xs ∙ loaded_bytes s.under.memory bytes ptr addr len fits, same, ok)
