-- ===== src/Target/Memory/Halves.antt =====
-- Halfwords of memory that are read, written over, and written back, as for a software breakpoint.
use mathlib.Core.Path.{fun_ext}
use nuclei_dlink.Base.{
  ℕ, zero, suc, ◌+◌, ◌-◌, ◌*◌, ◌%◌, ◌^◌, ◌≤◌, ◌<◌, ◌≡◌, refl, ap, ◌∙◌, List, [], ◌∷◌, arith, length,
  get_or,
}
use nuclei_dlink.Target.Memory.{bytes_elements, element}
use nuclei_dlink.Target.Memory.Commands.{loaded, stored}
use nuclei_dlink.Target.Memory.Bytes.{byte_memory, load_bytes, bytes_from}
use nuclei_dlink.Target.Memory.Stores.{over, AllBytes, stored_over1}

module _ (m : ℕ → ℕ) where
  length-bytes_from : (n a : ℕ) → length (bytes_from n a m) ≡ n
  unfolding bytes_from
  length-bytes_from zero a = refl
  length-bytes_from (suc n) a = ap suc (length-bytes_from n (a + 1))

  get_or-bytes_from : (n a k : ℕ) → k < n → get_or (bytes_from n a m) k 0 ≡ m (a + k)
  unfolding bytes_from
  get_or-bytes_from zero a k lt = absurd (omega arith)
  get_or-bytes_from (suc n) a zero lt = ap m (omega arith)
  get_or-bytes_from (suc n) a (suc k) lt =
      get_or-bytes_from n (a + 1) k (omega arith) ∙ ap m (omega arith)

  -- What lay over a part of the memory is gone when the part is laid back.
  over_back : (n a : ℕ) (ys : List ℕ) → length ys ≡ n → over (bytes_from n a m) a (over ys a m) ≡ m
  over_back n a ys size =
      fun_ext
        (λ c. ground (arith, size, length-bytes_from n a, get_or-bytes_from n a (c - a), at c))
    where
      at : (c : ℕ) → a ≤ c → m (a + (c - a)) ≡ m c
      at c le = ap m (omega arith)

  module _ (small : (a : ℕ) → m a < 2 ^ 8) where
    AllBytes-bytes_from : (n a : ℕ) → AllBytes (bytes_from n a m)
    unfolding bytes_from
    AllBytes-bytes_from zero a = tt
    AllBytes-bytes_from (suc n) a = (small a, AllBytes-bytes_from n (a + 1))

    loaded_half :
        (addr : ℕ)
        → addr + 2 ≤ 2 ^ 32
        → loaded byte_memory 1 0 addr 1 m ≡ bytes_elements 1 (bytes_from 2 addr m)
    unfolding loaded byte_memory load_bytes bytes_elements bytes_from
    loaded_half addr fits =
        let e : (addr + 0 * 2 ^ 1) % 2 ^ 32 ≡ addr = omega arith in
        let v : element 1 (m addr + m (addr + 1) * 2 ^ 8) ≡ m addr + m (addr + 1) * 2 ^ 8 =
          omega (arith, small addr, small (addr + 1)) in
        rw (e, v) refl

    loaded_halves :
        (addr : ℕ)
        → addr + 4 ≤ 2 ^ 32
        → loaded byte_memory 2 0 addr 1 m ≡ bytes_elements 1 (bytes_from 4 addr m)
    unfolding loaded byte_memory load_bytes bytes_elements bytes_from
    loaded_halves addr fits =
        let e0 : (addr + 0 * 2 ^ 1) % 2 ^ 32 ≡ addr = omega arith in
        let e1 : (addr + 1 * 2 ^ 1) % 2 ^ 32 ≡ addr + 1 + 1 = omega arith in
        let v0 : element 1 (m addr + m (addr + 1) * 2 ^ 8) ≡ m addr + m (addr + 1) * 2 ^ 8 =
          omega (arith, small addr, small (addr + 1)) in
        let v1 : element 1 (m (addr + 1 + 1) + m (addr + 1 + 1 + 1) * 2 ^ 8)
            ≡ m (addr + 1 + 1) + m (addr + 1 + 1 + 1) * 2 ^ 8 =
          omega (arith, small (addr + 1 + 1), small (addr + 1 + 1 + 1)) in
        rw (e0, e1, v0, v1) refl

    -- The halfwords that were read are written back over others.
    halves_back :
        (n addr : ℕ) (halves ys : List ℕ)
        → halves ≡ bytes_elements 1 (bytes_from n addr m)
        → n % 2 ≡ 0
        → length ys ≡ n
        → AllBytes ys
        → addr + n ≤ 2 ^ 32
        → stored byte_memory halves 0 addr 1 (stored byte_memory (bytes_elements 1 ys) 0 addr 1 m)
          ≡ m
    halves_back n addr halves ys read even size good fits =
        let start : addr + 0 * 2 ^ 1 ≡ addr = omega arith in
        let mid = stored byte_memory (bytes_elements 1 ys) 0 addr 1 m in
        let laid : mid ≡ over ys addr m =
          stored_over1 addr ys 0 m good (omega (arith, size)) (omega (arith, size))
          ∙ ap (λ a. over ys a m) start in
        rw (read) (
          stored_over1 addr (bytes_from n addr m) 0 mid (AllBytes-bytes_from n addr)
            (omega (arith, length-bytes_from n addr)) (omega (arith, length-bytes_from n addr))
          ∙ ap (λ a. over (bytes_from n addr m) a mid) start
          ∙ ap (over (bytes_from n addr m) addr) laid
          ∙ over_back n addr ys size)

    -- The two encodings of ebreak.
    pub half_back :
        (addr : ℕ)
        → addr + 2 ≤ 2 ^ 32
        → stored byte_memory
            (loaded byte_memory 1 0 addr 1 m)
            0
            addr
            1
            (stored byte_memory (0x9002 ∷ []) 0 addr 1 m)
          ≡ m
    unfolding bytes_elements
    half_back addr fits =
        halves_back 2 addr (loaded byte_memory 1 0 addr 1 m) (0x02 ∷ 0x90 ∷ [])
          (loaded_half addr fits) refl refl (omega arith, (omega arith, tt)) fits

    pub halves_pair_back :
        (addr : ℕ)
        → addr + 4 ≤ 2 ^ 32
        → stored byte_memory
            (loaded byte_memory 2 0 addr 1 m)
            0
            addr
            1
            (stored byte_memory (0x0073 ∷ 0x0010 ∷ []) 0 addr 1 m)
          ≡ m
    unfolding bytes_elements
    halves_pair_back addr fits =
        halves_back 4 addr (loaded byte_memory 2 0 addr 1 m) (0x73 ∷ 0x00 ∷ 0x10 ∷ 0x00 ∷ [])
          (loaded_halves addr fits) refl refl
          (omega arith, (omega arith, (omega arith, (omega arith, tt)))) fits
