-- ===== src/Flash/Chip/Erase.antt =====
-- `flash_erase` of flash.c as a sequence of block erases.
use mathlib.Core.Path.{fun_ext}
use nuclei_dlink.Base.{
  ℕ, zero, suc, ◌+◌, ◌-◌, ◌*◌, ◌/◌, ◌%◌, ◌^◌, ◌≤◌, ◌<◌, ◌≡◌, refl, sym, ap, subst, true, false,
  bit_or, Option, some, List, [], ◌∷◌, arith, length,
}
use nuclei_dlink.Base.Maybe.{◌>>=◌}
use nuclei_dlink.Flash.Spi.{Bus, Spi, nuspi_hw, nuspi_cs, nuspi_tx}
use nuclei_dlink.Flash.Chip.{
  block_size, erase_error, with_error, flash_wip, select_tx, erase_block, erase_loop, flash_erase,
}

-- The blocks of the chip, at multiples of their size, lie one behind the other from `addr` on.
abbrev pub IsBlocks : ℕ → List ℕ → Type 0
IsBlocks addr [] = Unit
IsBlocks addr (b ∷ bs) = (b ≡ addr) × (b % block_size ≡ 0) × IsBlocks (addr + block_size) bs

module _ {W : Type 0} (bus : Bus W) (nuspi_addr wip : ℕ) where
  -- The erase of the block at `b`, as the chip wants it: the command 0x06 allows it, and 0xD8 with the
  -- address, the highest byte first, does it; after each the chip is deselected, and it is waited for.
  erase_command : ℕ → ℕ → Spi W → Option (ℕ × Spi W)
  erase_command b retval s = do
    let (allowed, s1) = nuspi_tx bus nuspi_addr (0x06 ∷ []) (nuspi_cs bus nuspi_addr true s)
    let (done, s2) =
        nuspi_tx bus nuspi_addr (0xD8 ∷ b / 2 ^ 16 % 2 ^ 8 ∷ b / 2 ^ 8 % 2 ^ 8 ∷ b % 2 ^ 8 ∷ [])
          (nuspi_cs bus nuspi_addr true (nuspi_cs bus nuspi_addr false s1))
    (ret, s3) ← flash_wip bus nuspi_addr wip (nuspi_cs bus nuspi_addr false s2)
    some (bit_or (bit_or (bit_or retval allowed) done) ret, s3)

  -- The block erases in their order, with their results collected.
  pub erase_blocks : List ℕ → ℕ → Spi W → Option (ℕ × Spi W)
  erase_blocks [] retval s = some (retval, s)
  erase_blocks (b ∷ bs) retval s = do (ret, s') ← erase_command b retval s; erase_blocks bs ret s'

blocks : ℕ → ℕ → List ℕ
blocks zero addr = []
blocks (suc n) addr = addr ∷ blocks n ((addr + block_size) % 2 ^ 32)

length-blocks : (n addr : ℕ) → length (blocks n addr) ≡ n
unfolding blocks
length-blocks zero addr = refl
length-blocks (suc n) addr = ap suc (length-blocks n ((addr + block_size) % 2 ^ 32))

blocks-IsBlocks :
    (n addr : ℕ)
    → addr % block_size ≡ 0
    → addr + n * block_size ≤ 2 ^ 32
    → IsBlocks addr (blocks n addr)
unfolding blocks
blocks-IsBlocks zero addr at h = tt
blocks-IsBlocks (suc zero) addr at h = (refl, at, tt)
blocks-IsBlocks (suc (suc n)) addr at h =
    let e : addr + block_size ≡ (addr + block_size) % 2 ^ 32 = omega arith in
    (
      refl,
      at,
      subst (λ a. IsBlocks a (blocks (suc n) ((addr + block_size) % 2 ^ 32))) (sym e)
          (blocks-IsBlocks (suc n) ((addr + block_size) % 2 ^ 32) (omega arith) (omega arith)),
    )

erase_loop-blocks :
    {W : Type 0} (bus : Bus W) (nuspi_addr wip n addr retval : ℕ) (s : Spi W)
    → erase_loop bus nuspi_addr wip n addr retval s
      ≡ erase_blocks bus nuspi_addr wip (blocks n addr) retval s
unfolding erase_loop erase_block erase_blocks erase_command blocks select_tx
erase_loop-blocks bus a wip zero addr retval s = refl
erase_loop-blocks bus a wip (suc n) addr retval s =
    ap (λ k. erase_command bus a wip addr retval s >>= k)
      (fun_ext λ r. erase_loop-blocks bus a wip n ((addr + block_size) % 2 ^ 32) r.0 r.1)

-- An erase of a range of 32-bit addresses, which starts at a block of the chip and whose start is not
-- behind its end, erases whole blocks, one behind the other from its start on, each with the commands
-- that the chip wants: as many as fit into the range, so that nothing is erased of a rest that is
-- smaller than a block.
pub flash_erase-IsBlocks :
    {W : Type 0} (bus : Bus W) (nuspi_addr wip start_addr end_addr : ℕ) (s : Spi W)
    → start_addr % block_size ≡ 0
    → start_addr ≤ end_addr
    → end_addr < 2 ^ 32
    → (bs : List ℕ) × IsBlocks start_addr bs
      × (start_addr + length bs * block_size ≤ end_addr)
      × (end_addr < start_addr + length bs * block_size + block_size)
      × (flash_erase bus nuspi_addr wip start_addr end_addr s ≡ (
          erase_blocks bus nuspi_addr wip bs 0 (nuspi_hw bus nuspi_addr false s) >>= λ r.
          some (with_error r.0 erase_error, nuspi_hw bus nuspi_addr true r.1)))
unfolding flash_erase
flash_erase-IsBlocks bus a wip start_addr end_addr s at order fits =
    let n = (end_addr + 2 ^ 32 - start_addr) % 2 ^ 32 / block_size in
    (
      blocks n start_addr,
      blocks-IsBlocks n start_addr at (omega arith),
      omega (arith, length-blocks n start_addr),
      omega (arith, length-blocks n start_addr),
      ap (λ m. m >>= λ r. some (with_error r.0 erase_error, nuspi_hw bus a true r.1))
          (erase_loop-blocks bus a wip n start_addr 0 (nuspi_hw bus a false s)),
    )
