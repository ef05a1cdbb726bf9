-- ===== src/Flash/Chip/Pages.antt =====
-- `flash_write` of flash.c as a sequence of page programs.
use native.Mathlib.Decide.{dec_lt}
use mathlib.Core.Path.{fun_ext}
use nuclei_dlink.Base.{
  ℕ, zero, suc, ◌+◌, ◌-◌, ◌%◌, ◌^◌, ◌≤◌, ◌<◌, ◌≡◌, refl, ap, subst, ◌∙◌, true, false, Option, some,
  List, [], ◌∷◌, ◌++◌, arith, length, take, drop, length-take, length-drop, take-drop-append,
}
use nuclei_dlink.Base.Maybe.{◌>>=◌}
use nuclei_dlink.Flash.Spi.{Bus, Spi, nuspi_hw}
use nuclei_dlink.Flash.Chip.{
  page_size, write_error, with_error, program_page, page_count, write_loop, flash_write,
}

-- What one page program of the chip is given.
pub record Page : Type 0 where
  pub addr : ℕ
  pub bytes : List ℕ

-- The pages lie one behind the other from `addr` on, and none crosses a page boundary of the chip.
abbrev pub IsRun : ℕ → List Page → Type 0
IsRun addr [] = Unit
IsRun addr (p ∷ ps) =
    (p.addr ≡ addr)
    × (1 ≤ length p.bytes)
    × (addr % page_size + length p.bytes ≤ page_size)
    × IsRun (addr + length p.bytes) ps

pub contents : List Page → List ℕ
contents [] = []
contents (p ∷ ps) = p.bytes ++ contents ps

module _ {W : Type 0} (bus : Bus W) (nuspi_addr wip : ℕ) where
  -- The page programs in their order, with their results collected.
  pub program_pages : List Page → ℕ → Spi W → Option (ℕ × Spi W)
  program_pages [] retval s = some (retval, s)
  program_pages (p ∷ ps) retval s = do
    (ret, s') ← program_page bus nuspi_addr wip p.addr p.bytes retval s
    program_pages ps ret s'

page_count_lem :
    (cur count : ℕ)
    → 0 < count
    → cur < page_size
    → cur + count < 2 ^ 32
    → (1 ≤ page_count cur count)
      × (page_count cur count ≤ count)
      × (cur + page_count cur count ≤ page_size)
      × (page_count cur count < count → cur + page_count cur count ≡ page_size)
unfolding page_count
page_count_lem cur count pos small fits = ground arith

-- The pages of the loop.
pub pages : ℕ → ℕ → ℕ → List ℕ → ℕ → List Page
pages rounds cur offset buffer zero = []
pages zero cur offset buffer (suc count) = []
pages (suc rounds) cur offset buffer (suc count) =
    let n = page_count cur (suc count) in
    record { addr = offset; bytes = take n buffer }
    ∷ pages rounds 0 ((offset + n) % 2 ^ 32) (drop n buffer) (suc count - n)

write_loop-pages :
    {W : Type 0} (bus : Bus W) (nuspi_addr wip rounds cur offset : ℕ) (buffer : List ℕ)
    (count retval : ℕ) (s : Spi W)
    → count ≤ rounds
    → cur < page_size
    → cur + count < 2 ^ 32
    → write_loop bus nuspi_addr wip rounds cur offset buffer count retval s
      ≡ program_pages bus nuspi_addr wip (pages rounds cur offset buffer count) retval s
unfolding write_loop program_pages pages
write_loop-pages bus a wip rounds cur offset buffer zero retval s h small fits = refl
write_loop-pages bus a wip zero cur offset buffer (suc count) retval s h small fits =
    absurd (omega arith)
write_loop-pages bus a wip (suc rounds) cur offset buffer (suc count) retval s h small fits =
    let n = page_count cur (suc count) in
    ap (λ k. program_page bus a wip offset (take n buffer) retval s >>= k)
      (fun_ext λ r.
        write_loop-pages bus a wip rounds 0 ((offset + n) % 2 ^ 32) (drop n buffer) (suc count - n)
          r.0 r.1 (omega (arith, page_count_lem cur (suc count) (omega arith) small fits))
          (omega arith) (omega arith))

pages-IsRun :
    (rounds cur offset : ℕ) (buffer : List ℕ) (count : ℕ)
    → count ≤ rounds
    → (0 < count → cur ≡ offset % page_size)
    → cur < page_size
    → count ≤ length buffer
    → offset + count ≤ 2 ^ 32
    → cur + count < 2 ^ 32
    → IsRun offset (pages rounds cur offset buffer count)
      × (contents (pages rounds cur offset buffer count) ≡ take count buffer)
unfolding pages contents
pages-IsRun rounds cur offset buffer zero h at small enough fits room = (tt, refl)
pages-IsRun zero cur offset buffer (suc count) h at small enough fits room = absurd (omega arith)
pages-IsRun (suc rounds) cur offset buffer (suc count) h at small enough fits room =
    let after = λ (more : n < suc count).
      pages-IsRun rounds 0 ((offset + n) % 2 ^ 32) (drop n buffer) (suc count - n)
        (omega (arith, bounds)) (λ pos. omega (arith, bounds.3 more, at (omega arith)))
        (omega arith) (omega (arith, length-drop n buffer, bounds)) (omega (arith, bounds))
        (omega arith) in
    (
      (
        refl,
        omega (arith, size, bounds),
        omega (arith, size, at (omega arith), bounds),
        (rest after).0,
      ),
      ap (λ l. take n buffer ++ l) (rest after).1
          ∙ take-drop-append n (suc count - n) buffer
          ∙ ap (λ (k : ℕ). take k buffer) whole,
    )
  where
    n : ℕ
    n = page_count cur (suc count)

    bounds :
        (1 ≤ n) × (n ≤ suc count) × (cur + n ≤ page_size) × (n < suc count → cur + n ≡ page_size)
    bounds = page_count_lem cur (suc count) (omega arith) small room

    whole : n + (suc count - n) ≡ suc count
    whole = omega (arith, bounds)

    size : length (take n buffer) ≡ n
    size = omega (arith, length-take n buffer, bounds)

    later : ℕ → List Page
    later k = pages rounds 0 ((offset + n) % 2 ^ 32) (drop n buffer) k

    IsRest : ℕ → ℕ → Type 0
    IsRest a k = IsRun a (later k) × (contents (later k) ≡ take k (drop n buffer))

    rest :
        (n < suc count → IsRest ((offset + n) % 2 ^ 32) (suc count - n))
        → IsRest (offset + length (take n buffer)) (suc count - n)
    rest after = elim (dec_lt n (suc count)) [
      | yes more ↦ subst (λ a. IsRest a (suc count - n)) (omega (arith, size)) (after more)
      | no all ↦
          let gone : 0 ≡ suc count - n = omega (arith, bounds) in
          subst (IsRest (offset + length (take n buffer))) gone (tt, refl)
    ]

-- A write programs a run of pages: they hold the bytes in order, are addressed one behind the other
-- from `offset` on, and no page program crosses a page boundary of the chip. The range must lie
-- in 32 bits of address with a page to spare.
pub flash_write-pages :
    {W : Type 0} (bus : Bus W) (nuspi_addr wip : ℕ) (s : Spi W) (buffer : List ℕ) (offset count : ℕ)
    → count ≤ length buffer
    → offset + count ≤ 2 ^ 32
    → count + page_size ≤ 2 ^ 32
    → (ps : List Page) × IsRun offset ps
      × (contents ps ≡ take count buffer)
      × (flash_write bus nuspi_addr wip buffer offset count s ≡ (
          program_pages bus nuspi_addr wip ps 0 (nuspi_hw bus nuspi_addr false s) >>= λ r.
          some (with_error r.0 write_error, nuspi_hw bus nuspi_addr true r.1)))
unfolding flash_write
flash_write-pages bus a wip s buffer offset count enough fits room =
    let (run, whole) =
      pages-IsRun count (offset % page_size) offset buffer count (omega arith) (λ pos. refl)
        (omega arith) enough fits (omega arith) in
    (
      pages count (offset % page_size) offset buffer count,
      run,
      whole,
      ap (λ m. m >>= λ r. some (with_error r.0 write_error, nuspi_hw bus a true r.1))
          (write_loop-pages bus a wip count (offset % page_size) offset buffer count 0
            (nuspi_hw bus a false s) (omega arith) (omega arith) (omega arith)),
    )
