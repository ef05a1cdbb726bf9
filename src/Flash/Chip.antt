-- ===== src/Flash/Chip.antt =====
-- The commands of the flash chip: `flash_…` of flash.c. A function returns its result and the new
-- state, or `none` when the chip stays busy for longer than `wip` polls.
pub mod Pages
pub mod Erase
mod Tests
use nuclei_dlink.Base.{
  ℕ, zero, suc, ◌+◌, ◌-◌, ◌*◌, ◌/◌, ◌%◌, ◌^◌, bit_or, Bool, true, false, Option, none, some, List,
  [], ◌∷◌, ◌==◌, leb, if◌then◌else◌, take, drop, get_or, length,
}
use nuclei_dlink.Base.Maybe.{◌>>=◌}
use nuclei_dlink.Flash.Spi.{Bus, Spi, nuspi_init, nuspi_hw, nuspi_cs, nuspi_tx, nuspi_rx}

abbrev pub page_size : ℕ
page_size = 0x100

abbrev pub block_size : ℕ
block_size = 0x10000

abbrev pub wip_error : ℕ
wip_error = 0x1

abbrev pub erase_error : ℕ
erase_error = 0x2

abbrev pub write_error : ℕ
write_error = 0x4

abbrev pub read_error : ℕ
read_error = 0x8

-- `return retval | error` of a result that is not 0.
abbrev pub with_error : ℕ → ℕ → ℕ
with_error retval error = if retval == 0 then 0 else bit_or retval error

-- A command byte and the low 24 bits of an address, the highest first.
abbrev pub addressed : ℕ → ℕ → List ℕ
addressed command addr = command ∷ addr / 2 ^ 16 % 2 ^ 8 ∷ addr / 2 ^ 8 % 2 ^ 8 ∷ addr % 2 ^ 8 ∷ []

-- The bytes that a round programs.
pub page_count : ℕ → ℕ → ℕ
page_count cur_offset count =
    if leb page_size ((cur_offset + count) % 2 ^ 32) then page_size - cur_offset else count

module _ {W : Type 0} (bus : Bus W) (nuspi_addr : ℕ) (wip : ℕ) where
  -- The loop of `flash_wip`; `value` is the variable that the status byte is read into.
  pub wip_loop : ℕ → ℕ → ℕ → Spi W → Option (ℕ × Spi W)
  wip_loop zero value retval s = none
  wip_loop (suc fuel) value retval s =
      let (ret, bytes, s') = nuspi_rx bus nuspi_addr 1 s in
      let status = get_or bytes 0 value in
      let more = wip_loop fuel status (bit_or retval ret) s' in
      if status % 2 == 0 then some (bit_or retval ret, s') else more

  pub flash_wip : Spi W → Option (ℕ × Spi W)
  flash_wip s = do
    let (ret, s1) = nuspi_tx bus nuspi_addr (0x05 ∷ []) (nuspi_cs bus nuspi_addr true s)
    (retval, s2) ← wip_loop wip 0x05 ret s1
    some (with_error retval wip_error, nuspi_cs bus nuspi_addr false s2)

  -- A command between the two settings of the chip select.
  pub select_tx : List ℕ → ℕ → Spi W → ℕ × Spi W
  select_tx bytes retval s =
      let (ret, s') = nuspi_tx bus nuspi_addr bytes (nuspi_cs bus nuspi_addr true s) in
      (bit_or retval ret, nuspi_cs bus nuspi_addr false s')

  -- The identifier, whatever the transfers returned.
  pub flash_init : Spi W → Option (ℕ × Spi W)
  flash_init s = do
    s1 ← nuspi_init bus nuspi_addr wip s
    let s2 = nuspi_cs bus nuspi_addr true (nuspi_hw bus nuspi_addr false s1)
    let (ret, s3) = nuspi_tx bus nuspi_addr (0x9F ∷ []) s2
    let (ret', id, s4) = nuspi_rx bus nuspi_addr 3 s3
    let s5 = nuspi_hw bus nuspi_addr true (nuspi_cs bus nuspi_addr false s4)
    let low = bit_or (get_or id 2 0 * 2 ^ 16) (get_or id 1 0 * 2 ^ 8)
    some (bit_or low (get_or id 0 0x9F), s5)

  -- One round of the loop of `flash_erase`.
  pub erase_block : ℕ → ℕ → Spi W → Option (ℕ × Spi W)
  erase_block addr retval s = do
    let (enabled, s1) = select_tx (0x06 ∷ []) retval s
    let (sent, s2) = select_tx (addressed 0xD8 addr) enabled s1
    (ret, s3) ← flash_wip s2
    some (bit_or sent ret, s3)

  pub erase_loop : ℕ → ℕ → ℕ → Spi W → Option (ℕ × Spi W)
  erase_loop zero addr retval s = some (retval, s)
  erase_loop (suc n) addr retval s = do
    (ret, s') ← erase_block addr retval s
    erase_loop n ((addr + block_size) % 2 ^ 32) ret s'

  pub flash_erase : ℕ → ℕ → Spi W → Option (ℕ × Spi W)
  flash_erase start_addr end_addr s = do
    let sector_num = (end_addr + 2 ^ 32 - start_addr) % 2 ^ 32 / block_size
    (ret, s') ← erase_loop sector_num start_addr 0 (nuspi_hw bus nuspi_addr false s)
    some (with_error ret erase_error, nuspi_hw bus nuspi_addr true s')

  -- One round of the loop of `flash_write`, for the bytes that go into one page.
  pub program_page : ℕ → List ℕ → ℕ → Spi W → Option (ℕ × Spi W)
  program_page offset bytes retval s = do
    let (enabled, s1) = select_tx (0x06 ∷ []) retval s
    let (addr_ret, s2) =
        nuspi_tx bus nuspi_addr (addressed 0x02 offset) (nuspi_cs bus nuspi_addr true s1)
    let (data_ret, s3) = nuspi_tx bus nuspi_addr bytes s2
    (ret, s4) ← flash_wip (nuspi_cs bus nuspi_addr false s3)
    some (bit_or (bit_or (bit_or enabled addr_ret) data_ret) ret, s4)

  -- The loop, with `buffer` the memory from the pointer on; each round programs a byte at least,
  -- so `count` rounds are enough.
  pub write_loop : ℕ → ℕ → ℕ → List ℕ → ℕ → ℕ → Spi W → Option (ℕ × Spi W)
  write_loop rounds cur_offset offset buffer zero retval s = some (retval, s)
  write_loop zero cur_offset offset buffer (suc count) retval s = none
  write_loop (suc rounds) cur_offset offset buffer (suc count) retval s = do
    let n = page_count cur_offset (suc count)
    (ret, s') ← program_page offset (take n buffer) retval s
    write_loop rounds 0 ((offset + n) % 2 ^ 32) (drop n buffer) (suc count - n) ret s'

  pub flash_write : List ℕ → ℕ → ℕ → Spi W → Option (ℕ × Spi W)
  flash_write buffer offset count s = do
    (ret, s') ←
        write_loop count (offset % page_size) offset buffer count 0
          (nuspi_hw bus nuspi_addr false s)
    some (with_error ret write_error, nuspi_hw bus nuspi_addr true s')

  -- With the bytes that were stored in the buffer.
  pub flash_read : ℕ → ℕ → Spi W → Option (ℕ × List ℕ × Spi W)
  flash_read offset count s = do
    let s1 = nuspi_cs bus nuspi_addr true (nuspi_hw bus nuspi_addr false s)
    let (sent, s2) = nuspi_tx bus nuspi_addr (addressed 0x03 offset) s1
    let (got, bytes, s3) = nuspi_rx bus nuspi_addr count s2
    (ret, s4) ← flash_wip (nuspi_cs bus nuspi_addr false s3)
    let retval = bit_or (bit_or sent got) ret
    some (with_error retval read_error, bytes, nuspi_hw bus nuspi_addr true s4)
