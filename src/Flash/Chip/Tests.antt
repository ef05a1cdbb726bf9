-- ===== src/Flash/Chip/Tests.antt =====
-- flash.c on a bus whose reads all give one value and whose state counts the writes.
use nuclei_dlink.Base.{
  ℕ, suc, ◌+◌, ◌*◌, ◌<◌, ◌≤◌, ◌≡◌, ◌↔◌, true, false, some, List, [], ◌∷◌, arith, length, take,
}
use nuclei_dlink.Base.Maybe.{◌>>=◌}
use nuclei_dlink.Flash.Spi.{Bus, Spi, bit, poll, reg_ip, nuspi_hw}
use nuclei_dlink.Flash.Spi.Poll.{reads, poll-zero_iff}
use nuclei_dlink.Flash.Chip.{
  block_size, write_error, erase_error, with_error, flash_write, flash_erase,
}
use nuclei_dlink.Flash.Chip.Pages.{Page, IsRun, contents, program_pages, flash_write-pages}
use nuclei_dlink.Flash.Chip.Erase.{IsBlocks, erase_blocks, flash_erase-IsBlocks}

abbrev constant : Bus ℕ
constant = record { read_word = λ addr old w. (2, w); write_word = λ addr value w. suc w }

abbrev idle : Spi ℕ
idle = record { is_nuspi = false; world = 0 }

poll-zero_iff_example : ((poll constant 0x10014000 reg_ip (λ v. bit 0 v) 2 0 idle).0 ≡ 0) ↔ (
    ((i : ℕ) → i < 1 → bit 0 (reads constant 0x10014000 reg_ip (suc i) 0 idle).0 ≡ false)
    × (bit 0 (reads constant 0x10014000 reg_ip 2 0 idle).0 ≡ true))
poll-zero_iff_example = poll-zero_iff constant 0x10014000 reg_ip (λ v. bit 0 v) 1 0 idle

flash_write-pages_example :
    (ps : List Page) × IsRun 0xFE ps
    × (contents ps ≡ take 3 (7 ∷ 8 ∷ 9 ∷ []))
    × (flash_write constant 0x10014000 4 (7 ∷ 8 ∷ 9 ∷ []) 0xFE 3 idle ≡ (
        program_pages constant 0x10014000 4 ps 0 (nuspi_hw constant 0x10014000 false idle) >>= λ r.
        some (with_error r.0 write_error, nuspi_hw constant 0x10014000 true r.1)))
flash_write-pages_example =
    flash_write-pages constant 0x10014000 4 idle (7 ∷ 8 ∷ 9 ∷ []) 0xFE 3 (omega arith) (omega arith)
      (omega arith)

flash_erase-IsBlocks_example :
    (bs : List ℕ) × IsBlocks 0x20000 bs
    × (0x20000 + length bs * block_size ≤ 0x38000)
    × (0x38000 < 0x20000 + length bs * block_size + block_size)
    × (flash_erase constant 0x10014000 4 0x20000 0x38000 idle ≡ (
        erase_blocks constant 0x10014000 4 bs 0 (nuspi_hw constant 0x10014000 false idle) >>= λ r.
        some (with_error r.0 erase_error, nuspi_hw constant 0x10014000 true r.1)))
flash_erase-IsBlocks_example =
    flash_erase-IsBlocks constant 0x10014000 4 0x20000 0x38000 idle (omega arith) (omega arith)
      (omega arith)
