-- ===== src/Flash/Spi.antt =====
-- The SPI controller: `nuspi_…` of flash.c. Its registers are words of the target's memory, read
-- and written through the debugger's memory access.
pub mod Poll
use nuclei_dlink.Base.{
  ℕ, zero, suc, ◌+◌, ◌-◌, ◌*◌, ◌/◌, ◌%◌, ◌^◌, bit_or, Bool, true, not, Option, none, some, List, [],
  ◌∷◌, ◌==◌, leb, if◌then◌else◌,
}

-- `rv_target_read_memory` and `rv_target_write_memory` for one aligned word. A read is given what
-- the variable held, since a failed access leaves it.
pub record Bus (W : Type 0) : Type 0 where
  pub read_word : ℕ → ℕ → W → ℕ × W
  pub write_word : ℕ → ℕ → W → W

-- The static variable `is_nuspi`, and what lies behind the bus.
pub record Spi (W : Type 0) : Type 0 where
  pub is_nuspi : Bool
  pub world : W

abbrev pub reg_sckmode : ℕ
reg_sckmode = 0x04

abbrev pub reg_force : ℕ
reg_force = 0x0C

abbrev pub reg_csmode : ℕ
reg_csmode = 0x18

abbrev pub reg_version : ℕ
reg_version = 0x1C

abbrev pub reg_fmt : ℕ
reg_fmt = 0x40

abbrev pub reg_txdata : ℕ
reg_txdata = 0x48

abbrev pub reg_rxdata : ℕ
reg_rxdata = 0x4C

abbrev pub reg_fctrl : ℕ
reg_fctrl = 0x60

abbrev pub reg_ffmt : ℕ
reg_ffmt = 0x64

abbrev pub reg_ip : ℕ
reg_ip = 0x74

abbrev pub reg_status : ℕ
reg_status = 0x7C

abbrev pub reg_rxedge : ℕ
reg_rxedge = 0x80

abbrev pub times_out_start : ℕ
times_out_start = 500

abbrev pub return_spi_tx_error : ℕ
return_spi_tx_error = 0x10

abbrev pub return_spi_rx_error : ℕ
return_spi_rx_error = 0x20

-- Bit `k` of a word.
abbrev pub bit : ℕ → ℕ → Bool
bit k w = w / 2 ^ k % 2 == 1

module _ {W : Type 0} (bus : Bus W) (nuspi_addr : ℕ) where
  pub nuspi_read_reg : ℕ → ℕ → Spi W → ℕ × Spi W
  nuspi_read_reg offset value s =
      let (v, w) = bus.read_word ((nuspi_addr + offset) % 2 ^ 32) value s.world in
      (v, record s { world = w })

  pub nuspi_write_reg : ℕ → ℕ → Spi W → Spi W
  nuspi_write_reg offset value s = record s {
    world = bus.write_word ((nuspi_addr + offset) % 2 ^ 32) value s.world;
  }

  -- The direction is bit 3 of the format register.
  pub nuspi_set_dir : ℕ → Spi W → Spi W
  nuspi_set_dir dir s =
      let (fmt, s') = nuspi_read_reg reg_fmt 0 s in
      nuspi_write_reg reg_fmt (fmt / 2 ^ 4 * 2 ^ 4 + fmt % 2 ^ 3 + dir % 2 * 2 ^ 3) s'

  -- The loop that empties the receive queue; `none` when it is not empty after that many rounds.
  pub clear_rxfifo : ℕ → ℕ → Spi W → Option (Spi W)
  clear_rxfifo zero temp s = none
  clear_rxfifo (suc fuel) temp s =
      let (data', s1) = nuspi_read_reg reg_rxdata temp s in
      let (status, s2) = nuspi_read_reg reg_status data' s1 in
      let more1 = clear_rxfifo fuel status s2 in
      let more2 = clear_rxfifo fuel data' s1 in
      if s.is_nuspi
      then (if bit 5 status then some s2 else more1)
      else (if bit 31 data' then some s1 else more2)

  pub nuspi_init : ℕ → Spi W → Option (Spi W)
  nuspi_init fuel s =
      let (version, s1) = nuspi_read_reg reg_version 0 s in
      let s2 = if leb 0x10100 version then record s1 { is_nuspi = true } else s1 in
      elim (clear_rxfifo fuel version s2) [
        | none ↦ none
        | some s3 ↦
            let s4 = nuspi_write_reg reg_force 0x3 (nuspi_write_reg reg_sckmode 0x0 s3) in
            let s5 = nuspi_write_reg reg_fmt 0x80008 (nuspi_write_reg reg_fctrl 0x0 s4) in
            some (nuspi_write_reg reg_rxedge 0x0 (nuspi_write_reg reg_ffmt 0x30007 s5))
      ]

  -- The enable bit is bit 0.
  pub nuspi_hw : Bool → Spi W → Spi W
  nuspi_hw sel s =
      let (fctrl, s') = nuspi_read_reg reg_fctrl 0 s in
      nuspi_write_reg reg_fctrl (if sel then bit_or fctrl 1 else fctrl / 2 * 2) s'

  pub nuspi_cs : Bool → Spi W → Spi W
  nuspi_cs sel s = nuspi_write_reg reg_csmode (if sel then 2 else 0) s

  -- A wait `while (times_out--) { read; if (ready) break; }` with `n` tries left: the counter when
  -- it is over, and the last value. The decrement of the test that ends the loop wraps to 2³² - 1.
  pub poll : ℕ → (ℕ → Bool) → ℕ → ℕ → Spi W → ℕ × ℕ × Spi W
  poll offset ready zero value s = (2 ^ 32 - 1, value, s)
  poll offset ready (suc n) value s =
      let (v, s') = nuspi_read_reg offset value s in
      let rest = poll offset ready n v s' in if ready v then (n, v, s') else rest

  -- The three waits, for either kind of controller.
  pub wait_tx : ℕ → Spi W → ℕ × ℕ × Spi W
  wait_tx value s =
      if s.is_nuspi
      then poll reg_status (λ v. not (bit 4 v)) times_out_start value s
      else poll reg_txdata (λ v. not (bit 31 v)) times_out_start value s

  pub wait_idle : ℕ → Spi W → ℕ × ℕ × Spi W
  wait_idle value s =
      if s.is_nuspi
      then poll reg_status (λ v. not (bit 0 v)) times_out_start value s
      else poll reg_ip (λ v. bit 0 v) times_out_start value s

  pub wait_rx : ℕ → Spi W → ℕ × ℕ × Spi W
  wait_rx value s =
      if s.is_nuspi
      then poll reg_status (λ v. not (bit 5 v)) times_out_start value s
      else poll reg_rxdata (λ v. not (bit 31 v)) times_out_start value s

  -- The byte loop of `nuspi_tx` and the wait after it.
  pub tx_bytes : List ℕ → ℕ → Spi W → ℕ × Spi W
  tx_bytes [] value s =
      let (times_out, v, s') = wait_idle value s in
      (if times_out == 0 then return_spi_tx_error else 0, s')
  tx_bytes (b ∷ bytes) value s =
      let (times_out, v, s') = wait_tx value s in
      let rest = tx_bytes bytes v (nuspi_write_reg reg_txdata b s') in
      if times_out == 0 then (return_spi_tx_error, s') else rest

  pub nuspi_tx : List ℕ → Spi W → ℕ × Spi W
  nuspi_tx bytes s = tx_bytes bytes 0 (nuspi_set_dir 1 s)

  -- The value that is stored: on the newer controller the queue is read once more.
  pub rx_data : ℕ → Spi W → ℕ × Spi W
  rx_data value s = if s.is_nuspi then nuspi_read_reg reg_rxdata value s else (value, s)

  -- The byte loop of `nuspi_rx`, with the bytes stored.
  pub rx_bytes : ℕ → ℕ → Spi W → ℕ × List ℕ × Spi W
  rx_bytes zero value s = (0, [], s)
  rx_bytes (suc len) value s =
      let (times_out, v, s1) = wait_rx value (nuspi_write_reg reg_txdata 0x00 s) in
      let (b, s2) = rx_data v s1 in
      let (ret, bytes, s3) = rx_bytes len b s2 in
      if times_out == 0 then (return_spi_rx_error, [], s1) else (ret, b % 2 ^ 8 ∷ bytes, s3)

  pub nuspi_rx : ℕ → Spi W → ℕ × List ℕ × Spi W
  nuspi_rx len s = rx_bytes len 0 (nuspi_set_dir 0 s)
