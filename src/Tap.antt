-- ===== src/Tap.antt =====
-- arch/riscv/source/riscv-tap.c: the JTAG port of the target, driven pin by pin.
-- The pins are the board's (`RV_JTAG_…` of soc/…/jtag.h); a function takes and returns the state
-- of the port, and the bit or word that it reads is the first component of its result.
pub mod Controller
mod Bench
mod Shift
pub mod Scan
pub mod Reset
mod Tests
use nuclei_dlink.Base.{
  ℕ, zero, suc, ◌+◌, ◌-◌, ◌*◌, ◌/◌, ◌%◌, ◌^◌, bit_or, bit_xor, Bool, true, false, not, ◌==◌,
  if◌then◌else◌,
}

-- What the port does with the pins of the board; `W` is the state of the wires and of what hangs
-- on them. `tms_mode` is `RV_JTAG_TMS_MODE(out, tms)`.
pub record Pins (W : Type 0) : Type 0 where
  pub init : W → W
  pub fini : W → W
  pub tck_put : ℕ → W → W
  pub tms_put : ℕ → W → W
  pub tdi_put : ℕ → W → W
  pub tms_mode : ℕ → ℕ → W → W
  pub tdo_get : W → ℕ
  pub tms_get : W → ℕ

pub record Port (W : Type 0) : Type 0 where
  pub oscan1_mode : Bool
  pub wires : W

module _ {W : Type 0} (pins : Pins W) where
  pub tap_init : Port W → Port W
  tap_init p = record { oscan1_mode = false; wires = pins.init p.wires }

  pub tap_deinit : Port W → Port W
  tap_deinit p = record p { wires = pins.fini p.wires }

  -- One clock on four wires, with TDO read while TCK is high.
  pub tick_jtag : ℕ → ℕ → W → ℕ × W
  tick_jtag tms tdi w =
      let high = pins.tck_put 1 (pins.tms_put tms (pins.tdi_put tdi w)) in
      (pins.tdo_get high, pins.tck_put 0 high)

  -- The same on two wires: TMS carries the inverted TDI, TMS and then TDO.
  pub tick_oscan1 : ℕ → ℕ → W → ℕ × W
  tick_oscan1 tms tdi w =
      let first = pins.tck_put 0 (pins.tck_put 1 (pins.tms_put (bit_xor tdi 1) w)) in
      let second = pins.tck_put 0 (pins.tck_put 1 (pins.tms_put tms first)) in
      let turned = pins.tms_mode 0 tms second in
      (pins.tms_get turned, pins.tms_mode 1 tms (pins.tck_put 0 (pins.tck_put 1 turned)))

  pub tick : ℕ → ℕ → Port W → ℕ × Port W
  tick tms tdi p =
      let (tdo, w) =
        if p.oscan1_mode then tick_oscan1 tms tdi p.wires else tick_jtag tms tdi p.wires in
      (tdo, record p { wires = w })

  -- `n` clocks whose reads are dropped.
  pub ticks : ℕ → ℕ → ℕ → Port W → Port W
  ticks zero tms tdi p = p
  ticks (suc n) tms tdi p = ticks n tms tdi (tick tms tdi p).1

  -- One round of the shift loops: `out |= rv_tap_tick(tms, (in >> i) & 1) << i`.
  pub shift_bit : ℕ → ℕ → ℕ → ℕ → Port W → ℕ × Port W
  shift_bit tms word i out p =
      let (tdo, p') = tick tms (word / 2 ^ i % 2) p in (bit_or out (tdo * 2 ^ i % 2 ^ 64), p')

  -- The loop from index `i`, for `n` rounds.
  pub shift_bits : ℕ → ℕ → ℕ → ℕ → Port W → ℕ × Port W
  shift_bits zero word i out p = (out, p)
  shift_bits (suc n) word i out p =
      let (out', p') = shift_bit 0 word i out p in shift_bits n word (i + 1) out' p'

  -- The part of `rv_tap_shift` in the shift state, for `len` not 0. `post` bits are shifted before
  -- the word and `pre` after it.
  pub shift_word : ℕ → ℕ → ℕ → Port W → ℕ × Port W
  shift_word word len zero p =
      let (out, p') = shift_bits (len - 1) word 0 0 p in shift_bit 1 word (len - 1) out p'
  shift_word word len (suc pre) p =
      let (out, p') = shift_bits len word 0 0 p in (out, (tick 1 1 (ticks pre 0 1 p')).1)

  pub tap_shift : ℕ → ℕ → ℕ → ℕ → Port W → ℕ × Port W
  tap_shift word len post pre p =
      let capture = (tick 0 1 p).1 in
      let (out, exit) =
        if len == 0
        then (0, (tick 1 1 capture).1)
        else shift_word word len pre (ticks post 0 1 (tick 0 1 capture).1) in
      (out, (tick 0 1 (tick 1 1 exit).1).1)

  pub tap_reset : ℕ → Port W → Port W
  tap_reset len p = (tick 0 1 (ticks len 1 1 p)).1

  pub tap_idle : ℕ → Port W → Port W
  tap_idle len p = ticks len 0 1 p

  pub tap_shift_scan : ℕ → Bool → ℕ → ℕ → ℕ → Port W → ℕ × Port W
  tap_shift_scan word ir len post pre p =
      let select = (tick 1 1 p).1 in
      tap_shift word len post pre (if ir then (tick 1 1 select).1 else select)

  -- A scan of ones through the data register, for the commands of the two-wire protocol.
  zbs : ℕ → Port W → Port W
  zbs len p = (tap_shift_scan 0xffff_ffff false len 0 0 p).1

  pub oscan1_mode_long : Port W → Port W
  oscan1_mode_long p =
      let reset = tap_reset 50 (record p { oscan1_mode = false }) in
      let level = zbs 1 (zbs 0 (zbs 0 reset)) in
      let format = tap_idle 4 (zbs 9 (zbs 3 level)) in
      let select = zbs 0 (zbs 9 (record format { oscan1_mode = true })) in
      let (tdo, read) = tap_shift_scan 0xffff_ffff false 32 0 0 select in
      if tdo % 2 ^ 8 == 9
      then (tap_shift_scan 0xffff_ffff true 0 0 0 (tap_idle 4 read)).1
      else tap_reset 50 (record read { oscan1_mode = false })

  toggles : ℕ → ℕ → W → W
  toggles zero tms w = w
  toggles (suc n) tms w = toggles n (if tms == 0 then 1 else 0) (pins.tms_put tms w)

  -- `n` edges on TMS while TCK is high.
  pub tap_escape : ℕ → Port W → Port W
  tap_escape n p = record p {
    wires = pins.tck_put 0 (toggles n 0 (pins.tck_put 1 (pins.tck_put 0 p.wires)));
  }

  -- Four bits on TMS: the online activation code, the extension code and the check packet.
  nibble : ℕ → ℕ → ℕ → ℕ → Port W → Port W
  nibble a b c d p = (tick d 0 (tick c 0 (tick b 0 (tick a 0 p).1).1).1).1

  pub oscan1_mode_short : Port W → Port W
  oscan1_mode_short p =
      let reset = tap_reset 50 (tap_escape 10 (record p { oscan1_mode = false })) in
      let oac = nibble 0 0 1 1 (tap_escape 7 reset) in
      let cp = nibble 0 0 0 0 (nibble 0 0 0 1 oac) in
      (tick 0 0 (record cp { oscan1_mode = true })).1

  pub oscan1_mode_short_exit : Port W → Port W
  oscan1_mode_short_exit p = tap_reset 50 (tap_escape 10 p)
