-- ===== src/Tap/Tests.antt =====
-- The port on a concrete target, and its theorems there.
use nuclei_dlink.Base.{ℕ, ◌≡◌, refl, true, false, [], ◌∷◌, arith}
use nuclei_dlink.Tap.{
  Port, tap_shift_scan, tap_shift, shift_word, shift_bits, shift_bit, ticks, tick, tick_jtag,
  tap_reset,
}
use nuclei_dlink.Tap.Controller.{idle, scan, pause}
use nuclei_dlink.Tap.Bench.{Target, Bench, board, IsPort, port}
use nuclei_dlink.Tap.Scan.{resting, tap_shift_scan-exchange}
use nuclei_dlink.Tap.Reset.{tap_reset-idle}

abbrev start : Port Bench
start = port (resting (1 ∷ 0 ∷ 1 ∷ 1 ∷ []) (1 ∷ 0 ∷ []) [] 0) 0 0

start-IsPort : IsPort start (resting (1 ∷ 0 ∷ 1 ∷ 1 ∷ []) (1 ∷ 0 ∷ []) [] 0)
start-IsPort = record { four_wires = refl; low = refl; target = refl }

-- The register held 13, the lowest bit first.
scan_reads : (tap_shift_scan board 0x6 false 4 0 0 start).0 ≡ 13
unfolding tap_shift_scan tap_shift shift_word shift_bits shift_bit ticks tick tick_jtag
scan_reads = refl

tap_shift_scan-exchange_example :
    (tdo' : ℕ) × ((tap_shift_scan board 0x2 false 2 1 1 start).0 ≡ 2)
    × IsPort
        (tap_shift_scan board 0x2 false 2 1 1 start).1
        (resting (1 ∷ 0 ∷ 1 ∷ 1 ∷ []) (1 ∷ 0 ∷ []) (1 ∷ 0 ∷ 1 ∷ 1 ∷ []) tdo')
tap_shift_scan-exchange_example =
    tap_shift_scan-exchange false (1 ∷ 0 ∷ 1 ∷ 1 ∷ []) (1 ∷ 0 ∷ []) [] (1 ∷ []) (0 ∷ 1 ∷ [])
      (1 ∷ []) 0 0x2 start start-IsPort refl (omega arith) (omega arith) (omega arith)

abbrev stuck : Target
stuck = record { state = scan true pause; chain = []; dr = []; ir = []; tdo = 0 }

tap_reset-idle_example :
    (t' : Target) × IsPort (tap_reset board 32 (port stuck 0 0)) t' × (t'.state ≡ idle)
tap_reset-idle_example =
    tap_reset-idle 32 (port stuck 0 0) stuck
      (record { four_wires = refl; low = refl; target = refl }) (omega arith)
