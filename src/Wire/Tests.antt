-- ===== src/Wire/Tests.antt =====
-- A command `m` on its way to a concrete memory, in three data packets.
use mathlib.Core.List.{flatten}
use nuclei_dlink.Base.{
  ℕ, ◌≤◌, ◌≡◌, refl, true, false, some, List, [], ◌∷◌, none, arith, length, replicate, All,
}
use nuclei_dlink.Codec.{bin_to_hex, hex_digit}
use nuclei_dlink.Packet.{Sent, respond, cdc_acm_data_packet_size}
use nuclei_dlink.Packet.Respond.{framed, buffer}
use nuclei_dlink.Server.{State}
use nuclei_dlink.Server.Scan.{print_hex, hex_text, hex_digits}
use nuclei_dlink.Server.Task.{power_on}
use nuclei_dlink.Target.Memory.{Dm}
use nuclei_dlink.Target.Memory.Commands.{Module}
use nuclei_dlink.Target.Memory.Bytes.{bytes_from}
use nuclei_dlink.Device.Echo.{device}
use nuclei_dlink.Device.Tests.{idle, board, board-small, rv32}
use nuclei_dlink.Wire.{wire_round}
use nuclei_dlink.Wire.Memory.{wire_memory}
use nuclei_dlink.Wire.Unmarked.{wire_round-unmarked}
use nuclei_dlink.Server.Poll.{poll}

-- `+$m80000001,3#ff`.
abbrev pieces : List (List ℕ)
pieces =
    (b'+' ∷ b'$' ∷ b'm' ∷ b'8' ∷ [])
    ∷ (b'0' ∷ b'0' ∷ b'0' ∷ b'0' ∷ b'0' ∷ b'0' ∷ b'1' ∷ b',' ∷ [])
    ∷ (b'3' ∷ b'#' ∷ b'f' ∷ b'f' ∷ [])
    ∷ []

abbrev found : List ℕ
found = bytes_from 3 0x8000_0001 board.under.memory

wire_memory_example :
    (s' : State (Dm (Module (ℕ → ℕ)))) × (sent : Sent) × (wire_round
        (device rv32 4 0x2000_0004 idle)
        (replicate 1088 0)
        pieces
        (power_on board)
      ≡ some (tt, s'))
    × (s'.responses ≡ bin_to_hex found ∷ [])
    × (s'.target.under.memory ≡ board.under.memory)
    × (respond false
          (true ∷ [])
          (buffer 0 0 (bin_to_hex found) (replicate 5 0) [])
          (record { len = length (bin_to_hex found); at = 2 })
        ≡ some sent)
    × (sent.left ≡ 0)
    × (flatten sent.packets ≡ framed false (bin_to_hex found))
    × All (λ p. (1 ≤ length p) × (length p ≤ cdc_acm_data_packet_size)) sent.packets
unfolding flatten print_hex hex_text hex_digits hex_digit
wire_memory_example =
    wire_memory rv32 4 0x2000_0004 idle false (true ∷ []) 0 0 0x8000_0001 3 (replicate 1088 0)
      (b'+' ∷ []) (b'f' ∷ b'f' ∷ []) (replicate 5 0) [] pieces (power_on board) refl (omega arith)
      (omega arith) (omega arith) board-small refl (omega arith) refl refl refl (omega arith)
      (omega arith) (omega arith) refl (omega arith)

-- The byte 3, as the debugger sends it to stop a program that runs.
abbrev waiting_gdb : State (Dm (Module (ℕ → ℕ)))
waiting_gdb = record (power_on board) { gdb_connected = true; target_running = true }

wire_round-unmarked_example :
    wire_round (device rv32 4 0x2000_0004 idle) (replicate 1088 0) ((3 ∷ []) ∷ []) waiting_gdb
    ≡ poll (device rv32 4 0x2000_0004 idle) none waiting_gdb
wire_round-unmarked_example =
    wire_round-unmarked (device rv32 4 0x2000_0004 idle) (replicate 1088 0) ((3 ∷ []) ∷ [])
      waiting_gdb (omega arith)
