-- ===== src/Wire.antt =====
-- The way of a command through gdb-packet.c and gdb-server.c: from the data packets of the USB core, over
-- the queue, to a round of `gdb_server_poll`.
pub mod Memory
pub mod Read
pub mod Unmarked
mod Tests
use nuclei_dlink.Base.{Option, none, some, List, ℕ, drop}
use nuclei_dlink.Base.Action.{Action, given, fault, skip, ◌>>=◌}
use nuclei_dlink.Packet.{
  GdbPacket, Reception, Received, waiting, complete, overflow, start, receive, deliver,
}
use nuclei_dlink.Server.{Packet, Target, State}
use nuclei_dlink.Server.Poll.{poll}

-- The packet in the queue points into the command buffer.
unfoldable pub queued : List ℕ → GdbPacket → Packet
queued buffer pkt = record { data' = drop pkt.at buffer; len = pkt.len }

module _ {W : Type 0} (target : Target W) where
  -- A packet is queued when the reception is complete, and the round has none otherwise.
  unfoldable pub round_of : Received → Action (State W) (Unit {0})
  round_of (waiting rx) = poll target none
  round_of (complete rx) = do out ← given (deliver rx); poll target (some (queued out.0 out.1))
  round_of overflow = fault

  unfoldable pub wire_round : List ℕ → List (List ℕ) → Action (State W) (Unit {0})
  wire_round buffer pieces = round_of (receive (start buffer) pieces)
