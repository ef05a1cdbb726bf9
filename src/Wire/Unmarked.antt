-- ===== src/Wire/Unmarked.antt =====
-- Bytes from the debugger that are no packet, as the single byte 3 with which it interrupts a program.
use nuclei_dlink.Base.{ℕ, ◌≡◌, ◌≢◌, refl, none, List, All}
use nuclei_dlink.Packet.Receive.Unmarked.{receive-unmarked}
use nuclei_dlink.Server.{Target, State}
use nuclei_dlink.Server.Poll.{poll}
use nuclei_dlink.Wire.{round_of, wire_round}

-- Bytes without a `$`, in any number of parts, do not reach the server, the byte 3 of an interrupt included: its
-- round is the one without a packet.
pub wire_round-unmarked :
    {W : Type 0} (target : Target W) (buf : List ℕ) (pieces : List (List ℕ)) (s : State W)
    → All (All (λ x. x ≢ b'$')) pieces
    → wire_round target buf pieces s ≡ poll target none s
unfolding wire_round round_of
wire_round-unmarked target buf pieces s plain =
    let (rx, e) = receive-unmarked buf pieces plain in rw (e) refl
