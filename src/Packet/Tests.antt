-- ===== src/Packet/Tests.antt =====
-- The packet tasks on concrete inputs, and their theorems at such inputs.
use mathlib.Core.List.{flatten}
use nuclei_dlink.Base.{
  ℕ, ◌+◌, ◌≤◌, ◌^◌, ◌≡◌, refl, true, false, some, List, [], ◌∷◌, arith, length, All, replicate,
  slice, get_or,
}
use nuclei_dlink.Packet.{
  GdbPacket, Sent, Reception, transmit, respond, start, receive, complete, deliver,
  cdc_acm_data_packet_size,
}
use nuclei_dlink.Packet.Transmit.{IsSent, transmit-IsSent}
use nuclei_dlink.Packet.Respond.{framed, buffer, respond-framed}
use nuclei_dlink.Packet.Receive.Payload.{receive-payload, receive-reversed}

transmit-IsSent_example :
    IsSent (replicate 70 7) 70 (transmit (true ∷ false ∷ true ∷ []) (replicate 70 7) 70)
transmit-IsSent_example =
    transmit-IsSent (true ∷ false ∷ true ∷ []) (replicate 70 7) 70 (omega arith) (omega arith)
      (omega arith)

-- The reply `OK`, with acknowledgements on.
respond-framed_example :
    (sent : Sent) × (respond false
        (true ∷ [])
        (buffer 0 0 (b'O' ∷ b'K' ∷ []) (replicate 5 0) [])
        (record { len = 2; at = 2 })
      ≡ some sent)
    × (sent.left ≡ 0)
    × (flatten sent.packets ≡ framed false (b'O' ∷ b'K' ∷ []))
    × All (λ p. (1 ≤ length p) × (length p ≤ cdc_acm_data_packet_size)) sent.packets
respond-framed_example =
    respond-framed false (true ∷ []) 0 0 (b'O' ∷ b'K' ∷ []) (replicate 5 0) [] (omega arith)
      (omega arith)

-- `+$g#67`, in two data packets.
abbrev pieces : List (List ℕ)
pieces = (b'+' ∷ b'$' ∷ []) ∷ (b'g' ∷ b'#' ∷ b'6' ∷ b'7' ∷ []) ∷ []

receive-payload_example :
    (rx : Reception) × (out : List ℕ) × (pkt : GdbPacket) × (receive
        (start (replicate 1088 0))
        pieces
      ≡ complete rx)
    × (deliver rx ≡ some (out, pkt))
    × (pkt.len ≡ 1)
    × (slice pkt.at pkt.len out ≡ b'g' ∷ [])
    × (get_or out (pkt.at + pkt.len) 1 ≡ 0)
unfolding flatten
receive-payload_example =
    receive-payload (replicate 1088 0) (b'+' ∷ []) (b'g' ∷ []) (b'6' ∷ b'7' ∷ []) pieces refl refl
      (omega arith) (omega arith) (omega arith) (omega arith)

-- `+#a$g`, in two data packets.
abbrev reversed : List (List ℕ)
reversed = (b'+' ∷ b'#' ∷ []) ∷ (b'a' ∷ b'$' ∷ b'g' ∷ []) ∷ []

receive-reversed_example :
    (rx : Reception) × (out : List ℕ) × (pkt : GdbPacket) × (receive
        (start (replicate 1088 0))
        reversed
      ≡ complete rx)
    × (deliver rx ≡ some (out, pkt))
    × (pkt.len + 1 + 2 ≡ 2 ^ 32)
    × (get_or out 1 1 ≡ 0)
unfolding flatten
receive-reversed_example =
    receive-reversed (replicate 1088 0) (b'+' ∷ []) (b'a' ∷ []) (b'g' ∷ []) reversed refl refl
      (omega arith) (omega arith) (omega arith) (omega arith) (omega arith)
