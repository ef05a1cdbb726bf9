-- ===== src/Packet/Respond.antt =====
-- A response through `gdb_rsp_packet_vTask`: the bytes that reach the debugger.
use mathlib.Core.List.{append_assoc, flatten}
use nuclei_dlink.Base.{
  ℕ, ◌+◌, ◌*◌, ◌/◌, ◌%◌, ◌^◌, ◌≤◌, ◌≡◌, refl, ap, ◌∙◌, Bool, true, false, some, List, [], ◌∷◌, ◌++◌,
  arith, length, drop, write_at, write_at-append, take-append, length-append, All,
}
use nuclei_dlink.Codec.{hex_digit}
use nuclei_dlink.Packet.{
  GdbPacket, Sent, gdb_packet_checksum, trailer, frame, transmit, respond, cdc_acm_data_packet_size,
}
use nuclei_dlink.Packet.Checksum.{sum, gdb_packet_checksum-sum}
use nuclei_dlink.Packet.Transmit.{IsSent, transmit-IsSent, configured}

-- The frame of a payload: an acknowledgement unless it is turned off, `$`, the payload, `#`, the
-- checksum in two digits, and the `|` that ends a message of this firmware.
abbrev pub check_digits : List ℕ → List ℕ
check_digits payload =
    hex_digit (sum payload % 2 ^ 8 / 2 ^ 4 % 2 ^ 4) ∷ hex_digit (sum payload % 2 ^ 8 % 2 ^ 4) ∷ []

abbrev pub body : List ℕ → List ℕ
body payload = b'$' ∷ (payload ++ (b'#' ∷ (check_digits payload ++ (b'|' ∷ []))))

abbrev pub framed : Bool → List ℕ → List ℕ
framed true payload = body payload
framed false payload = b'+' ∷ body payload

-- A buffer with two bytes before the payload and five after it.
abbrev pub buffer : ℕ → ℕ → List ℕ → List ℕ → List ℕ → List ℕ
buffer b0 b1 payload room post = b0 ∷ b1 ∷ (payload ++ (room ++ post))

tail-write :
    (b0 b1 : ℕ) (payload room post : List ℕ)
    → length room ≡ 5
    → write_at
        (2 + length payload)
        (trailer (gdb_packet_checksum payload))
        (buffer b0 b1 payload room post)
      ≡ some (buffer b0 b1 payload (trailer (gdb_packet_checksum payload)) post)
unfolding trailer
tail-write b0 b1 payload room post h =
    let e : 2 + length payload ≡ length (b0 ∷ b1 ∷ payload) = omega arith in
    rw e (write_at-append (b0 ∷ b1 ∷ payload) room (trailer (gdb_packet_checksum payload)) post h)

body-append :
    (payload post : List ℕ)
    → b'$' ∷ (payload ++ (trailer (gdb_packet_checksum payload) ++ post))
      ≡ body payload ++ (0 ∷ post)
unfolding trailer
body-append payload post = rw (gdb_packet_checksum-sum payload) (simp append_assoc)

length-body : (payload : List ℕ) → length payload + 5 ≡ length (body payload)
length-body payload =
    omega (arith, length-append payload (b'#' ∷ (check_digits payload ++ (b'|' ∷ []))))

length-framed :
    (no_ack : Bool) (payload : List ℕ)
    → (length payload + 5 ≤ length (framed no_ack payload))
      × (length (framed no_ack payload) ≤ length payload + 6)
length-framed true payload = omega (arith, length-body payload)
length-framed false payload = omega (arith, length-body payload)

frame_lem :
    (no_ack : Bool) (b0 b1 : ℕ) (payload room post : List ℕ)
    → length room ≡ 5
    → (out : List ℕ) × (pkt : GdbPacket) × (frame no_ack
          (buffer b0 b1 payload room post)
          (record { len = length payload; at = 2 })
        ≡ some (out, pkt))
      × (drop pkt.at out ≡ framed no_ack payload ++ (0 ∷ post))
      × (pkt.len ≡ length (framed no_ack payload))
unfolding frame
frame_lem true b0 b1 payload room post h =
    let tail = trailer (gdb_packet_checksum payload) in
    (
      b0 ∷ b'$' ∷ (payload ++ (tail ++ post)),
      record { len = length payload + 5; at = 1 },
      rw (take-append payload (room ++ post), tail-write b0 b1 payload room post h)
          (unfold write_at in refl),
      body-append payload post,
      length-body payload,
    )
frame_lem false b0 b1 payload room post h =
    let tail = trailer (gdb_packet_checksum payload) in
    (
      b'+' ∷ b'$' ∷ (payload ++ (tail ++ post)),
      record { len = length payload + 6; at = 0 },
      rw (take-append payload (room ++ post), tail-write b0 b1 payload room post h)
          (unfold write_at in refl),
      ap (λ l. b'+' ∷ l) (body-append payload post),
      omega (arith, length-body payload),
    )

-- With acknowledgements on or off, a response whose payload lies in the response buffer with two
-- bytes before and five after it is sent completely and in order, as its frame, in packets of 1
-- to 64 bytes, if the device is configured in enough rounds of the send loop.
pub respond-framed :
    (no_ack : Bool) (status : List Bool) (b0 b1 : ℕ) (payload room post : List ℕ)
    → length room ≡ 5
    → length payload + 6 ≤ cdc_acm_data_packet_size * configured status
    → (sent : Sent) × (respond no_ack status
          (buffer b0 b1 payload room post)
          (record { len = length payload; at = 2 })
        ≡ some sent)
      × (sent.left ≡ 0)
      × (flatten sent.packets ≡ framed no_ack payload)
      × All (λ p. (1 ≤ length p) × (length p ≤ cdc_acm_data_packet_size)) sent.packets
unfolding respond
respond-framed no_ack status b0 b1 payload room post h rounds =
    let (out, pkt, e, mem, len) = frame_lem no_ack b0 b1 payload room post h in
    let sent : IsSent (framed no_ack payload ++ (0 ∷ post)) (length (framed no_ack payload))
        (transmit status (framed no_ack payload ++ (0 ∷ post)) (length (framed no_ack payload))) =
      transmit-IsSent status (framed no_ack payload ++ (0 ∷ post)) (length (framed no_ack payload))
        (omega (arith, length-framed no_ack payload))
        (omega (arith, length-append (framed no_ack payload) (0 ∷ post)))
        (omega (arith, length-framed no_ack payload)) in
    (
      transmit status (framed no_ack payload ++ (0 ∷ post)) (length (framed no_ack payload)),
      rw (e, mem, len) refl,
      sent.finished,
      sent.in_order ∙ take-append (framed no_ack payload) (0 ∷ post),
      sent.sizes,
    )
