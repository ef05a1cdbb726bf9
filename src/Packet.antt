-- ===== src/Packet.antt =====
-- server/gdb-server/source/gdb-packet.c: packets of the remote protocol over USB.
-- The queue of each direction holds one packet; the task that a packet goes through is a function.
-- What the USB core does enters as input: the received data packets, and for each round of the
-- send loop whether the device is configured.
pub mod Checksum
pub mod Transmit
pub mod Respond
pub mod Receive
mod Tests
use nuclei_dlink.Base.{
  ℕ, zero, suc, ◌+◌, ◌-◌, ◌*◌, ◌/◌, ◌%◌, ◌^◌, Bool, true, false, ◌&&◌, Option, none, some, List, [],
  ◌∷◌, ◌++◌, ltb, leb, ◌==◌, if◌then◌else◌, length, take, drop, slice, write_at, replicate,
}
use mathlib.Core.Option
use nuclei_dlink.Base.Maybe.{◌>>=◌}
use nuclei_dlink.Codec.{hex_digit}

abbrev pub gdb_packet_buff_size : ℕ
gdb_packet_buff_size = 0x400

abbrev pub cdc_acm_data_packet_size : ℕ
cdc_acm_data_packet_size = 64

-- `gdb_packet_t`: `data` is the offset into the buffer that the pointer goes into.
pub record GdbPacket : Type 0 where
  pub len : ℕ
  pub at : ℕ

-- The loop of `gdb_packet_checksum` over the bytes left, in `uint32_t`.
pub sum_from : ℕ → List ℕ → ℕ
sum_from checksum [] = checksum
sum_from checksum (b ∷ bs) = sum_from ((checksum + b) % 2 ^ 32) bs

pub gdb_packet_checksum : List ℕ → ℕ
gdb_packet_checksum bs = sum_from 0 bs % 2 ^ 8

-- `snprintf(…, 5, "#%02x|", checksum)`: four characters and the terminator, for a byte.
pub trailer : ℕ → List ℕ
trailer checksum =
    b'#' ∷ hex_digit (checksum / 2 ^ 4 % 2 ^ 4) ∷ hex_digit (checksum % 2 ^ 4) ∷ b'|' ∷ 0 ∷ []

-- The first half of `gdb_rsp_packet_vTask`: the frame is put round the payload in the response
-- buffer. `none` is a write past the end of the buffer.
pub frame : Bool → List ℕ → GdbPacket → Option (List ℕ × GdbPacket)
frame no_ack_mode buf rsp = do
  let checksum = gdb_packet_checksum (slice rsp.at rsp.len buf)
  tailed ← write_at (rsp.at + rsp.len) (trailer checksum) buf
  if no_ack_mode
      then (do
        out ← write_at (rsp.at - 1) (b'$' ∷ []) tailed
        some (out, record { len = rsp.len + 5; at = rsp.at - 1 }))
      else (do
        out ← write_at (rsp.at - 2) (b'+' ∷ b'$' ∷ []) tailed
        some (out, record { len = rsp.len + 6; at = rsp.at - 2 }))

-- What the send loop handed to the USB core, and `rsp.len` when it stopped or the input ended.
pub record Sent : Type 0 where
  pub packets : List (List ℕ)
  pub left : ℕ

-- The bytes that one round sends.
pub chunk : ℕ → ℕ
chunk len = if leb cdc_acm_data_packet_size len then cdc_acm_data_packet_size else len

-- The `do … while (rsp.len)` loop. `mem` is the memory from `rsp.data` on; each element of the
-- list says whether the device is configured in that round.
pub transmit : List Bool → List ℕ → ℕ → Sent
transmit [] mem len = record { packets = []; left = len }
transmit (false ∷ status) mem len =
    let rest = transmit status mem len in
    if len == 0 then record { packets = []; left = 0 } else rest
transmit (true ∷ status) mem len =
    let n = chunk len in
    let rest = transmit status (drop n mem) (len - n) in
    if len - n == 0
    then record { packets = take n mem ∷ []; left = 0 }
    else record { packets = take n mem ∷ rest.packets; left = rest.left }

-- One response through `gdb_rsp_packet_vTask`.
pub respond : Bool → List Bool → List ℕ → GdbPacket → Option Sent
respond no_ack_mode status buf rsp = do
  (out, pkt) ← frame no_ack_mode buf rsp
  some (transmit status (drop pkt.at out) pkt.len)

-- The variables of `gdb_cmd_packet_vTask`; `none` is the initial -1.
pub record Reception : Type 0 where
  pub dollar : Option ℕ
  pub sharp : Option ℕ
  pub total : ℕ
  pub buf : List ℕ

pub start : List ℕ → Reception
start buf = record { dollar = none; sharp = none; total = 0; buf = buf }

-- The position of the first character `c`, kept once it is found.
pub mark : ℕ → ℕ → ℕ → Option ℕ → Option ℕ
mark c x pos none = if x == c then some pos else none
mark c x pos (some p) = some p

-- The scan of one data packet, from position `pos` of the stream.
pub scan : ℕ → ℕ → List ℕ → Option ℕ → Option ℕ
scan c pos [] found = found
scan c pos (x ∷ temp) found = scan c (pos + 1) temp (mark c x pos found)

-- `dollar >= 0 && sharp > 0`
pub is_complete : Option ℕ → Option ℕ → Bool
is_complete (some d) (some (suc s)) = true
is_complete _ _ = false

-- The state after a data packet, with the buffer given.
pub advance : Reception → List ℕ → List ℕ → Reception
advance rx temp buf = record {
  dollar = scan b'$' rx.total temp rx.dollar;
  sharp = scan b'#' rx.total temp rx.sharp;
  total = rx.total + length temp;
  buf = buf;
}

-- One round of the receive loop: the data packet is stored once a `$` has come in. `none` is a
-- `memcpy` past the end of the command buffer.
pub receive_packet : Reception → List ℕ → Option Reception
receive_packet rx temp = elim (scan b'$' rx.total temp rx.dollar) [
  | none ↦ some (advance rx temp rx.buf)
  | some d ↦ Option.map (advance rx temp) (write_at rx.total temp rx.buf)
]

pub data Received : Type 0 where
  waiting : Reception → Received
  complete : Reception → Received
  overflow : Received

-- The receive loop, over the data packets that come in.
pub receive : Reception → List (List ℕ) → Received
receive rx [] = waiting rx
receive rx (temp ∷ temps) = elim (receive_packet rx temp) [
  | none ↦ overflow
  | some rx' ↦ elim (is_complete rx'.dollar rx'.sharp) [
    | true ↦ complete rx'
    | false ↦ receive rx' temps
  ]
]

-- The packet that is queued: its length is in `uint32_t`, and the address of the terminator is
-- 32 bits wide too.
pub deliver : Reception → Option (List ℕ × GdbPacket)
deliver rx = do
  d ← rx.dollar
  s ← rx.sharp
  let len = (s + 2 ^ 32 - d - 1) % 2 ^ 32
  out ← write_at ((d + 1 + len) % 2 ^ 32) (0 ∷ []) rx.buf
  some (out, record { len = len; at = d + 1 })
