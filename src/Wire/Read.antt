-- ===== src/Wire/Read.antt =====
-- A read of memory from one end to the other: the pieces that the debugger sends, and those it gets.
use mathlib.Core.List.{flatten, append_assoc}
use mathlib.Core.Bool.{and-false}
use nuclei_dlink.Base.{
  ℕ, zero, suc, ◌+◌, ◌*◌, ◌/◌, ◌%◌, ◌^◌, ◌≤◌, ◌<◌, ◌≡◌, ◌≢◌, refl, ap, ◌∙◌, false, Bool, some, List,
  [], ◌∷◌, ◌++◌, arith, length, take, drop, slice, get_or, All, All-append,
}
use nuclei_dlink.Base.Action.{◌>>=◌}
use nuclei_dlink.Codec.{bin_to_hex}
use nuclei_dlink.Codec.Hex.{length-bin_to_hex}
use nuclei_dlink.Packet.{GdbPacket, Sent, respond, cdc_acm_data_packet_size, gdb_packet_buff_size}
use nuclei_dlink.Packet.Transmit.{configured}
use nuclei_dlink.Packet.Respond.{framed, buffer, respond-framed}
use nuclei_dlink.Packet.Receive.Payload.{receive-payload}
use nuclei_dlink.Server.{Packet, Target, State, buff_size}
use nuclei_dlink.Server.Scan.{print_hex, hex_digits}
use nuclei_dlink.Server.Scan.Numbers.{hex_digit_low, hex_text-digits}
use nuclei_dlink.Server.Memory.Answers.{read_packet, m_answer}
use nuclei_dlink.Server.Memory.{gdb_server_cmd_m}
use nuclei_dlink.Server.Poll.{poll, poll_halted, dispatch}
use nuclei_dlink.Wire.{queued, round_of, wire_round}

-- A buffer from a text on, when a zero stands behind it.
behind_text :
    (text memory : List ℕ)
    → take (length text) memory ≡ text
    → get_or memory (length text) 1 ≡ 0
    → memory ≡ text ++ 0 ∷ drop (suc (length text)) memory
behind_text [] [] e z = absurd (omega arith)
behind_text [] (x ∷ memory) e z = ground (arith, z)
behind_text (c ∷ text) [] e z = cc
behind_text (c ∷ text) (x ∷ memory) e z =
    let tail : take (length text) memory ≡ text = ap (drop 1) e in
    let rest = behind_text text memory tail z in cc

-- Digits are no marks of a packet.
abbrev IsPlain : List ℕ → Type 0
IsPlain = All (λ x. x ≢ b'#')

hex_digits-IsPlain : (n v : ℕ) → IsPlain (hex_digits n v)
unfolding hex_digits
hex_digits-IsPlain zero v = tt
hex_digits-IsPlain (suc n) v =
    let low = hex_digit_low (v / 16 ^ n % 16) (omega arith) in
    ((λ e. omega (arith, e, low)), hex_digits-IsPlain n v)

print_hex-IsPlain : (v : ℕ) → v < 2 ^ 32 → IsPlain (print_hex v)
unfolding print_hex
print_hex-IsPlain v h =
    let (m, text, low) = hex_text-digits 7 v h in rw (text) (hex_digits-IsPlain (suc m) v)

-- The text of the command `m`.
abbrev pub read_text : ℕ → ℕ → List ℕ
read_text addr n = b'm' ∷ (print_hex addr ++ b',' ∷ print_hex n)

read_text-IsPlain : (addr n : ℕ) → addr < 2 ^ 32 → n < 2 ^ 32 → IsPlain (read_text addr n)
read_text-IsPlain addr n h k = (
  (λ e. omega (arith, e)),
  All-append (λ x. x ≢ b'#') (print_hex addr) (b',' ∷ print_hex n) (print_hex-IsPlain addr h)
      ((λ e. omega (arith, e)), print_hex-IsPlain n k),
)

get_or-drop : (k i d : ℕ) (memory : List ℕ) → get_or (drop k memory) i d ≡ get_or memory (k + i) d
get_or-drop zero i d memory = let e : 0 + i ≡ i = omega arith in rw e refl
get_or-drop (suc k) i d [] = refl
get_or-drop (suc k) i d (x ∷ memory) =
    let e : suc k + i ≡ suc (k + i) = omega arith in rw e (get_or-drop k i d memory)

abbrev packet_at : ℕ → List ℕ → Packet
packet_at len data' = record { data' = data'; len = len }

-- The packet that the queue hands over for a delivered text.
queued-read_packet :
    (addr n : ℕ) (out : List ℕ) (pkt : GdbPacket)
    → pkt.len ≡ length (read_text addr n)
    → slice pkt.at pkt.len out ≡ read_text addr n
    → get_or out (pkt.at + pkt.len) 1 ≡ 0
    → queued out pkt
      ≡ read_packet addr n (drop (suc (length (read_text addr n))) (drop pkt.at out)) pkt.len
unfolding queued
queued-read_packet addr n out pkt size bytes end =
    let text = read_text addr n in
    let taken : take (length text) (drop pkt.at out) ≡ text = rw (← size) bytes in
    let zeroed : get_or (drop pkt.at out) (length text) 1 ≡ 0 =
      rw (← size) (get_or-drop pkt.at pkt.len 1 out ∙ end) in
    let rest = drop (suc (length text)) (drop pkt.at out) in
    let split : drop pkt.at out ≡ b'm' ∷ (print_hex addr ++ b',' ∷ (print_hex n ++ 0 ∷ rest)) =
      behind_text text (drop pkt.at out) taken zeroed
      ∙ ap (λ l. b'm' ∷ l) (append_assoc (print_hex addr) (b',' ∷ print_hex n) (0 ∷ rest)) in
    ap (packet_at pkt.len) split

module _ {W : Type 0} (target : Target W) where
  -- A round on a target that is not running is the handler of the packet.
  poll_m :
      (addr n len : ℕ) (rest : List ℕ) (s : State W)
      → s.target_running ≡ false
      → poll target (some (read_packet addr n rest len)) s
        ≡ gdb_server_cmd_m target (read_packet addr n rest len) s
  unfolding poll poll_halted dispatch
  poll_m addr n len rest s h = rw (h, and-false s.gdb_connected) refl

  -- A command `m` of the debugger, which arrives in any number of parts after any bytes that are no marks
  -- of a packet, is answered in full: the round of the server that gets it reads `n` bytes, 543 at most,
  -- of the target and adds one response, and what the answering task sends for it, in packets of 1 to 64
  -- bytes, is the frame of the text of these bytes. The stream fits in the command buffer, the target is
  -- not running and delivers the bytes, the response has two bytes before it and five after it in its
  -- buffer, and the device is configured in enough rounds of the send loop.
  pub wire_read :
      (no_ack : Bool) (status : List Bool) (b0 b1 addr n : ℕ)
      (buf junk tail bytes room post : List ℕ) (pieces : List (List ℕ)) (s : State W) (w : W)
      → length buf ≡ gdb_packet_buff_size + 64
      → flatten pieces ≡ junk ++ (b'$' ∷ (read_text addr n ++ (b'#' ∷ tail)))
      → length (flatten pieces) ≤ gdb_packet_buff_size + 64
      → All (λ x. x ≢ b'$') junk
      → All (λ x. x ≢ b'#') junk
      → addr < 2 ^ 32
      → n ≤ 543
      → s.target_running ≡ false
      → s.mem_addr < 2 ^ 32
      → length s.mem_buffer ≡ buff_size
      → target.read_memory addr n s.target ≡ some (bytes, w)
      → length bytes ≡ n
      → length room ≡ 5
      → 2 * n + 6 ≤ cdc_acm_data_packet_size * configured status
      → (s' : State W) × (sent : Sent) × (wire_round target buf pieces s ≡ some (tt, s'))
        × (s'.responses ≡ s.responses ++ bin_to_hex bytes ∷ [])
        × (s'.target ≡ w)
        × (respond no_ack status
              (buffer b0 b1 (bin_to_hex bytes) room post)
              (record { len = length (bin_to_hex bytes); at = 2 })
            ≡ some sent)
        × (sent.left ≡ 0)
        × (flatten sent.packets ≡ framed no_ack (bin_to_hex bytes))
        × All (λ p. (1 ≤ length p) × (length p ≤ cdc_acm_data_packet_size)) sent.packets
  unfolding wire_round round_of
  wire_read no_ack status b0 b1 addr n buf junk tail bytes room post pieces s w space stream fits
        no_dollar no_sharp low short halted upper size read full spare rounds =
      let text = read_text addr n in
      let (rx, out, pkt, received, delivered, len, whole, end) =
        receive-payload buf junk text tail pieces space stream fits no_dollar no_sharp
          (read_text-IsPlain addr n low (omega arith)) in
      let rest = drop (suc (length text)) (drop pkt.at out) in
      let (s', run, answers, at, size', addr') =
        m_answer target addr n pkt.len rest bytes s w low short upper size read full in
      let (sent, send, left, packets, sizes) =
        respond-framed no_ack status b0 b1 (bin_to_hex bytes) room post spare
          (omega (arith, length-bin_to_hex bytes)) in
      let handled : poll target (some (queued out pkt)) s ≡ some (tt, s') =
        rw (queued-read_packet addr n out pkt len whole end)
          (poll_m addr n pkt.len rest s halted ∙ run) in
      (s', sent, rw (received, ◌>>=◌, delivered) handled, answers, at, send, left, packets, sizes)
