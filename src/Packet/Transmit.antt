-- ===== src/Packet/Transmit.antt =====
-- The send loop of `gdb_rsp_packet_vTask`: it ends, and sends the frame whole and in order.
use mathlib.Core.List.{flatten, append-nil}
use nuclei_dlink.Base.{
  ℕ, suc, ◌-◌, ◌*◌, ◌≤◌, ◌<◌, ◌≡◌, refl, ap, ◌∙◌, Bool, true, false, List, [], ◌∷◌, ◌++◌, arith,
  ◌==◌, length, take, drop, take-drop-append, All, Bool-cases, inl, inr, length-take, length-drop,
  ==_of_ne,
}
use nuclei_dlink.Packet.{Sent, chunk, transmit, cdc_acm_data_packet_size}

-- How many rounds of the loop find the device configured.
abbrev pub configured : List Bool → ℕ
configured [] = 0
configured (true ∷ status) = suc (configured status)
configured (false ∷ status) = configured status

-- All was sent, in order, and in packets that a USB endpoint takes.
pub record IsSent (mem : List ℕ) (len : ℕ) (sent : Sent) : Type 0 where
  pub finished : sent.left ≡ 0
  pub in_order : flatten sent.packets ≡ take len mem
  pub sizes : All (λ p. (1 ≤ length p) × (length p ≤ cdc_acm_data_packet_size)) sent.packets

chunk_bounds : (len : ℕ) → 0 < len → (1 ≤ chunk len) × (chunk len ≤ 64) × (chunk len ≤ len)
unfolding chunk
chunk_bounds len pos = ground arith

-- One packet in front of what is sent after it.
IsSent-cons :
    (mem : List ℕ) (len n : ℕ) (rest : Sent)
    → (1 ≤ n) × (n ≤ 64) × (n ≤ len)
    → len ≤ length mem
    → IsSent (drop n mem) (len - n) rest
    → IsSent mem len (record { packets = take n mem ∷ rest.packets; left = rest.left })
IsSent-cons mem len n rest bounds fits tail = record {
  finished = tail.finished;
  in_order =
      unfold flatten in
      ap (λ l. take n mem ++ l) tail.in_order
      ∙ take-drop-append n (len - n) mem
      ∙ ap (λ (k : ℕ). take k mem) (omega arith);
  sizes = (omega (arith, length-take n mem), tail.sizes);
}

IsSent-last :
    (mem : List ℕ) (len : ℕ)
    → (1 ≤ len) × (len ≤ 64)
    → len ≤ length mem
    → IsSent mem len (record { packets = take len mem ∷ []; left = 0 })
IsSent-last mem len bounds fits = record {
  finished = refl;
  in_order = unfold flatten in append-nil (take len mem);
  sizes = omega (arith, length-take len mem);
}

-- If the device is configured in enough rounds, the loop ends, what it sent is the `len` bytes in
-- order, and each packet has from 1 to 64 bytes.
pub transmit-IsSent :
    (status : List Bool) (mem : List ℕ) (len : ℕ)
    → 0 < len
    → len ≤ length mem
    → len ≤ cdc_acm_data_packet_size * configured status
    → IsSent mem len (transmit status mem len)
unfolding transmit
transmit-IsSent [] mem len pos fits rounds = absurd (omega arith)
transmit-IsSent (false ∷ status) mem len pos fits rounds =
    rw (==_of_ne len 0 (omega arith)) (transmit-IsSent status mem len pos fits rounds)
transmit-IsSent (true ∷ status) mem len pos fits rounds = elim (Bool-cases (len - chunk len == 0)) [
  | inl done ↦
      let whole : chunk len ≡ len = ground (arith, chunk_bounds len pos) in
      rw done (rw whole (IsSent-last mem len (ground (arith, chunk_bounds len pos)) fits))
  | inr more ↦ rw more (
      IsSent-cons mem len (chunk len) _ (chunk_bounds len pos) fits (
        transmit-IsSent status (drop (chunk len) mem) (len - chunk len) (ground arith)
          (omega (arith, length-drop (chunk len) mem, chunk_bounds len pos))
          (ground (arith, enough))))
]
  where
    enough : len - chunk len ≤ cdc_acm_data_packet_size * configured status
    enough = unfold chunk in ground arith
