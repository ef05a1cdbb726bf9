-- ===== src/Codec/Escape.antt =====
-- The escaping of binary packets: `bin_encode` and `bin_decode` of gdb-server.c.
use nuclei_dlink.Base.{
  ℕ, suc, ◌+◌, ◌≤◌, ◌<◌, ◌≡◌, refl, ap, ◌∙◌, false, List, [], ◌∷◌, ◌++◌, arith, inl, inr, leb,
  length, take, Bool-cases, length-append,
}
use nuclei_dlink.Codec.{is_special, escape, encode_from, bin_encode, decode_from, bin_decode}

-- All bytes escaped: what `bin_encode` would write with no limit.
abbrev pub escape_all : List ℕ → List ℕ
escape_all [] = []
escape_all (b ∷ bin) = escape b ++ escape_all bin

pub length-escape : (b : ℕ) → (1 ≤ length (escape b)) × (length (escape b) ≤ 2)
unfolding escape
length-escape b = ground arith

-- An escaped byte reads back as the byte.
decode_from-escape :
    (b : ℕ) (rest : List ℕ) → decode_from false (escape b ++ rest) ≡ b ∷ decode_from false rest
unfolding escape is_special decode_from
decode_from-escape b rest = ground arith

decode_from-escape_all : (bin : List ℕ) → decode_from false (escape_all bin) ≡ bin
decode_from-escape_all [] = unfold decode_from in refl
decode_from-escape_all (b ∷ bin) =
    decode_from-escape b (escape_all bin) ∙ ap (λ l. b ∷ l) (decode_from-escape_all bin)

-- What the loop writes: the escapes of the first `sent` bytes, and it stops no earlier and at most
-- one byte later than the limit.
record IsCut (bin_len xbin_len : ℕ) (bin out : List ℕ) : Type 0 where
  sent : ℕ
  within : sent ≤ length bin
  written : out ≡ escape_all (take sent bin)
  reaches : bin_len ≤ xbin_len + length out
  stops : length out + xbin_len ≤ suc bin_len

encode_from-IsCut :
    (bin_len xbin_len : ℕ) (bin : List ℕ)
    → xbin_len < bin_len
    → bin_len ≤ xbin_len + length bin
    → IsCut bin_len xbin_len bin (encode_from bin_len xbin_len bin)
encode_from-IsCut bin_len xbin_len [] h k = absurd (omega arith)
encode_from-IsCut bin_len xbin_len (b ∷ bin) h k =
    elim (Bool-cases (leb bin_len (xbin_len + length (escape b)))) [
      | inl full ↦ record {
        sent = 1;
        within = omega arith;
        written = unfold encode_from in rw full (refl);
        reaches = unfold encode_from in rw full (ground (arith, length-append (escape b) []));
        stops =
            unfold encode_from in
            rw full (ground (arith, length-append (escape b) [], length-escape b));
      }
      | inr more ↦ extend more (
          encode_from-IsCut bin_len (xbin_len + length (escape b)) bin (ground arith)
            (ground (arith, length-escape b)))
    ]
  where
    extend :
        leb bin_len (xbin_len + length (escape b)) ≡ false
        → IsCut bin_len
            (xbin_len + length (escape b))
            bin
            (encode_from bin_len (xbin_len + length (escape b)) bin)
        → IsCut bin_len xbin_len (b ∷ bin) (encode_from bin_len xbin_len (b ∷ bin))
    extend more rest =
        let out = encode_from bin_len (xbin_len + length (escape b)) bin in
        record {
          sent = suc rest.sent;
          within = omega (arith, rest.within);
          written = unfold encode_from in rw more (ap (λ l. escape b ++ l) rest.written);
          reaches =
              unfold encode_from in
              rw more (omega (arith, rest.reaches, length-append (escape b) out));
          stops =
              unfold encode_from in
              rw more (omega (arith, rest.stops, length-append (escape b) out));
        }

-- The reply to a binary read of `bin` decodes to a prefix of `bin`, and has at least as many bytes
-- as `bin` and at most one more, so it fits the response buffer.
pub bin_decode-bin_encode :
    (bin : List ℕ)
    → (sent : ℕ) × (sent ≤ length bin)
      × (bin_decode (bin_encode bin) ≡ take sent bin)
      × (length bin ≤ length (bin_encode bin))
      × (length (bin_encode bin) ≤ length bin + 1)
unfolding bin_decode bin_encode
bin_decode-bin_encode [] =
    unfold encode_from decode_from in (0, omega arith, refl, omega arith, omega arith)
bin_decode-bin_encode (b ∷ bin) = (
  cut.sent,
  cut.within,
  ap (decode_from false) cut.written ∙ decode_from-escape_all (take cut.sent (b ∷ bin)),
  omega (arith, cut.reaches),
  omega (arith, cut.stops),
)
  where
    cut : IsCut (length (b ∷ bin)) 0 (b ∷ bin) (encode_from (length (b ∷ bin)) 0 (b ∷ bin))
    cut = encode_from-IsCut (length (b ∷ bin)) 0 (b ∷ bin) (omega arith) (omega arith)

-- Data that the debugger escaped, as in a memory or flash write packet, is decoded exactly.
bin_decode-escape_all : (bin : List ℕ) → bin_decode (escape_all bin) ≡ bin
unfolding bin_decode
bin_decode-escape_all bin = decode_from-escape_all bin
