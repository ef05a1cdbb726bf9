-- ===== src/Codec/Words.antt =====
-- Words as little-endian hexadecimal text: `uint32_to_hex_le`, `hex_to_uint32_le` and the 64-bit
-- versions of gdb-server.c.
use nuclei_dlink.Base.{
  ℕ, ◌+◌, ◌*◌, ◌/◌, ◌%◌, ◌^◌, ◌<◌, bit_or, bit_or_above, ◌≡◌, some, List, ◌++◌, arith, length,
}
use nuclei_dlink.Codec.{
  bin_to_hex, hex_to_bin, uint32_bytes, uint64_bytes, uint32_to_hex_le, uint64_to_hex_le, join32,
  join64, hex_to_uint32_le, hex_to_uint64_le,
}
use nuclei_dlink.Codec.Hex.{IsBytes, hex_to_bin-bin_to_hex}

-- Four bytes joined are the number that they stand for.
join32_sum :
    (b0 b1 b2 b3 : ℕ)
    → b0 < 2 ^ 8
    → b1 < 2 ^ 8
    → b2 < 2 ^ 8
    → bit_or (bit_or (bit_or b0 (b1 * 2 ^ 8)) (b2 * 2 ^ 16)) (b3 * 2 ^ 24)
      ≡ b0 + b1 * 2 ^ 8 + b2 * 2 ^ 16 + b3 * 2 ^ 24
join32_sum b0 b1 b2 b3 h0 h1 h2 = ground (
  arith,
  bit_or_above 8 b0 b1,
  bit_or_above 16 (b0 + b1 * 2 ^ 8) b2,
  bit_or_above 24 (b0 + b1 * 2 ^ 8 + b2 * 2 ^ 16) b3,
)

join64_sum :
    (low b4 b5 b6 b7 : ℕ)
    → low < 2 ^ 32
    → b4 < 2 ^ 8
    → b5 < 2 ^ 8
    → b6 < 2 ^ 8
    → bit_or (bit_or (bit_or (bit_or low (b4 * 2 ^ 32)) (b5 * 2 ^ 40)) (b6 * 2 ^ 48)) (b7 * 2 ^ 56)
      ≡ low + b4 * 2 ^ 32 + b5 * 2 ^ 40 + b6 * 2 ^ 48 + b7 * 2 ^ 56
join64_sum low b4 b5 b6 b7 h h4 h5 h6 = ground (
  arith,
  bit_or_above 32 low b4,
  bit_or_above 40 (low + b4 * 2 ^ 32) b5,
  bit_or_above 48 (low + b4 * 2 ^ 32 + b5 * 2 ^ 40) b6,
  bit_or_above 56 (low + b4 * 2 ^ 32 + b5 * 2 ^ 40 + b6 * 2 ^ 48) b7,
)

join32-uint32_bytes : (w : ℕ) → w < 2 ^ 32 → join32 (uint32_bytes w) ≡ some w
unfolding join32 uint32_bytes
join32-uint32_bytes w h =
    ground
      (arith, join32_sum (w % 2 ^ 8) (w / 2 ^ 8 % 2 ^ 8) (w / 2 ^ 16 % 2 ^ 8) (w / 2 ^ 24 % 2 ^ 8))

join64-uint64_bytes : (w : ℕ) → w < 2 ^ 64 → join64 (uint64_bytes w) ≡ some w
unfolding join64 uint64_bytes
join64-uint64_bytes w h = ground (
  arith,
  join32_sum (w % 2 ^ 8) (w / 2 ^ 8 % 2 ^ 8) (w / 2 ^ 16 % 2 ^ 8) (w / 2 ^ 24 % 2 ^ 8),
  join64_sum (w % 2 ^ 32) (w / 2 ^ 32 % 2 ^ 8) (w / 2 ^ 40 % 2 ^ 8) (w / 2 ^ 48 % 2 ^ 8)
      (w / 2 ^ 56 % 2 ^ 8),
)

uint32_bytes-IsBytes : (w : ℕ) → IsBytes (uint32_bytes w)
unfolding uint32_bytes
uint32_bytes-IsBytes w = omega arith

uint64_bytes-IsBytes : (w : ℕ) → IsBytes (uint64_bytes w)
unfolding uint64_bytes
uint64_bytes-IsBytes w = omega arith

length-uint32_bytes : (w : ℕ) → length (uint32_bytes w) ≡ 4
unfolding uint32_bytes
length-uint32_bytes w = omega arith

-- The text of a 32-bit word reads back as the word, whatever follows it in the buffer.
hex_to_uint32_le-uint32_to_hex_le :
    (w : ℕ) (rest : List ℕ) → w < 2 ^ 32 → hex_to_uint32_le (uint32_to_hex_le w ++ rest) ≡ some w
unfolding hex_to_uint32_le uint32_to_hex_le
hex_to_uint32_le-uint32_to_hex_le w rest h = ground (arith, read, join32-uint32_bytes w)
  where
    read : hex_to_bin (bin_to_hex (uint32_bytes w) ++ rest) 4 ≡ some (uint32_bytes w)
    read =
        unfold uint32_bytes in hex_to_bin-bin_to_hex (uint32_bytes w) rest (uint32_bytes-IsBytes w)

-- The text of a 64-bit word reads back as the word, whatever follows it in the buffer.
hex_to_uint64_le-uint64_to_hex_le :
    (w : ℕ) (rest : List ℕ) → w < 2 ^ 64 → hex_to_uint64_le (uint64_to_hex_le w ++ rest) ≡ some w
unfolding hex_to_uint64_le uint64_to_hex_le
hex_to_uint64_le-uint64_to_hex_le w rest h = ground (arith, read, join64-uint64_bytes w)
  where
    read : hex_to_bin (bin_to_hex (uint64_bytes w) ++ rest) 8 ≡ some (uint64_bytes w)
    read =
        unfold uint64_bytes in hex_to_bin-bin_to_hex (uint64_bytes w) rest (uint64_bytes-IsBytes w)
