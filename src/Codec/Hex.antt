-- ===== src/Codec/Hex.antt =====
-- Hexadecimal text of bytes: `bin_to_hex` and `hex_to_bin` of gdb-server.c.
use nuclei_dlink.Base.{
  ℕ, zero, suc, map-eq-some, ◌*◌, ◌/◌, ◌%◌, ◌^◌, ◌<◌, ◌≡◌, refl, true, some, List, [], ◌∷◌, ◌++◌,
  arith, ◌==◌, ==_iff, length, All, every_below, every_below_sound,
}
use nuclei_dlink.Codec.{hex_digit, bin_to_hex, digit_value, hex_to_byte, hex_to_bin}

abbrev pub IsBytes : List ℕ → Type 0
IsBytes = All (λ b. b < 2 ^ 8)

hex_to_byte_table :
    every_below (λ b. hex_to_byte (hex_digit (b / 2 ^ 4 % 2 ^ 4)) (hex_digit (b % 2 ^ 4)) == b) 256
    ≡ true
unfolding every_below hex_to_byte hex_digit digit_value
hex_to_byte_table = refl

hex_to_byte-hex_digit :
    (b : ℕ) → b < 2 ^ 8 → hex_to_byte (hex_digit (b / 2 ^ 4 % 2 ^ 4)) (hex_digit (b % 2 ^ 4)) ≡ b
hex_to_byte-hex_digit b h = (==_iff _ b).0 (every_below_sound _ 256 b h hex_to_byte_table)

pub length-bin_to_hex : (bin : List ℕ) → length (bin_to_hex bin) ≡ 2 * length bin
unfolding bin_to_hex
length-bin_to_hex [] = omega arith
length-bin_to_hex (b ∷ bin) = omega (arith, length-bin_to_hex bin)

-- Reading back the text of some bytes gives the bytes, whatever follows the text in the buffer.
pub hex_to_bin-bin_to_hex :
    (bin rest : List ℕ) → IsBytes bin → hex_to_bin (bin_to_hex bin ++ rest) (length bin) ≡ some bin
unfolding hex_to_bin bin_to_hex
hex_to_bin-bin_to_hex [] rest h = refl
hex_to_bin-bin_to_hex (b ∷ bin) rest h =
    ground (arith, hex_to_bin-bin_to_hex bin rest h.1, hex_to_byte-hex_digit b h.0)

pub length-hex_to_bin :
    (hex : List ℕ) (n : ℕ) (bytes : List ℕ) → hex_to_bin hex n ≡ some bytes → length bytes ≡ n
unfolding hex_to_bin
length-hex_to_bin hex zero bytes e = cc
length-hex_to_bin [] (suc n) bytes e = cc
length-hex_to_bin (h ∷ []) (suc n) bytes e = cc
length-hex_to_bin (h ∷ l ∷ hex) (suc n) bytes e =
    let (r, e', same) = map-eq-some (λ bin. hex_to_byte h l ∷ bin) (hex_to_bin hex n) e in
    rw (same) (omega (arith, length-hex_to_bin hex n r e'))
