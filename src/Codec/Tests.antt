-- ===== src/Codec/Tests.antt =====
-- The codecs on concrete inputs, and their theorems at such inputs.
use nuclei_dlink.Base.{ℕ, ◌≤◌, ◌≡◌, refl, some, List, [], ◌∷◌, ◌++◌, arith, length, take}
use nuclei_dlink.Codec.{
  hex_digit, bin_to_hex, digit_value, hex_to_byte, hex_to_bin, escape, is_special, encode_from,
  bin_encode, bin_decode,
}
use nuclei_dlink.Codec.Hex.{hex_to_bin-bin_to_hex}
use nuclei_dlink.Codec.Escape.{bin_decode-bin_encode}

abbrev sample : List ℕ
sample = 0x00 ∷ 0x9a ∷ 0xff ∷ []

hex_text : bin_to_hex sample ≡ b'0' ∷ b'0' ∷ b'9' ∷ b'a' ∷ b'f' ∷ b'f' ∷ []
unfolding bin_to_hex hex_digit
hex_text = refl

-- Upper-case digits are read too.
upper_case : hex_to_byte b'C' b'7' ≡ 0xc7
unfolding hex_to_byte digit_value
upper_case = refl

-- The second of two escaped bytes is lost: the loop stops once three bytes are written.
cut_short : bin_encode (0x24 ∷ 0x23 ∷ 0x41 ∷ []) ≡ 0x7d ∷ 0x04 ∷ 0x7d ∷ 0x03 ∷ []
unfolding bin_encode encode_from escape is_special
cut_short = refl

hex_to_bin-bin_to_hex_example : hex_to_bin (bin_to_hex sample ++ (b'#' ∷ [])) 3 ≡ some sample
hex_to_bin-bin_to_hex_example = hex_to_bin-bin_to_hex sample (b'#' ∷ []) (omega arith)

bin_decode-bin_encode_example :
    (sent : ℕ) × (sent ≤ 3)
    × (bin_decode (bin_encode (0x24 ∷ 0x23 ∷ 0x41 ∷ [])) ≡ take sent (0x24 ∷ 0x23 ∷ 0x41 ∷ []))
    × (3 ≤ length (bin_encode (0x24 ∷ 0x23 ∷ 0x41 ∷ [])))
    × (length (bin_encode (0x24 ∷ 0x23 ∷ 0x41 ∷ [])) ≤ 4)
bin_decode-bin_encode_example = bin_decode-bin_encode (0x24 ∷ 0x23 ∷ 0x41 ∷ [])
