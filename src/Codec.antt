-- ===== src/Codec.antt =====
-- server/gdb-server/source/gdb-server.c: the text and binary codecs of the remote protocol.
-- A buffer is the list of its bytes from the pointer on; what a function writes through its
-- output pointer is its result. `char` is unsigned on the RISC-V targets of the firmware.
pub mod Hex
pub mod Words
pub mod Escape
mod Tests
use mathlib.Core.Option
use nuclei_dlink.Base.{
  ℕ, zero, suc, ◌+◌, ◌-◌, ◌*◌, ◌/◌, ◌%◌, ◌^◌, bit_or, bit_xor, Bool, true, false, ◌||◌, Option,
  none, some, List, [], ◌∷◌, ◌++◌, ltb, leb, ◌==◌, if◌then◌else◌, length,
}

-- The cast to `uint8_t`.
abbrev pub u8 : ℕ → ℕ
u8 n = n % 2 ^ 8

-- A nibble as a lower-case hexadecimal digit.
unfoldable pub hex_digit : ℕ → ℕ
hex_digit n = if ltb n 10 then b'0' + n else b'a' + n - 10

-- The two digits of each byte, the high nibble first.
pub bin_to_hex : List ℕ → List ℕ
bin_to_hex [] = []
bin_to_hex (b ∷ bin) = hex_digit (b / 2 ^ 4 % 2 ^ 4) ∷ hex_digit (b % 2 ^ 4) ∷ bin_to_hex bin

-- The value of a digit, in `uint8_t`; the subtractions of a character that is no digit wrap.
pub digit_value : ℕ → ℕ
digit_value c =
    if leb c b'9'
    then u8 (c + 2 ^ 8 - b'0')
    else if leb c b'F'
    then u8 (c + 2 ^ 8 - b'A' + 10)
    else u8 (c + 2 ^ 8 - b'a' + 10)

pub hex_to_byte : ℕ → ℕ → ℕ
hex_to_byte hi lo = u8 (bit_or (digit_value hi * 2 ^ 4) (digit_value lo))

-- `nbyte` bytes read from `hex`; `none` is a read past the end of the buffer.
pub hex_to_bin : List ℕ → ℕ → Option (List ℕ)
hex_to_bin hex zero = some []
hex_to_bin [] (suc n) = none
hex_to_bin (h ∷ []) (suc n) = none
hex_to_bin (h ∷ l ∷ hex) (suc n) = Option.map (λ bin. hex_to_byte h l ∷ bin) (hex_to_bin hex n)

-- The bytes of a word, the lowest first.
pub uint32_bytes : ℕ → List ℕ
uint32_bytes w = w % 2 ^ 8 ∷ w / 2 ^ 8 % 2 ^ 8 ∷ w / 2 ^ 16 % 2 ^ 8 ∷ w / 2 ^ 24 % 2 ^ 8 ∷ []

pub uint64_bytes : ℕ → List ℕ
uint64_bytes w =
    w % 2 ^ 8
    ∷ w / 2 ^ 8 % 2 ^ 8
    ∷ w / 2 ^ 16 % 2 ^ 8
    ∷ w / 2 ^ 24 % 2 ^ 8
    ∷ w / 2 ^ 32 % 2 ^ 8
    ∷ w / 2 ^ 40 % 2 ^ 8
    ∷ w / 2 ^ 48 % 2 ^ 8
    ∷ w / 2 ^ 56 % 2 ^ 8
    ∷ []

pub uint32_to_hex_le : ℕ → List ℕ
uint32_to_hex_le w = bin_to_hex (uint32_bytes w)

pub uint64_to_hex_le : ℕ → List ℕ
uint64_to_hex_le w = bin_to_hex (uint64_bytes w)

-- Four bytes put together; any other number of bytes does not occur.
pub join32 : List ℕ → Option ℕ
join32 (b0 ∷ b1 ∷ b2 ∷ b3 ∷ []) =
    some (bit_or (bit_or (bit_or b0 (b1 * 2 ^ 8)) (b2 * 2 ^ 16)) (b3 * 2 ^ 24))
join32 _ = none

pub join64 : List ℕ → Option ℕ
join64 (b0 ∷ b1 ∷ b2 ∷ b3 ∷ b4 ∷ b5 ∷ b6 ∷ b7 ∷ []) =
    let low = bit_or (bit_or (bit_or b0 (b1 * 2 ^ 8)) (b2 * 2 ^ 16)) (b3 * 2 ^ 24) in
    let mid = bit_or (bit_or low (b4 * 2 ^ 32)) (b5 * 2 ^ 40) in
    some (bit_or (bit_or mid (b6 * 2 ^ 48)) (b7 * 2 ^ 56))
join64 _ = none

pub hex_to_uint32_le : List ℕ → Option ℕ
hex_to_uint32_le hex = elim (hex_to_bin hex 4) [ none ↦ none | some bytes ↦ join32 bytes ]

pub hex_to_uint64_le : List ℕ → Option ℕ
hex_to_uint64_le hex = elim (hex_to_bin hex 8) [ none ↦ none | some bytes ↦ join64 bytes ]

-- The bytes that the binary packets escape.
pub is_special : ℕ → Bool
is_special b = b == b'#' || b == b'$' || b == b'}' || b == b'*'

pub escape : ℕ → List ℕ
escape b = if is_special b then 0x7d ∷ bit_xor b 0x20 ∷ [] else b ∷ []

-- The loop of `bin_encode` with `xbin_len` bytes written; it stops once `bin_len` are.
pub encode_from : ℕ → ℕ → List ℕ → List ℕ
encode_from bin_len xbin_len [] = []
encode_from bin_len xbin_len (b ∷ bin) =
    let written = xbin_len + length (escape b) in
    let rest = encode_from bin_len written bin in
    escape b ++ (if leb bin_len written then [] else rest)

pub bin_encode : List ℕ → List ℕ
bin_encode bin = encode_from (length bin) 0 bin

-- The loop of `bin_decode`, with the flag `escape_found`.
pub decode_from : Bool → List ℕ → List ℕ
decode_from found [] = []
decode_from found (x ∷ xbin) = elim (x == 0x7d) [
  | true ↦ decode_from true xbin
  | false ↦ (if found then bit_xor x 0x20 else x) ∷ decode_from false xbin
]

pub bin_decode : List ℕ → List ℕ
bin_decode xbin = decode_from false xbin
