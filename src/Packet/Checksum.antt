-- ===== src/Packet/Checksum.antt =====
-- `gdb_packet_checksum` of gdb-packet.c against the sum that the remote protocol asks for.
use nuclei_dlink.Base.{ℕ, ◌+◌, ◌%◌, ◌^◌, ◌≡◌, List, [], ◌∷◌, arith}
use nuclei_dlink.Packet.{sum_from, gdb_packet_checksum}

-- The sum of the bytes, with no wrap.
abbrev pub sum : List ℕ → ℕ
sum [] = 0
sum (b ∷ bs) = b + sum bs

sum_from_lem : (acc : ℕ) (bs : List ℕ) → sum_from acc bs % 2 ^ 8 ≡ (acc + sum bs) % 2 ^ 8
unfolding sum_from
sum_from_lem acc [] = omega arith
sum_from_lem acc (b ∷ bs) = omega (arith, sum_from_lem ((acc + b) % 2 ^ 32) bs)

-- The checksum is the sum of the bytes modulo 256, however often the 32-bit accumulator wraps.
pub gdb_packet_checksum-sum : (bs : List ℕ) → gdb_packet_checksum bs ≡ sum bs % 2 ^ 8
unfolding gdb_packet_checksum
gdb_packet_checksum-sum bs = omega (arith, sum_from_lem 0 bs)
