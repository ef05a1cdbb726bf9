-- ===== src/Opcodes/Fields.antt =====
-- The fields of the encoded loads and stores.
use nuclei_dlink.Base.{
  ℕ, ◌/◌, ◌%◌, ◌^◌, ◌<◌, ◌≡◌, refl, bit_or, arith, bit_or-field_left, bit_or-field_right,
}
use nuclei_dlink.Opcodes.{
  bits, inst_rd, inst_rs1, inst_rs2, imm_i, imm_s, sb, sh, sw, sd, fsw, fsd, lb, lh, lw, ld, flw,
  fld, csrrw, csrrs,
}

-- A load: the immediate, the base register, the destination, the fixed bits.
pub load_word : ℕ → ℕ → ℕ → ℕ → ℕ
load_word rd base offset m = bit_or (bit_or (bit_or (imm_i offset) (inst_rs1 base)) (inst_rd rd)) m

-- A store.
pub store_word : ℕ → ℕ → ℕ → ℕ → ℕ
store_word src base offset m =
    bit_or (bit_or (bit_or (imm_s offset) (inst_rs2 src)) (inst_rs1 base)) m

module _ (rd base offset m : ℕ) (fits : m < 2 ^ 15) where
  pub load_word-opcode : load_word rd base offset m / 2 ^ 0 % 2 ^ 7 ≡ m % 2 ^ 7
  unfolding load_word imm_i inst_rs1 inst_rd bits
  load_word-opcode =
      bit_or-field_right 0 7 _ _
        (bit_or-field_left 0 7 _ _ (bit_or-field_left 0 7 _ _ (omega arith) (omega arith))
          (omega arith))
        (omega arith)

  pub load_word-base : load_word rd base offset m / 2 ^ 15 % 2 ^ 5 ≡ base % 2 ^ 5
  unfolding load_word imm_i inst_rs1 inst_rd bits
  load_word-base =
      bit_or-field_left 15 5 _ _
        (bit_or-field_left 15 5 _ _ (bit_or-field_right 15 5 _ _ (omega arith) (omega arith))
          (omega arith))
        (omega arith)

  pub load_word-offset : load_word rd base offset m / 2 ^ 20 % 2 ^ 12 ≡ offset % 2 ^ 12
  unfolding load_word imm_i inst_rs1 inst_rd bits
  load_word-offset =
      bit_or-field_left 20 12 _ _
        (bit_or-field_left 20 12 _ _ (bit_or-field_left 20 12 _ _ (omega arith) (omega arith))
          (omega arith))
        (omega arith)

  pub load_word-rd : m / 2 ^ 7 % 2 ^ 5 ≡ 0 → load_word rd base offset m / 2 ^ 7 % 2 ^ 5 ≡ rd % 2 ^ 5
  unfolding load_word imm_i inst_rs1 inst_rd bits
  load_word-rd clear =
      bit_or-field_left 7 5 _ _
        (bit_or-field_right 7 5 _ _ (bit_or-field_left 7 5 _ _ (omega arith) (omega arith))
          (omega arith))
        clear

  pub load_word-funct3 : load_word rd base offset m / 2 ^ 12 % 2 ^ 3 ≡ m / 2 ^ 12 % 2 ^ 3
  unfolding load_word imm_i inst_rs1 inst_rd bits
  load_word-funct3 =
      bit_or-field_right 12 3 _ _
        (bit_or-field_left 12 3 _ _ (bit_or-field_left 12 3 _ _ (omega arith) (omega arith))
          (omega arith))
        refl

module _ (src base offset m : ℕ) (fits : m < 2 ^ 15) where
  pub store_word-opcode : store_word src base offset m / 2 ^ 0 % 2 ^ 7 ≡ m % 2 ^ 7
  unfolding store_word imm_s inst_rs1 inst_rs2 bits
  store_word-opcode =
      bit_or-field_right 0 7 _ _
        (bit_or-field_left 0 7 _ _
          (bit_or-field_left 0 7 _ _ (bit_or-field_left 0 7 _ _ (omega arith) (omega arith))
            (omega arith))
          (omega arith))
        (omega arith)

  pub store_word-base : store_word src base offset m / 2 ^ 15 % 2 ^ 5 ≡ base % 2 ^ 5
  unfolding store_word imm_s inst_rs1 inst_rs2 bits
  store_word-base =
      bit_or-field_left 15 5 _ _
        (bit_or-field_right 15 5 _ _
          (bit_or-field_left 15 5 _ _ (bit_or-field_left 15 5 _ _ (omega arith) (omega arith))
            (omega arith))
          (omega arith))
        (omega arith)

  pub store_word-low :
      m / 2 ^ 7 % 2 ^ 5 ≡ 0 → store_word src base offset m / 2 ^ 7 % 2 ^ 5 ≡ offset % 2 ^ 5
  unfolding store_word imm_s inst_rs1 inst_rs2 bits
  store_word-low clear =
      bit_or-field_left 7 5 _ _
        (bit_or-field_left 7 5 _ _
          (bit_or-field_left 7 5 _ _ (bit_or-field_left 7 5 _ _ (omega arith) (omega arith))
            (omega arith))
          (omega arith))
        clear

  pub store_word-high : store_word src base offset m / 2 ^ 25 % 2 ^ 7 ≡ offset / 2 ^ 5 % 2 ^ 7
  unfolding store_word imm_s inst_rs1 inst_rs2 bits
  store_word-high =
      bit_or-field_left 25 7 _ _
        (bit_or-field_left 25 7 _ _
          (bit_or-field_left 25 7 _ _ (bit_or-field_right 25 7 _ _ (omega arith) (omega arith))
            (omega arith))
          (omega arith))
        (omega arith)

pub stores :
    (src base offset : ℕ)
    → (sb src base offset ≡ store_word src base offset 0x23)
      × (sh src base offset ≡ store_word src base offset 0x1023)
      × (sw src base offset ≡ store_word src base offset 0x2023)
      × (sd src base offset ≡ store_word src base offset 0x3023)
      × (fsw src base offset ≡ store_word src base offset 0x2027)
      × (fsd src base offset ≡ store_word src base offset 0x3027)
unfolding store_word sb sh sw sd fsw fsd
stores src base offset = (refl, refl, refl, refl, refl, refl)

pub loads :
    (rd base offset : ℕ)
    → (lb rd base offset ≡ load_word rd base offset 0x3)
      × (lh rd base offset ≡ load_word rd base offset 0x1003)
      × (lw rd base offset ≡ load_word rd base offset 0x2003)
      × (ld rd base offset ≡ load_word rd base offset 0x3003)
      × (flw rd base offset ≡ load_word rd base offset 0x2007)
      × (fld rd base offset ≡ load_word rd base offset 0x3007)
unfolding load_word lb lh lw ld flw fld
loads rd base offset = (refl, refl, refl, refl, refl, refl)

-- The accesses of CSRs have the form of a load.
pub csr_accesses :
    (rd rs csr : ℕ)
    → (csrrw rd rs csr ≡ load_word rd rs csr 0x1073)
      × (csrrs rd rs csr ≡ load_word rd rs csr 0x2073)
unfolding load_word csrrw csrrs
csr_accesses rd rs csr = (refl, refl)
