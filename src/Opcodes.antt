-- ===== src/Opcodes.antt =====
-- arch/riscv/include/opcodes.h: the encoders of instructions. An argument is a value of its type.
mod Match
pub mod Fields
use nuclei_dlink.Base.{ℕ, zero, suc, ◌+◌, ◌-◌, ◌*◌, ◌/◌, ◌%◌, ◌^◌, bit_or}
use nuclei_dlink.Opcodes.Match.*

-- Bits `hi` down to `lo`, where they are fewer than 32.
pub bits : ℕ → ℕ → ℕ → ℕ
bits value hi lo = value / 2 ^ lo % 2 ^ (hi + 1 - lo)

pub bit : ℕ → ℕ → ℕ
bit value b = value / 2 ^ b % 2

pub inst_rd : ℕ → ℕ
inst_rd r = bits r 4 0 * 2 ^ 7

pub inst_rs1 : ℕ → ℕ
inst_rs1 r = bits r 4 0 * 2 ^ 15

pub inst_rs2 : ℕ → ℕ
inst_rs2 r = bits r 4 0 * 2 ^ 20

pub imm_i : ℕ → ℕ
imm_i imm = bits imm 11 0 * 2 ^ 20

pub imm_s : ℕ → ℕ
imm_s imm = bit_or (bits imm 4 0 * 2 ^ 7) (bits imm 11 5 * 2 ^ 25)

pub imm_b : ℕ → ℕ
imm_b imm =
    bit_or (bit_or (bit_or (bit imm 11 * 2 ^ 7) (bits imm 4 1 * 2 ^ 8)) (bits imm 10 5 * 2 ^ 25))
      (bit imm 12 * 2 ^ 31)

pub imm_u : ℕ → ℕ
imm_u imm = bits imm 31 12 * 2 ^ 12

pub imm_j : ℕ → ℕ
imm_j imm =
    bit_or
      (bit_or (bit_or (bits imm 19 12 * 2 ^ 12) (bit imm 11 * 2 ^ 20)) (bits imm 10 1 * 2 ^ 21))
      (bit imm 20 * 2 ^ 31)

pub jal : ℕ → ℕ → ℕ
jal rd imm = bit_or (bit_or (imm_j imm) (inst_rd rd)) match_jal

pub csrsi : ℕ → ℕ → ℕ
csrsi csr imm = bit_or (bit_or (imm_i csr) (inst_rs1 imm)) match_csrrsi

pub sw : ℕ → ℕ → ℕ → ℕ
sw src base offset = bit_or (bit_or (bit_or (imm_s offset) (inst_rs2 src)) (inst_rs1 base)) match_sw

pub sd : ℕ → ℕ → ℕ → ℕ
sd src base offset = bit_or (bit_or (bit_or (imm_s offset) (inst_rs2 src)) (inst_rs1 base)) match_sd

pub sh : ℕ → ℕ → ℕ → ℕ
sh src base offset = bit_or (bit_or (bit_or (imm_s offset) (inst_rs2 src)) (inst_rs1 base)) match_sh

pub sb : ℕ → ℕ → ℕ → ℕ
sb src base offset = bit_or (bit_or (bit_or (imm_s offset) (inst_rs2 src)) (inst_rs1 base)) match_sb

pub ld : ℕ → ℕ → ℕ → ℕ
ld rd base offset = bit_or (bit_or (bit_or (imm_i offset) (inst_rs1 base)) (inst_rd rd)) match_ld

pub lw : ℕ → ℕ → ℕ → ℕ
lw rd base offset = bit_or (bit_or (bit_or (imm_i offset) (inst_rs1 base)) (inst_rd rd)) match_lw

pub lh : ℕ → ℕ → ℕ → ℕ
lh rd base offset = bit_or (bit_or (bit_or (imm_i offset) (inst_rs1 base)) (inst_rd rd)) match_lh

pub lb : ℕ → ℕ → ℕ → ℕ
lb rd base offset = bit_or (bit_or (bit_or (imm_i offset) (inst_rs1 base)) (inst_rd rd)) match_lb

pub csrw : ℕ → ℕ → ℕ
csrw source csr = bit_or (bit_or (imm_i csr) (inst_rs1 source)) match_csrrw

pub addi : ℕ → ℕ → ℕ → ℕ
addi dest src imm = bit_or (bit_or (bit_or (imm_i imm) (inst_rs1 src)) (inst_rd dest)) match_addi

pub csrr : ℕ → ℕ → ℕ
csrr rd csr = bit_or (bit_or (imm_i csr) (inst_rd rd)) match_csrrs

pub csrrs : ℕ → ℕ → ℕ → ℕ
csrrs rd rs csr = bit_or (bit_or (bit_or (imm_i csr) (inst_rs1 rs)) (inst_rd rd)) match_csrrs

pub csrrw : ℕ → ℕ → ℕ → ℕ
csrrw rd rs csr = bit_or (bit_or (bit_or (imm_i csr) (inst_rs1 rs)) (inst_rd rd)) match_csrrw

pub csrrci : ℕ → ℕ → ℕ → ℕ
csrrci rd zimm csr = bit_or (bit_or (bit_or (imm_i csr) (inst_rs1 zimm)) (inst_rd rd)) match_csrrci

pub csrrsi : ℕ → ℕ → ℕ → ℕ
csrrsi rd zimm csr = bit_or (bit_or (bit_or (imm_i csr) (inst_rs1 zimm)) (inst_rd rd)) match_csrrsi

pub fsw : ℕ → ℕ → ℕ → ℕ
fsw src base offset =
    bit_or (bit_or (bit_or (imm_s offset) (inst_rs2 src)) (inst_rs1 base)) match_fsw

pub fsd : ℕ → ℕ → ℕ → ℕ
fsd src base offset =
    bit_or (bit_or (bit_or (imm_s offset) (inst_rs2 src)) (inst_rs1 base)) match_fsd

pub flw : ℕ → ℕ → ℕ → ℕ
flw dest base offset =
    bit_or (bit_or (bit_or (imm_i offset) (inst_rs1 base)) (inst_rd dest)) match_flw

pub fld : ℕ → ℕ → ℕ → ℕ
fld dest base offset =
    bit_or (bit_or (bit_or (imm_i offset) (inst_rs1 base)) (inst_rd dest)) match_fld

pub fmv_x_w : ℕ → ℕ → ℕ
fmv_x_w dest src = bit_or (bit_or (inst_rs1 src) (inst_rd dest)) match_fmv_x_w

pub fmv_x_d : ℕ → ℕ → ℕ
fmv_x_d dest src = bit_or (bit_or (inst_rs1 src) (inst_rd dest)) match_fmv_x_d

pub fmv_w_x : ℕ → ℕ → ℕ
fmv_w_x dest src = bit_or (bit_or (inst_rs1 src) (inst_rd dest)) match_fmv_w_x

pub fmv_d_x : ℕ → ℕ → ℕ
fmv_d_x dest src = bit_or (bit_or (inst_rs1 src) (inst_rd dest)) match_fmv_d_x

unfoldable pub ebreak : ℕ
ebreak = match_ebreak

pub ebreak_c : ℕ
ebreak_c = match_c_ebreak

pub wfi : ℕ
wfi = match_wfi

pub fence_i : ℕ
fence_i = match_fence_i

pub lui : ℕ → ℕ → ℕ
lui dest imm = bit_or (bit_or (imm_u imm) (inst_rd dest)) match_lui

pub xori : ℕ → ℕ → ℕ → ℕ
xori dest src imm = bit_or (bit_or (bit_or (imm_i imm) (inst_rs1 src)) (inst_rd dest)) match_xori

pub srli : ℕ → ℕ → ℕ → ℕ
srli dest src shamt =
    bit_or (bit_or (bit_or (inst_rs2 shamt) (inst_rs1 src)) (inst_rd dest)) match_srli

pub fence : ℕ
fence = match_fence

pub auipc : ℕ → ℕ
auipc dest = bit_or match_auipc (inst_rd dest)

pub vsetvli : ℕ → ℕ → ℕ → ℕ
vsetvli dest src imm =
    bit_or (bit_or (bit_or (bits imm 10 0 * 2 ^ 20) (inst_rs1 src)) (inst_rd dest)) match_vsetvli

pub vsetvl : ℕ → ℕ → ℕ → ℕ
vsetvl rd rs1 rs2 = bit_or (bit_or (bit_or (inst_rd rd) (inst_rs1 rs1)) (inst_rs2 rs2)) match_vsetvl

pub vmv_x_s : ℕ → ℕ → ℕ
vmv_x_s rd vs2 = bit_or (bit_or (inst_rs2 vs2) (inst_rd rd)) match_vmv_x_s

pub vmv_s_x : ℕ → ℕ → ℕ
vmv_s_x vd rs1 = bit_or (bit_or (inst_rs1 rs1) (inst_rd vd)) match_vmv_s_x

pub vslide1down_vx : ℕ → ℕ → ℕ → ℕ → ℕ
vslide1down_vx vd vs2 rs1 vm =
    bit_or (bit_or (bit_or (bit_or (vm % 2 * 2 ^ 25) (inst_rs2 vs2)) (inst_rs1 rs1)) (inst_rd vd))
      match_vslide1down_vx
