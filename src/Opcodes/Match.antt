-- ===== src/Opcodes/Match.antt =====
-- The fixed bits of the instructions: the `MATCH_…` of arch/riscv/include/encoding.h that
-- opcodes.h uses.
use nuclei_dlink.Base.{ℕ}

abbrev pub match_jal : ℕ
match_jal = 0x6f

abbrev pub match_csrrsi : ℕ
match_csrrsi = 0x6073

abbrev pub match_sw : ℕ
match_sw = 0x2023

abbrev pub match_sd : ℕ
match_sd = 0x3023

abbrev pub match_sh : ℕ
match_sh = 0x1023

abbrev pub match_sb : ℕ
match_sb = 0x23

abbrev pub match_ld : ℕ
match_ld = 0x3003

abbrev pub match_lw : ℕ
match_lw = 0x2003

abbrev pub match_lh : ℕ
match_lh = 0x1003

abbrev pub match_lb : ℕ
match_lb = 0x3

abbrev pub match_csrrw : ℕ
match_csrrw = 0x1073

abbrev pub match_addi : ℕ
match_addi = 0x13

abbrev pub match_csrrs : ℕ
match_csrrs = 0x2073

abbrev pub match_csrrci : ℕ
match_csrrci = 0x7073

abbrev pub match_fsw : ℕ
match_fsw = 0x2027

abbrev pub match_fsd : ℕ
match_fsd = 0x3027

abbrev pub match_flw : ℕ
match_flw = 0x2007

abbrev pub match_fld : ℕ
match_fld = 0x3007

abbrev pub match_fmv_x_w : ℕ
match_fmv_x_w = 0xe0000053

abbrev pub match_fmv_x_d : ℕ
match_fmv_x_d = 0xe2000053

abbrev pub match_fmv_w_x : ℕ
match_fmv_w_x = 0xf0000053

abbrev pub match_fmv_d_x : ℕ
match_fmv_d_x = 0xf2000053

abbrev pub match_ebreak : ℕ
match_ebreak = 0x100073

abbrev pub match_c_ebreak : ℕ
match_c_ebreak = 0x9002

abbrev pub match_wfi : ℕ
match_wfi = 0x10500073

abbrev pub match_fence_i : ℕ
match_fence_i = 0x100f

abbrev pub match_lui : ℕ
match_lui = 0x37

abbrev pub match_xori : ℕ
match_xori = 0x4013

abbrev pub match_srli : ℕ
match_srli = 0x5013

abbrev pub match_fence : ℕ
match_fence = 0xf

abbrev pub match_auipc : ℕ
match_auipc = 0x17

abbrev pub match_vsetvli : ℕ
match_vsetvli = 0x7057

abbrev pub match_vsetvl : ℕ
match_vsetvl = 0x80007057

abbrev pub match_vmv_x_s : ℕ
match_vmv_x_s = 0x42002057

abbrev pub match_vmv_s_x : ℕ
match_vmv_s_x = 0x42006057

abbrev pub match_vslide1down_vx : ℕ
match_vslide1down_vx = 0x3c006057
