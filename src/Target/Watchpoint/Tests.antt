-- ===== src/Target/Watchpoint/Tests.antt =====
-- The 16-bit accesses at concrete numbers.
use nuclei_dlink.Base.{◌≡◌, refl, arith}
use nuclei_dlink.Target.Watchpoint.{rv_parse_watchpoint_inst}
use nuclei_dlink.Target.Watchpoint.Compressed.Accesses.{
  c_lw, c_flw, c_sw, c_fsw, c_fld, c_fsd, c_lwsp, c_flwsp, c_swsp, c_fswsp, c_fldsp, c_fsdsp,
  rv_parse_watchpoint_inst-by_base, rv_parse_watchpoint_inst-by_stack,
}

-- `c.lw a0,4(a1)`, `c.lwsp ra,12(sp)` and `c.swsp ra,12(sp)` as an assembler gives them.
lw_a0 : c_lw 2 3 1 ≡ 0x41c8
lw_a0 = refl

lwsp_ra : c_lwsp 1 3 ≡ 0x40b2
lwsp_ra = refl

swsp_ra : c_swsp 1 3 ≡ 0xc606
swsp_ra = refl

rv_parse_watchpoint_inst-by_base_example :
    (rv_parse_watchpoint_inst (c_lw 2 3 17) ≡ (11, 68))
    × (rv_parse_watchpoint_inst (c_flw 2 3 17) ≡ (11, 68))
    × (rv_parse_watchpoint_inst (c_sw 2 3 17) ≡ (11, 68))
    × (rv_parse_watchpoint_inst (c_fsw 2 3 17) ≡ (11, 68))
    × (rv_parse_watchpoint_inst (c_fld 2 3 17) ≡ (11, 136))
    × (rv_parse_watchpoint_inst (c_fsd 2 3 17) ≡ (11, 136))
rv_parse_watchpoint_inst-by_base_example =
    rv_parse_watchpoint_inst-by_base 2 3 17 (omega arith) (omega arith) (omega arith)

rv_parse_watchpoint_inst-by_stack_example :
    (rv_parse_watchpoint_inst (c_lwsp 1 35) ≡ (2, 140))
    × (rv_parse_watchpoint_inst (c_flwsp 1 35) ≡ (2, 140))
    × (rv_parse_watchpoint_inst (c_swsp 1 35) ≡ (2, 140))
    × (rv_parse_watchpoint_inst (c_fswsp 1 35) ≡ (2, 140))
    × (rv_parse_watchpoint_inst (c_fldsp 1 35) ≡ (2, 280))
    × (rv_parse_watchpoint_inst (c_fsdsp 1 35) ≡ (2, 280))
rv_parse_watchpoint_inst-by_stack_example =
    rv_parse_watchpoint_inst-by_stack 1 35 (omega arith) (omega arith)
