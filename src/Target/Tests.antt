-- ===== src/Target/Tests.antt =====
-- riscv-target.c on concrete transport modules, memories and instructions.
use nuclei_dlink.Base.{
  ℕ, suc, ◌<◌, ◌%◌, ◌^◌, ◌≡◌, false, true, List, [], ◌∷◌, ◌==◌, if◌then◌else◌, arith,
}
use nuclei_dlink.Server.{error_none}
use nuclei_dlink.Target.Init.{rv_target_init_post}
use nuclei_dlink.Target.Init.Search.{four_wires, rv_target_init_post_lem}
use nuclei_dlink.Target.Dmi.{Dtm, reg_dmi, result_done, rv_dmi_read, rv_dmi_write}
use nuclei_dlink.Target.Dmi.Transport.{Registers, Transport, transport}
use nuclei_dlink.Target.Dmi.Access.{IsSelected, rv_dmi_read-load, rv_dmi_write-store}
use nuclei_dlink.Target.Memory.{
  Dm, mxl_rv32, rv_memory_write, rv_target_read_memory, rv_target_write_memory,
}
use nuclei_dlink.Target.Memory.Commands.{
  Memory, Module, abstract_commands, stored, rv_memory_write-stored,
}
use nuclei_dlink.Target.Memory.Bytes.{byte_memory, bytes_from, rv_target_read_memory-bytes}
use nuclei_dlink.Target.Memory.Stores.{over, rv_target_write_memory-bytes}
use nuclei_dlink.Opcodes.{sb, sh, sw, sd, fsw, fsd, lb, lh, lw, ld, flw, fld}
use nuclei_dlink.Target.Watchpoint.{rv_parse_watchpoint_inst}
use nuclei_dlink.Target.Watchpoint.Encoded.{
  accessed, rv_parse_watchpoint_inst-store, rv_parse_watchpoint_inst-load,
}

-- A module with one register, that counts its reads.
abbrev counter : Registers (ℕ × ℕ)
counter = record {
  load = λ addr d. (if d.0 == 7 then 7 else 8, (d.0, suc d.1));
  store = λ addr value d. (value, d.1);
}

abbrev fresh : Dtm (Transport (ℕ × ℕ))
fresh = record {
  last_reg = 0x10;
  idcode = 0;
  dtmcs = 0x71;
  op = 0;
  data' = 0;
  address = 0;
  result = 0;
  chain = record { instruction = 0x10; idcode = 1; dtmcs = 0x71; last_data = 0; module' = (7, 0) };
}

counter_words : (a : ℕ) (d : ℕ × ℕ) → (counter.load a d).0 < 2 ^ 32
counter_words a d = ground arith

not-IsSelected : IsSelected fresh
not-IsSelected e = absurd (omega arith)

rv_dmi_read-load_example :
    let (value, s') = rv_dmi_read (transport counter) 0x11 9 fresh in
    (value ≡ 7)
    × (s'.chain.module' ≡ (7, 1))
    × (s'.result ≡ result_done)
    × (s'.dtmcs ≡ 0x71)
    × IsSelected s'
    × (s'.chain.last_data < 2 ^ 32)
rv_dmi_read-load_example =
    rv_dmi_read-load counter 0x11 9 fresh counter_words not-IsSelected (omega arith) (omega arith)
      (omega arith)

rv_dmi_write-store_example :
    let s' = rv_dmi_write (transport counter) 0x10 3 fresh in
    (s'.chain.module' ≡ (3, 0))
    × (s'.result ≡ result_done)
    × (s'.dtmcs ≡ 0x71)
    × IsSelected s'
    × (s'.chain.last_data < 2 ^ 32)
rv_dmi_write-store_example =
    rv_dmi_write-store counter 0x10 3 fresh not-IsSelected (omega arith) (omega arith) (omega arith)
      (omega arith)

-- A memory of one cell, the last that was stored, whose other addresses read as themselves.
abbrev cell : Memory (ℕ × ℕ)
cell = record {
  load = λ size addr m. if addr == m.0 then m.1 else addr;
  store = λ size addr value m. (addr, value);
}

abbrev memory_target : Dm (Module (ℕ × ℕ))
memory_target = record {
  err_flag = true;
  abstractcs = 0;
  data0 = 0;
  data1 = 0;
  hartinfo = 0;
  dmstatus = 0;
  dcsr = 0;
  save_vtype = 0 ∷ 0 ∷ [];
  save_vl = 0 ∷ 0 ∷ [];
  under = record { value = 0; address = 0; memory = (0x104, 99) };
}

rv_memory_write-stored_example :
    let s' = rv_memory_write (abstract_commands cell) mxl_rv32 (5 ∷ 6 ∷ []) 0x200 1 memory_target in
    (s'.under.memory ≡ stored cell (5 ∷ 6 ∷ []) 0 0x200 1 (0x104, 99)) × (s'.err_flag ≡ false)
rv_memory_write-stored_example =
    rv_memory_write-stored cell (5 ∷ 6 ∷ []) 0x200 1 memory_target (omega arith)

rv_parse_watchpoint_inst-store_example :
    (rv_parse_watchpoint_inst (sb 5 8 0xffc) ≡ accessed 8 0xffc)
    × (rv_parse_watchpoint_inst (sh 5 8 0xffc) ≡ accessed 8 0xffc)
    × (rv_parse_watchpoint_inst (sw 5 8 0xffc) ≡ accessed 8 0xffc)
    × (rv_parse_watchpoint_inst (sd 5 8 0xffc) ≡ accessed 8 0xffc)
    × (rv_parse_watchpoint_inst (fsw 5 8 0xffc) ≡ accessed 8 0xffc)
    × (rv_parse_watchpoint_inst (fsd 5 8 0xffc) ≡ accessed 8 0xffc)
rv_parse_watchpoint_inst-store_example = rv_parse_watchpoint_inst-store 5 8 0xffc

rv_parse_watchpoint_inst-load_example :
    (rv_parse_watchpoint_inst (lb 5 8 0xffc) ≡ accessed 8 0xffc)
    × (rv_parse_watchpoint_inst (lh 5 8 0xffc) ≡ accessed 8 0xffc)
    × (rv_parse_watchpoint_inst (lw 5 8 0xffc) ≡ accessed 8 0xffc)
    × (rv_parse_watchpoint_inst (ld 5 8 0xffc) ≡ accessed 8 0xffc)
    × (rv_parse_watchpoint_inst (flw 5 8 0xffc) ≡ accessed 8 0xffc)
    × (rv_parse_watchpoint_inst (fld 5 8 0xffc) ≡ accessed 8 0xffc)
rv_parse_watchpoint_inst-load_example = rv_parse_watchpoint_inst-load 5 8 0xffc

abbrev address_bytes : ℕ → ℕ
address_bytes a = a % 2 ^ 8

abbrev byte_target : Dm (Module (ℕ → ℕ))
byte_target = record {
  err_flag = true;
  abstractcs = 0;
  data0 = 0;
  data1 = 0;
  hartinfo = 0;
  dmstatus = 0;
  dcsr = 0;
  save_vtype = 0 ∷ 0 ∷ [];
  save_vl = 0 ∷ 0 ∷ [];
  under = record { value = 0; address = 0; memory = address_bytes };
}

address_bytes-small : (a : ℕ) → address_bytes a < 2 ^ 8
address_bytes-small a = omega arith

rv_target_read_memory-bytes_example :
    let (xs, s') =
      rv_target_read_memory (abstract_commands byte_memory) mxl_rv32 0x2000 0x1fe 6 byte_target in
    (xs ≡ bytes_from 6 0x1fe address_bytes)
    × (s'.under.memory ≡ address_bytes)
    × (s'.err_flag ≡ false)
rv_target_read_memory-bytes_example =
    rv_target_read_memory-bytes 0x2000 0x1fe 6 byte_target address_bytes-small (omega arith)

abbrev words : List ℕ
words = 0xef ∷ 0xbe ∷ 0xad ∷ 0xde ∷ 1 ∷ 2 ∷ []

rv_target_write_memory-bytes_example :
    let s' =
      rv_target_write_memory
        (abstract_commands byte_memory)
        mxl_rv32
        0x2000
        words
        0x1fe
        byte_target in
    (s'.under.memory ≡ over words 0x1fe address_bytes) × (s'.err_flag ≡ false)
rv_target_write_memory-bytes_example =
    rv_target_write_memory-bytes 0x2000 0x1fe words byte_target (omega arith) (omega arith)

-- A module with one register, which keeps what is stored.
abbrev latch : Registers ℕ
latch = record { load = λ addr d. (d % 2 ^ 32, d); store = λ addr value d. value }

abbrev lost : Dtm (Transport ℕ)
lost = record {
  last_reg = reg_dmi;
  idcode = 0;
  dtmcs = 0;
  op = 3;
  data' = 0;
  address = 0;
  result = 3;
  chain = record { instruction = 0; idcode = 0x1000_5; dtmcs = 0x71; last_data = 0; module' = 0 };
}

rv_target_init_post_lem_example :
    (rv_target_init_post (four_wires latch (λ t. t) (λ t. t)) false error_none lost).0 ≡ error_none
rv_target_init_post_lem_example =
    rv_target_init_post_lem latch (λ t. t) (λ t. t) error_none lost (λ a d. omega arith)
      (omega arith) (omega arith) (omega arith)
