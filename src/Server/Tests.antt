-- ===== src/Server/Tests.antt =====
-- Tests of the server, and examples for its theorems, with a target that is a piece of memory.
use nuclei_dlink.Base.{
  ℕ, ◌≤◌, ◌≡◌, refl, true, false, none, some, List, [], ◌∷◌, ◌++◌, arith, length, take, drop,
  replicate,
}
use nuclei_dlink.Base.Action.{◌>>◌}
use nuclei_dlink.Codec.{bin_to_hex, hex_digit}
use nuclei_dlink.Server.{Packet, Target, State, HaltInfo, running, write_watchpoint, error_none}
use nuclei_dlink.Server.Scan.{print_hex, hex_text, hex_digits}
use nuclei_dlink.Server.Memory.{gdb_server_cmd_m, gdb_server_cmd_M}
use nuclei_dlink.Server.Memory.Answers.{read_packet, write_packet, m_answer, m_overrun, memory_echo}
use nuclei_dlink.Server.Poll.{poll, poll_halted, dispatch}
use nuclei_dlink.Server.Poll.Rounds.{poll-responses}
use nuclei_dlink.Server.Poll.Stops.{stop_reported, stop_replies, is_running, settled}

-- The target stops at once, at a watchpoint.
abbrev stopped : HaltInfo
stopped = record { reason = write_watchpoint; addr = 0x2000_01f0 }

abbrev memory : Target (List ℕ)
memory = record {
  mxl = λ w. 1;
  misa = λ w. 0x4010_1105;
  vlenb = λ w. 0;
  read_memory = λ addr n w. some (take n w, w);
  write_memory = λ bin addr w. some (tt, bin ++ drop (length bin) w);
  read_register = λ buf regno w. some (buf, w);
  write_register = λ buf regno w. some (tt, w);
  read_core_registers = λ buf w. some (buf, w);
  write_core_registers = λ buf w. some (tt, buf);
  insert_breakpoint = λ type addr kind w. some (0, w);
  remove_breakpoint = λ type addr kind w. some (0, w);
  halt_check = λ info w. some (stopped, w);
  reset = λ w. some (tt, w);
  halt = λ w. some (tt, w);
  resume = λ w. some (tt, w);
  step = λ w. some (tt, w);
  init = λ w. some (tt, w);
  init_post = λ error w. some (error, w);
  init_after_halted = λ error w. some (error, w);
  fini_pre = λ w. some (tt, w);
  deinit = λ w. some (tt, w);
  set_protocol = λ protocol w. some (tt, w);
  flash_init = λ base w. some (tt, w);
  flash_erase = λ base first last w. some (tt, w);
  flash_write = λ base bytes offset n w. some (tt, w);
}

abbrev server : State (List ℕ)
server = record {
  target_running = true;
  gdb_connected = true;
  restore_reg_flag = false;
  halt_info = record { reason = running; addr = 0 };
  target_error = error_none;
  mem_addr = 0;
  mem_len = 0;
  mem_buffer = replicate 1024 0;
  regs = 1 ∷ 2 ∷ [];
  reg_tmp = replicate 8 0;
  reg_tmp_num = 0;
  breakpoint_type = 0;
  breakpoint_addr = 0;
  breakpoint_kind = 0;
  breakpoint_err = 0;
  spi_base_addr = 0;
  flash_block_size = 0;
  no_ack_mode = false;
  rsp = [];
  responses = [];
  target = 0xde ∷ 0xad ∷ 0xbe ∷ 0xef ∷ [];
}

abbrev large : State (List ℕ)
large = record server { target = replicate 600 0 }

m_overrun_example : gdb_server_cmd_m memory (read_packet 0 600 [] 6) large ≡ none
m_overrun_example =
    m_overrun memory 0 600 6 [] (replicate 600 0) large large.target (omega arith) (omega arith)
      (omega arith) (omega arith) refl refl refl

memory_echo_example :
    (s' : State (List ℕ)) × ((gdb_server_cmd_M memory
            (write_packet 0x100 2 (bin_to_hex (1 ∷ 2 ∷ []) ++ 0 ∷ []) 10)
          >> gdb_server_cmd_m memory (read_packet 0x100 2 [] 6))
        server
      ≡ some (tt, s'))
    × (s'.responses ≡ (b'O' ∷ b'K' ∷ []) ∷ bin_to_hex (1 ∷ 2 ∷ []) ∷ [])
    × (s'.target ≡ 1 ∷ 2 ∷ 0xbe ∷ 0xef ∷ [])
memory_echo_example =
    memory_echo memory 0x100 10 6 (1 ∷ 2 ∷ []) (0 ∷ []) [] server (1 ∷ 2 ∷ 0xbe ∷ 0xef ∷ [])
      (1 ∷ 2 ∷ 0xbe ∷ 0xef ∷ []) (omega arith) (omega arith, (omega arith, tt)) (omega arith)
      (omega arith) refl refl refl

-- The registers of the target are its memory.
abbrev in_algorithm : State (List ℕ)
in_algorithm = record server { restore_reg_flag = true }

abbrev stop_reply : List ℕ
stop_reply =
    b'T' ∷ b'0' ∷ b'5' ∷ b'w' ∷ b'a' ∷ b't' ∷ b'c' ∷ b'h' ∷ b':' ∷ b'2' ∷ b'0' ∷ b'0' ∷ b'0' ∷ b'0'
    ∷ b'1' ∷ b'f' ∷ b'0' ∷ b';' ∷ []

stop_reported_example :
    (s' : State (List ℕ)) × (poll memory (some (read_packet 0 2 [] 4)) in_algorithm ≡ some (tt, s'))
    × (s'.responses ≡ stop_reply ∷ [])
    × (s'.target_running ≡ false)
    × (s'.restore_reg_flag ≡ false)
    × (s'.halt_info ≡ stopped)
    × (s'.target ≡ 1 ∷ 2 ∷ [])
unfolding stop_replies is_running settled print_hex hex_text hex_digits hex_digit
stop_reported_example =
    stop_reported memory (some (read_packet 0 2 [] 4)) write_watchpoint 0x2000_01f0 in_algorithm
      server.target (1 ∷ 2 ∷ []) refl refl refl refl refl

abbrev idle_server : State (List ℕ)
idle_server = record server { target_running = false }

-- The round of a command `m`.
answered :
    (s' : State (List ℕ)) × (poll memory (some (read_packet 0x8000_0000 2 [] 11)) idle_server
      ≡ some (tt, s'))
unfolding poll poll_halted dispatch
answered =
    let (s', e, sent, same, size, addr) =
      m_answer memory 0x8000_0000 2 11 [] (0xde ∷ 0xad ∷ []) idle_server server.target (omega arith)
        (omega arith) (omega arith) refl refl refl in
    (s', e)

poll-responses_example :
    (extra : List (List ℕ)) × (answered.0.responses ≡ extra) × (length extra ≤ 1)
poll-responses_example =
    poll-responses (List ℕ) memory (some (read_packet 0x8000_0000 2 [] 11)) idle_server answered.0
      answered.1

-- A packet that tells 4095 bytes, and has the digits of 1024.
abbrev zeros : List ℕ
zeros = replicate 1024 0

abbrev digits : List ℕ
digits = bin_to_hex zeros ++ []

abbrev long_packet : Packet
long_packet = write_packet 0x8000_0000 0xfff digits 2064
