-- ===== src/Device/Tests.antt =====
-- The server over the modelled target access at a concrete memory.
use nuclei_dlink.Base.{ℕ, ◌%◌, ◌^◌, ◌<◌, ◌≡◌, refl, true, false, some, [], ◌∷◌, ◌++◌, arith}
use nuclei_dlink.Base.Action.{◌>>◌}
use nuclei_dlink.Codec.{bin_to_hex}
use nuclei_dlink.Server.{Target, State}
use nuclei_dlink.Server.Memory.{gdb_server_cmd_m, gdb_server_cmd_M}
use nuclei_dlink.Server.Memory.Answers.{read_packet, write_packet}
use nuclei_dlink.Server.Task.{power_on}
use nuclei_dlink.Target.Memory.{Dm}
use nuclei_dlink.Target.Memory.Commands.{Module, abstract_commands}
use nuclei_dlink.Target.Memory.Bytes.{byte_memory}
use nuclei_dlink.Target.Memory.Stores.{over}
use nuclei_dlink.Target.Register.Names.{Hart}
use nuclei_dlink.Device.{over_module}
use nuclei_dlink.Device.Echo.{device_echo}

-- A target of which nothing but memory, registers and run control is used.
abbrev pub idle : Target (Dm (Module (ℕ → ℕ)))
idle = record {
  mxl = λ w. 1;
  misa = λ w. 0x4010_1105;
  vlenb = λ w. 0;
  read_memory = λ addr n w. some ([], w);
  write_memory = λ bin addr w. some (tt, w);
  read_register = λ buf regno w. some (buf, w);
  write_register = λ buf regno w. some (tt, w);
  read_core_registers = λ buf w. some (buf, w);
  write_core_registers = λ buf w. some (tt, w);
  insert_breakpoint = λ type addr kind w. some (0, w);
  remove_breakpoint = λ type addr kind w. some (0, w);
  halt_check = λ info w. some (info, w);
  reset = λ w. some (tt, w);
  halt = λ w. some (tt, w);
  resume = λ w. some (tt, w);
  step = λ w. some (tt, w);
  init = λ w. some (tt, w);
  init_post = λ error w. some (error, w);
  init_after_halted = λ error w. some (error, w);
  fini_pre = λ w. some (tt, w);
  deinit = λ w. some (tt, w);
  set_protocol = λ protocol w. some (tt, w);
  flash_init = λ base w. some (tt, w);
  flash_erase = λ base first last w. some (tt, w);
  flash_write = λ base bytes offset n w. some (tt, w);
}

abbrev pub board : Dm (Module (ℕ → ℕ))
board = record {
  err_flag = true;
  abstractcs = 0;
  data0 = 0;
  data1 = 0;
  hartinfo = 0;
  dmstatus = 0;
  dcsr = 0;
  save_vtype = 0 ∷ 0 ∷ [];
  save_vl = 0 ∷ 0 ∷ [];
  under = record { value = 0; address = 0; memory = λ a. a % 2 ^ 8 };
}

pub board-small : (a : ℕ) → board.under.memory a < 2 ^ 8
board-small a = omega arith

abbrev pub rv32 : Hart
rv32 = record { mxl = 1; misa_d = false; vlenb = 0 }

abbrev attached : Target (Dm (Module (ℕ → ℕ)))
attached = over_module (abstract_commands byte_memory) rv32 4 0x2000_0004 idle

device_echo_example :
    (s' : State (Dm (Module (ℕ → ℕ)))) × ((gdb_server_cmd_M attached
            (write_packet 0x8000_0001 3 (bin_to_hex (1 ∷ 2 ∷ 3 ∷ []) ++ 0 ∷ []) 18)
          >> gdb_server_cmd_m attached (read_packet 0x8000_0001 3 [] 11))
        (power_on board)
      ≡ some (tt, s'))
    × (s'.responses ≡ (b'O' ∷ b'K' ∷ []) ∷ bin_to_hex (1 ∷ 2 ∷ 3 ∷ []) ∷ [])
    × (s'.target.under.memory ≡ over (1 ∷ 2 ∷ 3 ∷ []) 0x8000_0001 board.under.memory)
device_echo_example =
    device_echo rv32 4 0x2000_0004 idle 0x8000_0001 18 11 (1 ∷ 2 ∷ 3 ∷ []) (0 ∷ []) []
      (power_on board) refl (omega arith) (omega arith) (omega arith) (omega arith) board-small
      (omega arith) refl
