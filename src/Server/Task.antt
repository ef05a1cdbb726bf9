-- ===== src/Server/Task.antt =====
-- dlink.c: the task of the GDB server, from the memory that the start-up code has cleared.
use nuclei_dlink.Base.{◌*◌, false, Option, List, [], ◌∷◌, replicate}
use nuclei_dlink.Base.Action.{Action, ◌>>◌, skip}
use nuclei_dlink.Server.{Packet, Target, State, running, error_none, buff_size, reg_num}
use nuclei_dlink.Server.Custom.{gdb_server_init}
use nuclei_dlink.Server.Poll.{poll}

-- The static variables of gdb-server.c before the first statement.
abbrev pub power_on : {W : Type 0} → W → State W
power_on w = record {
  target_running = false;
  gdb_connected = false;
  restore_reg_flag = false;
  halt_info = record { reason = running; addr = 0 };
  target_error = error_none;
  mem_addr = 0;
  mem_len = 0;
  mem_buffer = replicate buff_size 0;
  regs = replicate (2 * reg_num) 0;
  reg_tmp = replicate 8 0;
  reg_tmp_num = 0;
  breakpoint_type = 0;
  breakpoint_addr = 0;
  breakpoint_kind = 0;
  breakpoint_err = 0;
  spi_base_addr = 0;
  flash_block_size = 0;
  no_ack_mode = false;
  rsp = [];
  responses = [];
  target = w;
}

module _ {W : Type 0} (target : Target W) where
  -- The loop of `gdb_server_poll`, for as many rounds as there are elements: a packet that has come
  -- from the queue, or none.
  unfoldable pub rounds : List (Option Packet) → Action (State W) (Unit {0})
  rounds [] = skip
  rounds (received ∷ packets) = poll target received >> rounds packets

  unfoldable pub gdb_server_v_task : List (Option Packet) → Action (State W) (Unit {0})
  gdb_server_v_task packets = gdb_server_init >> rounds packets
