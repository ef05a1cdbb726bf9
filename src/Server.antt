-- ===== src/Server.antt =====
-- server/gdb-server/source/gdb-server.c: the state of the GDB server, what it uses of the target, and
-- the answers that it sends. `Server.Scan` is the reading of numbers, `Server.Memory`,
-- `Server.Registers`, `Server.Run` and `Server.Custom` are the command handlers, and `Server.Poll` is
-- the loop over the packets.
pub mod Sends
pub mod Keeps
pub mod Task
pub mod Scan
pub mod Memory
pub mod Registers
pub mod Custom
pub mod Poll
mod Tests
use mathlib.Core.Option
use nuclei_dlink.Base.{
  ℕ, zero, suc, ◌+◌, ◌*◌, ◌/◌, ◌%◌, ◌^◌, Bool, true, false, Option, none, some, List, [], ◌∷◌, ◌++◌,
  length, ltb, leb, ◌-◌, if◌then◌else◌,
}
use nuclei_dlink.Base.Action.{Action, modify}
use nuclei_dlink.Server.Scan.{hex_digits, print_hex}

-- `GDB_PACKET_BUFF_SIZE` and `RV_TARGET_CONFIG_REG_NUM`.
abbrev pub buff_size : ℕ
buff_size = 0x400

abbrev pub reg_num : ℕ
reg_num = 33

-- A packet from the queue: the buffer from `data` on, whose byte `len` is zero, and `len`.
pub record Packet : Type 0 where
  pub data' : List ℕ
  pub len : ℕ

pub data HaltReason : Type 0 where
  running : HaltReason
  hardware_breakpoint : HaltReason
  software_breakpoint : HaltReason
  write_watchpoint : HaltReason
  read_watchpoint : HaltReason
  access_watchpoint : HaltReason
  other : HaltReason

pub record HaltInfo : Type 0 where
  pub reason : HaltReason
  pub addr : ℕ

pub data TargetError : Type 0 where
  error_none : TargetError
  error_line : TargetError
  error_compat : TargetError
  error_debug_module : TargetError
  error_protected : TargetError
  error_other : TargetError

-- What the server uses of riscv-target.c and flash.c. Registers are words of 32 bits in a buffer,
-- two to a variable of 64 bits; what is stored through a pointer is the result.
pub record Target (W : Type 0) : Type 0 where
  pub mxl : W → ℕ
  pub misa : W → ℕ
  pub vlenb : W → ℕ
  pub read_memory : ℕ → ℕ → Action W (List ℕ)
  pub write_memory : List ℕ → ℕ → Action W (Unit {0})
  pub read_register : List ℕ → ℕ → Action W (List ℕ)
  pub write_register : List ℕ → ℕ → Action W (Unit {0})
  pub read_core_registers : List ℕ → Action W (List ℕ)
  pub write_core_registers : List ℕ → Action W (Unit {0})
  pub insert_breakpoint : ℕ → ℕ → ℕ → Action W ℕ
  pub remove_breakpoint : ℕ → ℕ → ℕ → Action W ℕ
  pub halt_check : HaltInfo → Action W HaltInfo
  pub reset : Action W (Unit {0})
  pub halt : Action W (Unit {0})
  pub resume : Action W (Unit {0})
  pub step : Action W (Unit {0})
  pub init : Action W (Unit {0})
  pub init_post : TargetError → Action W TargetError
  pub init_after_halted : TargetError → Action W TargetError
  pub fini_pre : Action W (Unit {0})
  pub deinit : Action W (Unit {0})
  pub set_protocol : ℕ → Action W (Unit {0})
  pub flash_init : ℕ → Action W (Unit {0})
  pub flash_erase : ℕ → ℕ → ℕ → Action W (Unit {0})
  pub flash_write : ℕ → List ℕ → ℕ → ℕ → Action W (Unit {0})

-- `gdb_server_t`, the static variables of `gdb_server_cmd_v`, the response that is built, the
-- responses that have gone into the queue, the latest last, and the target.
pub record State (W : Type 0) : Type 0 where
  pub target_running : Bool
  pub gdb_connected : Bool
  pub restore_reg_flag : Bool
  pub halt_info : HaltInfo
  pub target_error : TargetError
  pub mem_addr : ℕ
  pub mem_len : ℕ
  pub mem_buffer : List ℕ
  pub regs : List ℕ
  pub reg_tmp : List ℕ
  pub reg_tmp_num : ℕ
  pub breakpoint_type : ℕ
  pub breakpoint_addr : ℕ
  pub breakpoint_kind : ℕ
  pub breakpoint_err : ℕ
  pub spi_base_addr : ℕ
  pub flash_block_size : ℕ
  pub no_ack_mode : Bool
  pub rsp : List ℕ
  pub responses : List (List ℕ)
  pub target : W

-- A store of 32 bits through a pointer to a variable of 64 bits.
abbrev pub set_low : ℕ → ℕ → ℕ
set_low v old = old / 2 ^ 32 * 2 ^ 32 + v

-- The room for a response in `rsp_buffer`, from `rsp.data` on.
abbrev pub rsp_size : ℕ
rsp_size = buff_size + 64 - 2

module _ {W : Type 0} where
  -- A step of the target.
  abbrev pub on_target : {A : Type 0} → Action W A → Action (State W) A
  on_target f s = elim (f s.target) [
    | none ↦ none
    | some (a, w) ↦ some (a, record s { target = w })
  ]

  unfoldable pub gdb_server_target_run : Bool → Action (State W) (Unit {0})
  gdb_server_target_run b = modify (λ s. record s { target_running = b })

  unfoldable pub gdb_server_send_response : Action (State W) (Unit {0})
  gdb_server_send_response = modify (λ s. record s { responses = s.responses ++ s.rsp ∷ [] })

  -- A text goes into the response, which is sent; one that is too long is a write past the buffer.
  unfoldable pub respond : List ℕ → Action (State W) (Unit {0})
  respond text s =
      let sent = gdb_server_send_response (record s { rsp = text }) in
      if leb (length text) rsp_size then sent else none

  unfoldable pub gdb_server_reply_ok : Action (State W) (Unit {0})
  gdb_server_reply_ok = respond (b'O' ∷ b'K' ∷ [])

  -- At least two digits.
  unfoldable pub gdb_server_reply_err : ℕ → Action (State W) (Unit {0})
  gdb_server_reply_err err =
      respond (b'E' ∷ (if ltb err 16 then hex_digits 2 err else print_hex err))
