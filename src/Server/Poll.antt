-- ===== src/Server/Poll.antt =====
-- The commands that are left of gdb-server.c (`q`, `Q`, `k`, ctrl-C), and the rounds of
-- `gdb_server_poll`.
pub mod Quiet
pub mod Rounds
pub mod Stops
use mathlib.Core.Option
use nuclei_dlink.Base.{
  ℕ, zero, suc, ◌+◌, ◌-◌, ◌*◌, ◌/◌, ◌%◌, ◌^◌, Bool, true, false, ◌&&◌, Option, none, some, List, [],
  ◌∷◌, ◌++◌, length, drop, get_or, ◌==◌, if◌then◌else◌,
}
use nuclei_dlink.Base.Action.{Action, pure, gets, modify, given, ◌>>=◌, ◌>>◌, skip}
use nuclei_dlink.Codec.{bin_to_hex, hex_to_bin}
use nuclei_dlink.Server.{
  Packet, Target, State, HaltReason, running, hardware_breakpoint, software_breakpoint,
  write_watchpoint, read_watchpoint, access_watchpoint, other, HaltInfo, error_none, on_target,
  respond, gdb_server_reply_ok, gdb_server_target_run,
}
use nuclei_dlink.Server.Scan.{starts_with, print_hex}
use nuclei_dlink.Server.Memory.{
  store, loaded, gdb_server_cmd_m, gdb_server_cmd_M, gdb_server_cmd_x, gdb_server_cmd_X,
  gdb_server_cmd_v,
}
use nuclei_dlink.Server.Registers.{
  gdb_server_cmd_g, gdb_server_cmd_G, gdb_server_cmd_c, gdb_server_cmd_s, gdb_server_cmd_p,
  gdb_server_cmd_P, gdb_server_cmd_z, gdb_server_cmd_Z,
}
use nuclei_dlink.Server.Custom.{
  gdb_server_connected, gdb_server_disconnected, gdb_server_cmd_custom, halt_and_init,
}

abbrev q_rcmd : List ℕ
q_rcmd = b'q' ∷ b'R' ∷ b'c' ∷ b'm' ∷ b'd' ∷ b',' ∷ []

abbrev q_start_no_ack_mode : List ℕ
q_start_no_ack_mode =
    b'Q' ∷ b'S' ∷ b't' ∷ b'a' ∷ b'r' ∷ b't' ∷ b'N' ∷ b'o' ∷ b'A' ∷ b'c' ∷ b'k' ∷ b'M' ∷ b'o' ∷ b'd'
    ∷ b'e' ∷ []

abbrev reset_word : List ℕ
reset_word = b'r' ∷ b'e' ∷ b's' ∷ b'e' ∷ b't' ∷ []

abbrev halt_word : List ℕ
halt_word = b'h' ∷ b'a' ∷ b'l' ∷ b't' ∷ []

abbrev unsupported_monitor_command : List ℕ
unsupported_monitor_command =
    b':' ∷ b'(' ∷ 32 ∷ b'u' ∷ b'n' ∷ b's' ∷ b'u' ∷ b'p' ∷ b'p' ∷ b'o' ∷ b'r' ∷ b't' ∷ b'e' ∷ b'd'
    ∷ 32 ∷ b'm' ∷ b'o' ∷ b'n' ∷ b'i' ∷ b't' ∷ b'o' ∷ b'r' ∷ 32 ∷ b'c' ∷ b'o' ∷ b'm' ∷ b'm' ∷ b'a'
    ∷ b'n' ∷ b'd' ∷ b'!' ∷ 10 ∷ []

abbrev pub watch : List ℕ
watch = b'T' ∷ b'0' ∷ b'5' ∷ b'w' ∷ b'a' ∷ b't' ∷ b'c' ∷ b'h' ∷ b':' ∷ []

abbrev pub rwatch : List ℕ
rwatch = b'T' ∷ b'0' ∷ b'5' ∷ b'r' ∷ b'w' ∷ b'a' ∷ b't' ∷ b'c' ∷ b'h' ∷ b':' ∷ []

abbrev pub awatch : List ℕ
awatch = b'T' ∷ b'0' ∷ b'5' ∷ b'a' ∷ b'w' ∷ b'a' ∷ b't' ∷ b'c' ∷ b'h' ∷ b':' ∷ []

abbrev hwbreak : List ℕ
hwbreak = b'T' ∷ b'0' ∷ b'5' ∷ b'h' ∷ b'w' ∷ b'b' ∷ b'r' ∷ b'e' ∷ b'a' ∷ b'k' ∷ b':' ∷ b';' ∷ []

abbrev swbreak : List ℕ
swbreak = b'T' ∷ b'0' ∷ b'5' ∷ b's' ∷ b'w' ∷ b'b' ∷ b'r' ∷ b'e' ∷ b'a' ∷ b'k' ∷ b':' ∷ b';' ∷ []

-- The text of a halt's reason and address; while the target runs there is none.
unfoldable pub reason_text : HaltReason → ℕ → Option (List ℕ)
reason_text running addr = none
reason_text other addr = some (b'T' ∷ b'0' ∷ b'5' ∷ [])
reason_text write_watchpoint addr = some (watch ++ (print_hex (addr % 2 ^ 32) ++ b';' ∷ []))
reason_text read_watchpoint addr = some (rwatch ++ (print_hex (addr % 2 ^ 32) ++ b';' ∷ []))
reason_text access_watchpoint addr = some (awatch ++ (print_hex (addr % 2 ^ 32) ++ b';' ∷ []))
reason_text hardware_breakpoint addr = some hwbreak
reason_text software_breakpoint addr = some swbreak

abbrev pub stop_text : HaltInfo → Option (List ℕ)
stop_text info = reason_text info.reason info.addr

module _ {W : Type 0} (target : Target W) where
  unfoldable pub monitor_halt : Action (State W) (Unit {0})
  monitor_halt = do halt_and_init target; gdb_server_reply_ok

  -- The text of the command is put in `mem_buffer`, with a zero behind it.
  unfoldable pub gdb_server_cmd_q_rcmd : Packet → Action (State W) (Unit {0})
  gdb_server_cmd_q_rcmd cmd = do
    let n = (cmd.len + 2 ^ 32 - 6) % 2 ^ 32 / 2
    modify (λ s. record s { mem_len = n })
    bytes ← given (hex_to_bin (drop 6 cmd.data') n)
    store (bytes ++ 0 ∷ [])
    text ← gets (λ s. s.mem_buffer)
    if starts_with reset_word text
        then (on_target target.reset >> gdb_server_reply_ok)
        else if starts_with halt_word text
        then monitor_halt
        else respond (bin_to_hex unsupported_monitor_command)

  unfoldable pub gdb_server_cmd_q : Packet → Action (State W) (Unit {0})
  gdb_server_cmd_q cmd = if starts_with q_rcmd cmd.data' then gdb_server_cmd_q_rcmd cmd else skip

  unfoldable pub gdb_server_cmd_Q : Packet → Action (State W) (Unit {0})
  gdb_server_cmd_Q cmd =
      let start = (do gdb_server_reply_ok; modify (λ s. record s { no_ack_mode = true })) in
      if starts_with q_start_no_ack_mode cmd.data' then start else skip

  unfoldable pub gdb_server_cmd_k : Action (State W) (Unit {0})
  gdb_server_cmd_k = do gdb_server_reply_ok; gdb_server_disconnected target

  unfoldable pub gdb_server_cmd_ctrl_c : Action (State W) (Unit {0})
  gdb_server_cmd_ctrl_c = on_target target.halt

  -- The handler by the first character of the packet.
  unfoldable pub dispatch : ℕ → Packet → Action (State W) (Unit {0})
  dispatch c cmd =
      if c == b'q'
      then gdb_server_cmd_q cmd
      else if c == b'Q'
      then gdb_server_cmd_Q cmd
      else if c == b'g'
      then gdb_server_cmd_g target
      else if c == b'G'
      then gdb_server_cmd_G target cmd
      else if c == b'k'
      then gdb_server_cmd_k
      else if c == b'c'
      then gdb_server_cmd_c target
      else if c == b'm'
      then gdb_server_cmd_m target cmd
      else if c == b'M'
      then gdb_server_cmd_M target cmd
      else if c == b'x'
      then gdb_server_cmd_x target cmd
      else if c == b'X'
      then gdb_server_cmd_X target cmd
      else if c == b'p'
      then gdb_server_cmd_p target cmd
      else if c == b'P'
      then gdb_server_cmd_P target cmd
      else if c == b's'
      then gdb_server_cmd_s target
      else if c == b'z'
      then gdb_server_cmd_z target cmd
      else if c == b'Z'
      then gdb_server_cmd_Z target cmd
      else if c == b'v'
      then gdb_server_cmd_v target cmd
      else if c == b'+'
      then gdb_server_cmd_custom target cmd
      else skip

  unfoldable pub interrupt : Action (State W) (Unit {0})
  interrupt = do
    gdb_server_cmd_ctrl_c
    gdb_server_target_run false
    respond (b'T' ∷ b'0' ∷ b'2' ∷ [])

  -- While the target runs, a packet is looked at for ctrl-C only.
  unfoldable pub while_running : Option Packet → Action (State W) (Unit {0})
  while_running none = skip
  while_running (some cmd) =
      if (get_or cmd.data' 0 0 == 3) && (cmd.len == 1) then interrupt else skip

  -- The registers that an algorithm has saved.
  unfoldable pub restore_registers : Action (State W) (Unit {0})
  restore_registers = do
    regs ← gets (λ s. s.regs)
    on_target (target.write_core_registers regs)
    modify (λ s. record s { restore_reg_flag = false })

  -- The end of a halt: the target is not running, and the debugger is told why.
  unfoldable pub report_stop : List ℕ → Action (State W) (Unit {0})
  report_stop text = do
    gdb_server_target_run false
    restore ← gets (λ s. s.restore_reg_flag)
    if restore then restore_registers else skip
    respond text

  -- While the target runs there is nothing to report.
  unfoldable pub report : Option (List ℕ) → Action (State W) (Unit {0})
  report none = skip
  report (some text) = report_stop text

  unfoldable pub check_halt : Action (State W) (Unit {0})
  check_halt = do
    old ← gets (λ s. s.halt_info)
    new ← on_target (target.halt_check old)
    modify (λ s. record s { halt_info = new })
    report (stop_text new)

  unfoldable pub poll_running : Option Packet → Action (State W) (Unit {0})
  poll_running received = do
    while_running received
    still ← gets (λ s. s.target_running)
    if still then check_halt else skip

  unfoldable pub poll_halted : Option Packet → Action (State W) (Unit {0})
  poll_halted none = skip
  poll_halted (some cmd) = dispatch (get_or cmd.data' 0 0) cmd

  -- One round of the loop, with the packet from the queue, if one has come.
  unfoldable pub poll : Option Packet → Action (State W) (Unit {0})
  poll received = do
    connected ← gets (λ s. s.gdb_connected)
    was_running ← gets (λ s. s.target_running)
    if connected && was_running then poll_running received else poll_halted received
