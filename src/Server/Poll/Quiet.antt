-- ===== src/Server/Poll/Quiet.antt =====
-- Each command of gdb-server.c sends one response at most: the handlers.
pub mod Parts
use nuclei_dlink.Base.{
  ℕ, zero, suc, ◌+◌, ◌%◌, ◌^◌, ◌≤◌, ◌≡◌, refl, Bool, true, false, ◌&&◌, Option, none, some, List,
  [], ◌∷◌, ◌++◌, arith, length, get_or, ◌==◌, if◌then◌else◌,
}
use nuclei_dlink.Base.Action.{Action, gets, modify, given, ◌>>=◌, ◌>>◌, skip}
use nuclei_dlink.Server.{
  Packet, Target, State, TargetError, on_target, respond, gdb_server_target_run,
  gdb_server_send_response, gdb_server_reply_ok, gdb_server_reply_err,
}
use nuclei_dlink.Server.Sends.{
  Sends, Sends-modify, Sends-gets, Sends-skip, Sends-given, Sends-on_target, Sends-bind, Sends-if,
  Sends-more, Sends-send, Sends-respond, Sends-ok,
}
use nuclei_dlink.Server.Memory.{
  store, loaded, scan_range, scan_both, clamp_len, fetch_memory, put_memory, write_binary,
  flash_init_at, flash_erase_at, flash_write_at, flash_command, gdb_server_cmd_m, gdb_server_cmd_M,
  gdb_server_cmd_x, gdb_server_cmd_X, gdb_server_cmd_v,
}
use nuclei_dlink.Server.Registers.{
  send_registers, scan_number_of, scan_breakpoint, on_breakpoint, gdb_server_cmd_g,
  gdb_server_cmd_G, gdb_server_cmd_p, gdb_server_cmd_P, gdb_server_cmd_c, gdb_server_cmd_s,
  gdb_server_cmd_z, gdb_server_cmd_Z,
}
use nuclei_dlink.Server.Custom.{
  halt_and_init, gdb_server_connected, resume_and_run, gdb_server_disconnected, set_protocol,
  set_and_connect, gdb_server_cmd_custom_set, gdb_server_cmd_custom_read, pass, save_registers,
  gdb_server_cmd_custom_algorithm, custom_command, gdb_server_cmd_custom,
}
use nuclei_dlink.Server.Poll.{
  monitor_halt, gdb_server_cmd_q_rcmd, gdb_server_cmd_q, gdb_server_cmd_Q, gdb_server_cmd_k,
  dispatch,
}
use nuclei_dlink.Server.Poll.Quiet.Parts.{
  parts, quietly, before, behind, change, Sends-gdb_server_target_run, Sends-store,
  Sends-scan_range, Sends-scan_both, Sends-clamp_len, Sends-gdb_server_reply_err,
  Sends-send_registers, Sends-scan_number_of, Sends-scan_breakpoint,
}

module _ (W : Type 0) (target : Target W) where
  pub Sends-fetch_memory : Sends 0 (fetch_memory target)
  unfolding fetch_memory
  Sends-fetch_memory = search parts

  pub Sends-put_memory : Sends 0 (put_memory target)
  unfolding put_memory
  Sends-put_memory = search parts

  pub Sends-gdb_server_cmd_m : (cmd : Packet) → Sends 1 (gdb_server_cmd_m target cmd)
  unfolding gdb_server_cmd_m
  Sends-gdb_server_cmd_m cmd = search (parts, Sends-fetch_memory)

  pub Sends-gdb_server_cmd_M : (cmd : Packet) → Sends 1 (gdb_server_cmd_M target cmd)
  unfolding gdb_server_cmd_M
  Sends-gdb_server_cmd_M cmd = search (parts, Sends-put_memory) depth 12

  pub Sends-gdb_server_cmd_x : (cmd : Packet) → Sends 1 (gdb_server_cmd_x target cmd)
  unfolding gdb_server_cmd_x
  Sends-gdb_server_cmd_x cmd = search (parts, Sends-fetch_memory)

  pub Sends-write_binary : (cmd : Packet) → Sends 1 (write_binary target cmd)
  unfolding write_binary
  Sends-write_binary cmd = search (parts, Sends-put_memory)

  pub Sends-gdb_server_cmd_X : (cmd : Packet) → Sends 1 (gdb_server_cmd_X target cmd)
  unfolding gdb_server_cmd_X
  Sends-gdb_server_cmd_X cmd = search (parts, Sends-write_binary)

  pub Sends-flash_init_at : (vs : List ℕ) → Sends 0 (flash_init_at target vs)
  unfolding flash_init_at
  Sends-flash_init_at vs = search parts

  pub Sends-flash_erase_at : (vs : List ℕ) → Sends 0 (flash_erase_at target vs)
  unfolding flash_erase_at
  Sends-flash_erase_at vs = search parts

  pub Sends-flash_write_at : (cmd : Packet) (vs : List ℕ) → Sends 0 (flash_write_at target cmd vs)
  unfolding flash_write_at
  Sends-flash_write_at cmd vs = search parts depth 12

  pub Sends-flash_command : (cmd : Packet) → Sends 0 (flash_command target cmd)
  unfolding flash_command
  Sends-flash_command cmd =
      search (parts, Sends-flash_init_at, Sends-flash_erase_at, Sends-flash_write_at)

  pub Sends-gdb_server_cmd_v : (cmd : Packet) → Sends 1 (gdb_server_cmd_v target cmd)
  unfolding gdb_server_cmd_v
  Sends-gdb_server_cmd_v cmd = search (parts, Sends-flash_command)

  pub Sends-gdb_server_cmd_g : Sends 1 (gdb_server_cmd_g target)
  unfolding gdb_server_cmd_g
  Sends-gdb_server_cmd_g = search parts

  pub Sends-gdb_server_cmd_G : (cmd : Packet) → Sends 1 (gdb_server_cmd_G target cmd)
  unfolding gdb_server_cmd_G
  Sends-gdb_server_cmd_G cmd = search parts depth 12

  pub Sends-gdb_server_cmd_p : (cmd : Packet) → Sends 1 (gdb_server_cmd_p target cmd)
  unfolding gdb_server_cmd_p
  Sends-gdb_server_cmd_p cmd = search parts depth 12

  pub Sends-gdb_server_cmd_P : (cmd : Packet) → Sends 1 (gdb_server_cmd_P target cmd)
  unfolding gdb_server_cmd_P
  Sends-gdb_server_cmd_P cmd = search parts depth 12

  pub Sends-gdb_server_cmd_c : Sends 0 (gdb_server_cmd_c target)
  unfolding gdb_server_cmd_c
  Sends-gdb_server_cmd_c = search parts

  pub Sends-gdb_server_cmd_s : Sends 0 (gdb_server_cmd_s target)
  unfolding gdb_server_cmd_s
  Sends-gdb_server_cmd_s = search parts

  pub Sends-on_breakpoint :
      (operation : ℕ → ℕ → ℕ → Action W ℕ) (cmd : Packet)
      → Sends 1 (on_breakpoint target operation cmd)
  unfolding on_breakpoint
  Sends-on_breakpoint operation cmd = search parts depth 12

  pub Sends-gdb_server_cmd_z : (cmd : Packet) → Sends 1 (gdb_server_cmd_z target cmd)
  unfolding gdb_server_cmd_z
  Sends-gdb_server_cmd_z cmd = search (parts, Sends-on_breakpoint)

  pub Sends-gdb_server_cmd_Z : (cmd : Packet) → Sends 1 (gdb_server_cmd_Z target cmd)
  unfolding gdb_server_cmd_Z
  Sends-gdb_server_cmd_Z cmd = search (parts, Sends-on_breakpoint)

  pub Sends-halt_and_init : Sends 0 (halt_and_init target)
  unfolding halt_and_init
  Sends-halt_and_init = search parts

  pub Sends-gdb_server_connected : Sends 0 (gdb_server_connected target)
  unfolding gdb_server_connected
  Sends-gdb_server_connected = search (parts, Sends-halt_and_init) depth 12

  pub Sends-resume_and_run : Sends 0 (resume_and_run target)
  unfolding resume_and_run
  Sends-resume_and_run = search parts

  pub Sends-gdb_server_disconnected : Sends 0 (gdb_server_disconnected target)
  unfolding gdb_server_disconnected
  Sends-gdb_server_disconnected = search (parts, Sends-resume_and_run) depth 12

  pub Sends-set_protocol : (p : List ℕ) → Sends 1 (set_protocol target p)
  unfolding set_protocol
  Sends-set_protocol p = search parts

  pub Sends-set_and_connect : (p : List ℕ) → Sends 1 (set_and_connect target p)
  unfolding set_and_connect
  Sends-set_and_connect p = search (parts, Sends-set_protocol, Sends-gdb_server_connected)

  pub Sends-gdb_server_cmd_custom_set : (p : List ℕ) → Sends 1 (gdb_server_cmd_custom_set target p)
  unfolding gdb_server_cmd_custom_set
  Sends-gdb_server_cmd_custom_set p = search (parts, Sends-set_and_connect, Sends-more)

  pub Sends-gdb_server_cmd_custom_read :
      (p : List ℕ) → Sends 1 (gdb_server_cmd_custom_read target p)
  unfolding gdb_server_cmd_custom_read
  Sends-gdb_server_cmd_custom_read p = search (parts, Sends-more) depth 12

  pub Sends-pass : (regno value : ℕ) → Sends 0 (pass target regno value)
  unfolding pass
  Sends-pass regno value = search parts

  pub Sends-save_registers : Sends 0 (save_registers target)
  unfolding save_registers
  Sends-save_registers = search parts

  pub Sends-gdb_server_cmd_custom_algorithm :
      (p : List ℕ) → Sends 1 (gdb_server_cmd_custom_algorithm target p)
  unfolding gdb_server_cmd_custom_algorithm
  Sends-gdb_server_cmd_custom_algorithm p =
      search (parts, Sends-pass, Sends-save_registers) depth 20

  pub Sends-custom_command : (p : List ℕ) → Sends 1 (custom_command target p)
  unfolding custom_command
  Sends-custom_command p = search (
    parts, Sends-gdb_server_cmd_custom_set, Sends-gdb_server_cmd_custom_read,
    Sends-gdb_server_cmd_custom_algorithm, Sends-more,
  )

  pub Sends-gdb_server_cmd_custom : (cmd : Packet) → Sends 1 (gdb_server_cmd_custom target cmd)
  unfolding gdb_server_cmd_custom
  Sends-gdb_server_cmd_custom cmd = search (parts, Sends-custom_command)

  pub Sends-monitor_halt : Sends 1 (monitor_halt target)
  unfolding monitor_halt
  Sends-monitor_halt = search (parts, Sends-halt_and_init)

  pub Sends-gdb_server_cmd_q_rcmd : (cmd : Packet) → Sends 1 (gdb_server_cmd_q_rcmd target cmd)
  unfolding gdb_server_cmd_q_rcmd
  Sends-gdb_server_cmd_q_rcmd cmd = search (parts, Sends-monitor_halt) depth 12

  pub Sends-gdb_server_cmd_q : (cmd : Packet) → Sends 1 (gdb_server_cmd_q target cmd)
  unfolding gdb_server_cmd_q
  Sends-gdb_server_cmd_q cmd = search (parts, Sends-gdb_server_cmd_q_rcmd, Sends-more)

  pub Sends-gdb_server_cmd_Q : (cmd : Packet) → Sends 1 (gdb_server_cmd_Q target cmd)
  unfolding gdb_server_cmd_Q
  Sends-gdb_server_cmd_Q cmd = search (parts, Sends-more)

  pub Sends-gdb_server_cmd_k : Sends 1 (gdb_server_cmd_k target)
  unfolding gdb_server_cmd_k
  Sends-gdb_server_cmd_k = search (parts, Sends-gdb_server_disconnected)
