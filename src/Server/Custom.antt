-- ===== src/Server/Custom.antt =====
-- The custom commands of gdb-server.c (`+:set:…`, `+:read:…`, `+:algorithm:…`), and the beginning and
-- the end of a connection.
use nuclei_dlink.Base.{
  ℕ, ◌%◌, ◌^◌, Bool, true, false, List, [], ◌∷◌, ◌++◌, drop, get_elem?, replicate, if◌then◌else◌,
  write_at,
}
use nuclei_dlink.Base.Action.{Action, gets, modify, given, ◌>>=◌, ◌>>◌, skip}
use nuclei_dlink.Server.{
  Packet, Target, State, TargetError, error_none, error_line, on_target, respond,
  gdb_server_send_response, gdb_server_target_run,
}
use nuclei_dlink.Server.Scan.{scan_fields, after_char, starts_with, hex_digits}

abbrev set_word : List ℕ
set_word = b's' ∷ b'e' ∷ b't' ∷ []

abbrev read_word : List ℕ
read_word = b'r' ∷ b'e' ∷ b'a' ∷ b'd' ∷ []

abbrev algorithm_word : List ℕ
algorithm_word = b'a' ∷ b'l' ∷ b'g' ∷ b'o' ∷ b'r' ∷ b'i' ∷ b't' ∷ b'h' ∷ b'm' ∷ []

abbrev protocol_word : List ℕ
protocol_word = b'p' ∷ b'r' ∷ b'o' ∷ b't' ∷ b'o' ∷ b'c' ∷ b'o' ∷ b'l' ∷ []

abbrev jtag_word : List ℕ
jtag_word = b'j' ∷ b't' ∷ b'a' ∷ b'g' ∷ []

abbrev cjtag_word : List ℕ
cjtag_word = b'c' ∷ b'j' ∷ b't' ∷ b'a' ∷ b'g' ∷ []

abbrev misa_word : List ℕ
misa_word = b'm' ∷ b'i' ∷ b's' ∷ b'a' ∷ []

abbrev vlenb_word : List ℕ
vlenb_word = b'v' ∷ b'l' ∷ b'e' ∷ b'n' ∷ b'b' ∷ []

abbrev version_word : List ℕ
version_word = b'v' ∷ b'e' ∷ b'r' ∷ b's' ∷ b'i' ∷ b'o' ∷ b'n' ∷ []

abbrev jtag_ok : List ℕ
jtag_ok =
    b'-' ∷ b':' ∷ b's' ∷ b'e' ∷ b't' ∷ b':' ∷ b'p' ∷ b'r' ∷ b'o' ∷ b't' ∷ b'o' ∷ b'c' ∷ b'o' ∷ b'l'
    ∷ b':' ∷ b'j' ∷ b't' ∷ b'a' ∷ b'g' ∷ b':' ∷ b'O' ∷ b'K' ∷ b';' ∷ []

abbrev cjtag_ok : List ℕ
cjtag_ok =
    b'-' ∷ b':' ∷ b's' ∷ b'e' ∷ b't' ∷ b':' ∷ b'p' ∷ b'r' ∷ b'o' ∷ b't' ∷ b'o' ∷ b'c' ∷ b'o' ∷ b'l'
    ∷ b':' ∷ b'c' ∷ b'j' ∷ b't' ∷ b'a' ∷ b'g' ∷ b':' ∷ b'O' ∷ b'K' ∷ b';' ∷ []

abbrev misa_text : List ℕ
misa_text = b'-' ∷ b':' ∷ b'r' ∷ b'e' ∷ b'a' ∷ b'd' ∷ b':' ∷ b'm' ∷ b'i' ∷ b's' ∷ b'a' ∷ b':' ∷ []

abbrev vlenb_text : List ℕ
vlenb_text =
    b'-' ∷ b':' ∷ b'r' ∷ b'e' ∷ b'a' ∷ b'd' ∷ b':' ∷ b'v' ∷ b'l' ∷ b'e' ∷ b'n' ∷ b'b' ∷ b':' ∷ []

abbrev version_text : List ℕ
version_text =
    b'-' ∷ b':' ∷ b'r' ∷ b'e' ∷ b'a' ∷ b'd' ∷ b':' ∷ b'v' ∷ b'e' ∷ b'r' ∷ b's' ∷ b'i' ∷ b'o' ∷ b'n'
    ∷ b':' ∷ []

abbrev firmware_version : List ℕ
firmware_version = b'v' ∷ b'0' ∷ b'.' ∷ b'9' ∷ b'.' ∷ b'1' ∷ []

abbrev algorithm_ok : List ℕ
algorithm_ok =
    b'-' ∷ b':' ∷ b'a' ∷ b'l' ∷ b'g' ∷ b'o' ∷ b'r' ∷ b'i' ∷ b't' ∷ b'h' ∷ b'm' ∷ b':' ∷ b'O' ∷ b'K'
    ∷ b';' ∷ []

abbrev is_none : TargetError → Bool
is_none e = elim e [ error_none ↦ true | _ ↦ false ]

abbrev is_line : TargetError → Bool
is_line e = elim e [ error_line ↦ true | _ ↦ false ]

unfoldable pub gdb_server_init : {W : Type 0} → Action (State W) (Unit {0})
gdb_server_init = do
  gdb_server_target_run false
  modify (λ s. record s { gdb_connected = false; no_ack_mode = false })

module _ {W : Type 0} (target : Target W) where
  -- The halt and what follows it, when the target has answered.
  unfoldable pub halt_and_init : Action (State W) (Unit {0})
  halt_and_init = do
    on_target target.halt
    old ← gets (λ s. s.target_error)
    new ← on_target (target.init_after_halted old)
    modify (λ s. record s { target_error = new })

  unfoldable pub gdb_server_connected : Action (State W) (Unit {0})
  gdb_server_connected = do
    modify (λ s. record s { target_error = error_none; gdb_connected = true })
    gdb_server_target_run false
    modify (λ s. record s { no_ack_mode = false; restore_reg_flag = false })
    on_target target.init
    error ← on_target (target.init_post error_none)
    modify (λ s. record s { target_error = error })
    if is_none error then halt_and_init else skip

  unfoldable pub resume_and_run : Action (State W) (Unit {0})
  resume_and_run = do on_target target.resume; gdb_server_target_run true

  unfoldable pub gdb_server_disconnected : Action (State W) (Unit {0})
  gdb_server_disconnected = do
    running ← gets (λ s. s.target_running)
    line ← gets (λ s. is_line s.target_error)
    if running then skip else (if line then skip else resume_and_run)
    if line then skip else on_target target.fini_pre
    on_target target.deinit
    modify (λ s. record s { gdb_connected = false })

  -- A protocol that is not known leaves the old response, which is sent again.
  unfoldable pub set_protocol : List ℕ → Action (State W) (Unit {0})
  set_protocol p =
      let jtag = (do on_target (target.set_protocol 0); respond jtag_ok) in
      let cjtag = (do on_target (target.set_protocol 1); respond cjtag_ok) in
      if starts_with jtag_word p
      then jtag
      else if starts_with cjtag_word p
      then cjtag
      else gdb_server_send_response

  unfoldable pub set_and_connect : List ℕ → Action (State W) (Unit {0})
  set_and_connect p = do q ← given (after_char b':' p); set_protocol q; gdb_server_connected

  unfoldable pub gdb_server_cmd_custom_set : List ℕ → Action (State W) (Unit {0})
  gdb_server_cmd_custom_set data' = do
    p ← given (after_char b':' data')
    if starts_with protocol_word p then set_and_connect p else skip

  -- `%016x` of a value of 64 bits prints its low word.
  unfoldable pub gdb_server_cmd_custom_read : List ℕ → Action (State W) (Unit {0})
  gdb_server_cmd_custom_read data' = do
    p ← given (after_char b':' data')
    misa ← gets (λ s. target.misa s.target)
    vlenb ← gets (λ s. target.vlenb s.target)
    if starts_with misa_word p
        then respond (misa_text ++ (hex_digits 8 misa ++ b';' ∷ []))
        else if starts_with vlenb_word p
        then respond
            (vlenb_text ++ (replicate 8 b'0' ++ (hex_digits 8 (vlenb % 2 ^ 32) ++ b';' ∷ [])))
        else if starts_with version_word p
        then respond (version_text ++ (firmware_version ++ b';' ∷ []))
        else skip

  -- A parameter of the algorithm goes into its register.
  unfoldable pub pass : ℕ → ℕ → Action (State W) (Unit {0})
  pass regno value = do
    old ← gets (λ s. s.reg_tmp)
    new ← given (write_at 0 (value ∷ 0 ∷ []) old)
    modify (λ s. record s { reg_tmp_num = regno; reg_tmp = new })
    on_target (target.write_register new regno)

  unfoldable pub save_registers : Action (State W) (Unit {0})
  save_registers = do
    old ← gets (λ s. s.regs)
    new ← on_target (target.read_core_registers old)
    modify (λ s. record s { regs = new; restore_reg_flag = true })

  -- The program counter, and `a0` to `a4`. A parameter that is not scanned is a variable without a
  -- value.
  unfoldable pub gdb_server_cmd_custom_algorithm : List ℕ → Action (State W) (Unit {0})
  gdb_server_cmd_custom_algorithm data' = do
    p ← given (after_char b':' data')
    let vs = scan_fields 6 p
    loader_addr ← given (get_elem? vs 0)
    cs ← given (get_elem? vs 1)
    spi_base ← given (get_elem? vs 2)
    params1 ← given (get_elem? vs 3)
    params2 ← given (get_elem? vs 4)
    params3 ← given (get_elem? vs 5)
    save_registers
    pass 32 loader_addr
    pass 10 cs
    pass 11 spi_base
    pass 12 params1
    pass 13 params2
    pass 14 params3
    respond algorithm_ok

  unfoldable pub custom_command : List ℕ → Action (State W) (Unit {0})
  custom_command p =
      if starts_with set_word p
      then gdb_server_cmd_custom_set p
      else if starts_with read_word p
      then gdb_server_cmd_custom_read p
      else if starts_with algorithm_word p
      then gdb_server_cmd_custom_algorithm p
      else skip

  unfoldable pub gdb_server_cmd_custom : Packet → Action (State W) (Unit {0})
  gdb_server_cmd_custom cmd = do p ← given (after_char b':' (drop 1 cmd.data')); custom_command p
