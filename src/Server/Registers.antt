-- ===== src/Server/Registers.antt =====
-- The register, run and breakpoint commands of gdb-server.c: `g`, `G`, `p`, `P`, `c`, `s`, `z`, `Z`.
use mathlib.Core.Option
use nuclei_dlink.Base.{
  ℕ, zero, suc, ◌+◌, ◌-◌, ◌*◌, ◌/◌, ◌%◌, ◌^◌, Bool, true, ◌&&◌, Option, none, some, List, [], ◌∷◌,
  ◌++◌, drop, get_or, leb, ◌==◌, if◌then◌else◌, write_at,
}
use nuclei_dlink.Base.Action.{Action, gets, modify, given, ◌>>=◌, ◌>>◌}
use nuclei_dlink.Codec.{uint32_to_hex_le, uint64_to_hex_le, hex_to_uint32_le, hex_to_uint64_le}
use nuclei_dlink.Server.{
  Packet, Target, State, reg_num, set_low, on_target, respond, gdb_server_send_response,
  gdb_server_reply_ok, gdb_server_reply_err, gdb_server_target_run,
}
use nuclei_dlink.Server.Scan.{scan_fields, after_char}
use nuclei_dlink.Server.Memory.{scan_one}

-- The text of `n` registers in a buffer of words; `none` is a read past its end.
pub words_text : ℕ → List ℕ → Option (List ℕ)
words_text zero ws = some []
words_text (suc n) [] = none
words_text (suc n) (w ∷ ws) = Option.map (λ rest. uint32_to_hex_le w ++ rest) (words_text n ws)

pub doubles_text : ℕ → List ℕ → Option (List ℕ)
doubles_text zero ws = some []
doubles_text (suc n) [] = none
doubles_text (suc n) (low ∷ []) = none
doubles_text (suc n) (low ∷ high ∷ ws) =
    Option.map (λ rest. uint64_to_hex_le (low + high * 2 ^ 32) ++ rest) (doubles_text n ws)

-- The words of `n` registers from a text.
pub text_words : ℕ → List ℕ → Option (List ℕ)
text_words zero hex = some []
text_words (suc n) hex =
    let rest = text_words n (drop 8 hex) in
    elim (hex_to_uint32_le hex) [ none ↦ none | some w ↦ Option.map (λ ws. w ∷ ws) rest ]

pub text_doubles : ℕ → List ℕ → Option (List ℕ)
text_doubles zero hex = some []
text_doubles (suc n) hex =
    let rest = text_doubles n (drop 16 hex) in
    elim (hex_to_uint64_le hex) [
      | none ↦ none
      | some v ↦ Option.map (λ ws. v % 2 ^ 32 ∷ v / 2 ^ 32 ∷ ws) rest
    ]

abbrev is_v : ℕ → Bool
is_v regno = leb 4162 regno && leb regno 4193

-- The registers of a text over the first words of a buffer.
unfoldable pub parse_registers : ℕ → ℕ → List ℕ → List ℕ → Option (List ℕ)
parse_registers mxl n hex old =
    if mxl == 1
    then elim (text_words n hex) [ none ↦ none | some ws ↦ write_at 0 ws old ]
    else if mxl == 2
    then elim (text_doubles n hex) [ none ↦ none | some ws ↦ write_at 0 ws old ]
    else some old

module _ {W : Type 0} where
  -- The text of `n` registers is sent; on a target of another width, the old response is.
  unfoldable pub send_registers : ℕ → ℕ → List ℕ → Action (State W) (Unit {0})
  send_registers mxl n ws =
      if mxl == 1
      then (given (words_text n ws) >>= respond)
      else if mxl == 2
      then (given (doubles_text n ws) >>= respond)
      else gdb_server_send_response

  -- The number of the register.
  unfoldable pub scan_number_of : Packet → Action (State W) ℕ
  scan_number_of cmd = do
    modify (λ s. record s { reg_tmp_num = scan_one (drop 1 cmd.data') s.reg_tmp_num })
    gets (λ s. s.reg_tmp_num)

  -- The three values of a breakpoint command.
  unfoldable pub scan_breakpoint : Packet → Action (State W) (Unit {0})
  scan_breakpoint cmd =
      let vs = scan_fields 3 (drop 1 cmd.data') in
      modify (λ s. record s {
        breakpoint_type = get_or vs 0 s.breakpoint_type;
        breakpoint_addr = set_low (get_or vs 1 (s.breakpoint_addr % 2 ^ 32)) s.breakpoint_addr;
        breakpoint_kind = get_or vs 2 s.breakpoint_kind;
      })

module _ {W : Type 0} (target : Target W) where
  unfoldable pub gdb_server_cmd_g : Action (State W) (Unit {0})
  gdb_server_cmd_g = do
    old ← gets (λ s. s.regs)
    new ← on_target (target.read_core_registers old)
    modify (λ s. record s { regs = new })
    mxl ← gets (λ s. target.mxl s.target)
    send_registers mxl reg_num new

  unfoldable pub gdb_server_cmd_G : Packet → Action (State W) (Unit {0})
  gdb_server_cmd_G cmd = do
    mxl ← gets (λ s. target.mxl s.target)
    old ← gets (λ s. s.regs)
    new ← given (parse_registers mxl reg_num (drop 1 cmd.data') old)
    modify (λ s. record s { regs = new })
    on_target (target.write_core_registers new)
    gdb_server_reply_ok

  -- How many words or doublewords a register of the number `reg_tmp_num` has.
  pub element_count : State W → ℕ
  element_count s =
      let xlen = target.mxl s.target * 32 in
      let debug_vl = ((target.vlenb s.target * 8 % 2 ^ 32 + xlen + 2 ^ 32 - 1) % 2 ^ 32) / xlen in
      if is_v s.reg_tmp_num then debug_vl else 1

  unfoldable pub gdb_server_cmd_p : Packet → Action (State W) (Unit {0})
  gdb_server_cmd_p cmd = do
    regno ← scan_number_of cmd
    old ← gets (λ s. s.reg_tmp)
    new ← on_target (target.read_register old regno)
    modify (λ s. record s { reg_tmp = new; rsp = if is_v regno then [] else s.rsp })
    mxl ← gets (λ s. target.mxl s.target)
    n ← gets element_count
    send_registers mxl n new

  unfoldable pub gdb_server_cmd_P : Packet → Action (State W) (Unit {0})
  gdb_server_cmd_P cmd = do
    regno ← scan_number_of cmd
    p ← given (after_char b'=' (drop 1 cmd.data'))
    mxl ← gets (λ s. target.mxl s.target)
    n ← gets element_count
    old ← gets (λ s. s.reg_tmp)
    new ← given (parse_registers mxl n p old)
    modify (λ s. record s { reg_tmp = new })
    on_target (target.write_register new regno)
    gdb_server_reply_ok

  unfoldable pub gdb_server_cmd_c : Action (State W) (Unit {0})
  gdb_server_cmd_c = do on_target target.resume; gdb_server_target_run true

  unfoldable pub gdb_server_cmd_s : Action (State W) (Unit {0})
  gdb_server_cmd_s = do on_target target.step; gdb_server_target_run true

  -- The operation on the scanned breakpoint, and the answer by its error.
  unfoldable pub on_breakpoint : (ℕ → ℕ → ℕ → Action W ℕ) → Packet → Action (State W) (Unit {0})
  on_breakpoint operation cmd = do
    scan_breakpoint cmd
    type ← gets (λ s. s.breakpoint_type)
    addr ← gets (λ s. s.breakpoint_addr)
    kind ← gets (λ s. s.breakpoint_kind)
    err ← on_target (operation type addr kind)
    modify (λ s. record s { breakpoint_err = err })
    if err == 0 then gdb_server_reply_ok else gdb_server_reply_err err

  unfoldable pub gdb_server_cmd_z : Packet → Action (State W) (Unit {0})
  gdb_server_cmd_z cmd = on_breakpoint target.remove_breakpoint cmd

  unfoldable pub gdb_server_cmd_Z : Packet → Action (State W) (Unit {0})
  gdb_server_cmd_Z cmd = on_breakpoint target.insert_breakpoint cmd
