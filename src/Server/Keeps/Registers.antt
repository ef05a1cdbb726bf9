-- ===== src/Server/Keeps/Registers.antt =====
-- The handlers of registers, breakpoints, connections and custom commands of gdb-server.c keep the state valid.
use nuclei_dlink.Base.{ℕ, List}
use nuclei_dlink.Base.Action.{Action, gets, modify, given, ◌>>=◌, ◌>>◌}
use nuclei_dlink.Server.{Packet, Target, on_target, gdb_server_reply_ok}
use nuclei_dlink.Server.Registers.{
  parse_registers, on_breakpoint, gdb_server_cmd_g, gdb_server_cmd_G, gdb_server_cmd_p,
  gdb_server_cmd_P, gdb_server_cmd_c, gdb_server_cmd_s, gdb_server_cmd_z, gdb_server_cmd_Z,
}
use nuclei_dlink.Server.Custom.{
  halt_and_init, gdb_server_connected, resume_and_run, gdb_server_disconnected, set_protocol,
  set_and_connect, gdb_server_cmd_custom_set, gdb_server_cmd_custom_read, pass, save_registers,
  gdb_server_cmd_custom_algorithm, custom_command, gdb_server_cmd_custom,
}
use nuclei_dlink.Server.Keeps.{After, Keeps, IsSized, Keeps-on_target}
use nuclei_dlink.Server.Keeps.Steps.{
  kept, link, look, have, Keeps-scan_number_of, Keeps-ok, Keeps-send_registers,
}
use nuclei_dlink.Server.Keeps.Buffers.{stored, Keeps-reg_tmp_bind, Keeps-parsed_bind, Keeps-put_tmp}

module _ (W : Type 0) (target : Target W) where
  pub Keeps-gdb_server_cmd_g : IsSized target → (b : ℕ) → Keeps b b (gdb_server_cmd_g target)
  unfolding gdb_server_cmd_g Keeps After
  Keeps-gdb_server_cmd_g sized b = search (stored, kept, Keeps-send_registers) depth 20

  pub Keeps-gdb_server_cmd_G : (b : ℕ) (cmd : Packet) → Keeps b b (gdb_server_cmd_G target cmd)
  unfolding gdb_server_cmd_G Keeps After
  Keeps-gdb_server_cmd_G b cmd = search (stored, kept) depth 20

  pub Keeps-gdb_server_cmd_p :
      IsSized target → (b : ℕ) (cmd : Packet) → Keeps b b (gdb_server_cmd_p target cmd)
  unfolding gdb_server_cmd_p Keeps After
  Keeps-gdb_server_cmd_p sized b cmd = search (stored, kept, Keeps-send_registers) depth 20

  -- The end of `P`.
  put_register :
      (b mxl n regno : ℕ) (p : List ℕ)
      → Keeps b b (
          gets (λ s. s.reg_tmp) >>= λ old. given (parse_registers mxl n p old) >>= λ new.
          modify (λ s. record s { reg_tmp = new })
          >> (on_target (target.write_register new regno) >> gdb_server_reply_ok))
  put_register b mxl n regno p = Keeps-reg_tmp_bind W b _ (λ old sized.
      Keeps-parsed_bind W b mxl n 8 p old _ sized (λ new sized'.
        link W b _ _ (Keeps-put_tmp W b new sized') (λ u.
          link W b _ _ (Keeps-on_target W b (target.write_register new regno))
            (λ u'. Keeps-ok W b))))

  pub Keeps-gdb_server_cmd_P : (b : ℕ) (cmd : Packet) → Keeps b b (gdb_server_cmd_P target cmd)
  unfolding gdb_server_cmd_P
  Keeps-gdb_server_cmd_P b cmd =
      search (link, look, have, Keeps-scan_number_of, put_register) depth 12

  pub Keeps-gdb_server_cmd_c : (b : ℕ) → Keeps b b (gdb_server_cmd_c target)
  unfolding gdb_server_cmd_c
  Keeps-gdb_server_cmd_c b = search kept

  pub Keeps-gdb_server_cmd_s : (b : ℕ) → Keeps b b (gdb_server_cmd_s target)
  unfolding gdb_server_cmd_s
  Keeps-gdb_server_cmd_s b = search kept

  Keeps-on_breakpoint :
      (operation : ℕ → ℕ → ℕ → Action W ℕ) (b : ℕ) (cmd : Packet)
      → Keeps b b (on_breakpoint target operation cmd)
  unfolding on_breakpoint Keeps After
  Keeps-on_breakpoint operation b cmd = search kept depth 16

  pub Keeps-gdb_server_cmd_z : (b : ℕ) (cmd : Packet) → Keeps b b (gdb_server_cmd_z target cmd)
  unfolding gdb_server_cmd_z
  Keeps-gdb_server_cmd_z b cmd = search (kept, Keeps-on_breakpoint)

  pub Keeps-gdb_server_cmd_Z : (b : ℕ) (cmd : Packet) → Keeps b b (gdb_server_cmd_Z target cmd)
  unfolding gdb_server_cmd_Z
  Keeps-gdb_server_cmd_Z b cmd = search (kept, Keeps-on_breakpoint)

  pub Keeps-halt_and_init : (b : ℕ) → Keeps b b (halt_and_init target)
  unfolding halt_and_init Keeps After
  Keeps-halt_and_init b = search kept depth 12

  Keeps-gdb_server_connected : (b : ℕ) → Keeps b b (gdb_server_connected target)
  unfolding gdb_server_connected Keeps After
  Keeps-gdb_server_connected b = search (kept, Keeps-halt_and_init) depth 16

  Keeps-resume_and_run : (b : ℕ) → Keeps b b (resume_and_run target)
  unfolding resume_and_run
  Keeps-resume_and_run b = search kept

  pub Keeps-gdb_server_disconnected : (b : ℕ) → Keeps b b (gdb_server_disconnected target)
  unfolding gdb_server_disconnected Keeps After
  Keeps-gdb_server_disconnected b = search (kept, Keeps-resume_and_run) depth 16

  Keeps-set_protocol : (b : ℕ) (p : List ℕ) → Keeps b b (set_protocol target p)
  unfolding set_protocol
  Keeps-set_protocol b p = search kept

  Keeps-set_and_connect : (b : ℕ) (p : List ℕ) → Keeps b b (set_and_connect target p)
  unfolding set_and_connect
  Keeps-set_and_connect b p = search (kept, Keeps-set_protocol, Keeps-gdb_server_connected)

  Keeps-gdb_server_cmd_custom_set :
      (b : ℕ) (p : List ℕ) → Keeps b b (gdb_server_cmd_custom_set target p)
  unfolding gdb_server_cmd_custom_set
  Keeps-gdb_server_cmd_custom_set b p = search (kept, Keeps-set_and_connect)

  Keeps-gdb_server_cmd_custom_read :
      (b : ℕ) (p : List ℕ) → Keeps b b (gdb_server_cmd_custom_read target p)
  unfolding gdb_server_cmd_custom_read
  Keeps-gdb_server_cmd_custom_read b p = search kept depth 12

  Keeps-pass : (b regno value : ℕ) → Keeps b b (pass target regno value)
  unfolding pass Keeps After
  Keeps-pass b regno value = search (stored, kept) depth 12

  Keeps-save_registers : IsSized target → (b : ℕ) → Keeps b b (save_registers target)
  unfolding save_registers Keeps After
  Keeps-save_registers sized b = search (stored, kept) depth 12

  Keeps-gdb_server_cmd_custom_algorithm :
      IsSized target → (b : ℕ) (p : List ℕ) → Keeps b b (gdb_server_cmd_custom_algorithm target p)
  unfolding gdb_server_cmd_custom_algorithm
  Keeps-gdb_server_cmd_custom_algorithm sized b p =
      search (kept, Keeps-pass, Keeps-save_registers) depth 24

  Keeps-custom_command : IsSized target → (b : ℕ) (p : List ℕ) → Keeps b b (custom_command target p)
  unfolding custom_command
  Keeps-custom_command sized b p = search (
    kept, Keeps-gdb_server_cmd_custom_set, Keeps-gdb_server_cmd_custom_read,
    Keeps-gdb_server_cmd_custom_algorithm,
  )

  pub Keeps-gdb_server_cmd_custom :
      IsSized target → (b : ℕ) (cmd : Packet) → Keeps b b (gdb_server_cmd_custom target cmd)
  unfolding gdb_server_cmd_custom
  Keeps-gdb_server_cmd_custom sized b cmd = search (kept, Keeps-custom_command)
