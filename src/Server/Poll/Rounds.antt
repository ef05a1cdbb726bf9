-- ===== src/Server/Poll/Rounds.antt =====
-- The rounds of `gdb_server_poll`.
use nuclei_dlink.Base.{
  ℕ, ◌≡◌, refl, subst, ◌++◌, ◌≤◌, length, ◌&&◌, Option, none, some, List, [], ◌∷◌, arith, get_or,
  ◌==◌, if◌then◌else◌, Bool-cases, Option-cases, inl, inr,
}
use nuclei_dlink.Base.Action.{Action, gets, ◌>>=◌, ◌>>◌, skip}
use nuclei_dlink.Server.{
  Packet, Target, State, respond, gdb_server_target_run, gdb_server_send_response,
}
use nuclei_dlink.Server.Sends.{Sends, Grown, Sends-more, Sends-skip}
use nuclei_dlink.Server.Poll.{
  dispatch, interrupt, gdb_server_cmd_ctrl_c, while_running, restore_registers, report_stop, report,
  check_halt, poll_running, poll_halted, poll,
}
use nuclei_dlink.Server.Poll.Quiet.{
  Sends-gdb_server_cmd_q, Sends-gdb_server_cmd_Q, Sends-gdb_server_cmd_g, Sends-gdb_server_cmd_G,
  Sends-gdb_server_cmd_k, Sends-gdb_server_cmd_c, Sends-gdb_server_cmd_m, Sends-gdb_server_cmd_M,
  Sends-gdb_server_cmd_x, Sends-gdb_server_cmd_X, Sends-gdb_server_cmd_p, Sends-gdb_server_cmd_P,
  Sends-gdb_server_cmd_s, Sends-gdb_server_cmd_z, Sends-gdb_server_cmd_Z, Sends-gdb_server_cmd_v,
  Sends-gdb_server_cmd_custom,
}
use nuclei_dlink.Server.Poll.Quiet.Parts.{parts, before}

module _ (W : Type 0) (target : Target W) where
  Sends-dispatch : (c : ℕ) (cmd : Packet) → Sends 1 (dispatch target c cmd)
  unfolding dispatch
  Sends-dispatch c cmd =
      search
        (
          parts, Sends-more, Sends-gdb_server_cmd_q, Sends-gdb_server_cmd_Q, Sends-gdb_server_cmd_g,
          Sends-gdb_server_cmd_G, Sends-gdb_server_cmd_k, Sends-gdb_server_cmd_c,
          Sends-gdb_server_cmd_m, Sends-gdb_server_cmd_M, Sends-gdb_server_cmd_x,
          Sends-gdb_server_cmd_X, Sends-gdb_server_cmd_p, Sends-gdb_server_cmd_P,
          Sends-gdb_server_cmd_s, Sends-gdb_server_cmd_z, Sends-gdb_server_cmd_Z,
          Sends-gdb_server_cmd_v, Sends-gdb_server_cmd_custom,
        )
        depth 24

  Sends-restore_registers : Sends 0 (restore_registers target)
  unfolding restore_registers
  Sends-restore_registers = search parts

  Sends-report_stop : (text : List ℕ) → Sends 1 (report_stop target text)
  unfolding report_stop
  Sends-report_stop text = search (parts, Sends-restore_registers) depth 12

  Sends-report : (o : Option (List ℕ)) → Sends 1 (report target o)
  unfolding report
  Sends-report none = Sends-more W skip (Sends-skip W)
  Sends-report (some text) = Sends-report_stop text

  Sends-check_halt : Sends 1 (check_halt target)
  unfolding check_halt
  Sends-check_halt = search (parts, Sends-report) depth 12

  -- The rest of a round while the target runs.
  abbrev check_if_running : Action (State W) (Unit {0})
  check_if_running =
      gets (λ s. s.target_running) >>= λ still. if still then check_halt target else skip

  Sends-check_if_running : Sends 1 check_if_running
  Sends-check_if_running = search (parts, Sends-check_halt, Sends-more) depth 12

  -- After ctrl-C the target does not run, and no halt is looked for.
  interrupted : Sends 1 (interrupt target >> check_if_running)
  unfolding Sends Grown interrupt gdb_server_cmd_ctrl_c gdb_server_target_run respond
      gdb_server_send_response
  interrupted s = elim (Option-cases (target.halt s.target)) [
    | inl e ↦ rw (◌>>=◌, e) tt
    | inr (a, e) ↦ rw (◌>>=◌, e) ((b'T' ∷ b'0' ∷ b'2' ∷ []) ∷ [], refl, omega arith)
  ]

  quiet_then : {A : Type 0} (m : Action (State W) A) → Sends 1 m → Sends 1 (skip >> m)
  quiet_then m h = before W skip (λ _. m) (Sends-skip W) (λ _. h)

  Sends-poll_running : (received : Option Packet) → Sends 1 (poll_running target received)
  unfolding poll_running while_running
  Sends-poll_running none = quiet_then check_if_running Sends-check_if_running
  Sends-poll_running (some cmd) =
      elim (Bool-cases ((get_or cmd.data' 0 0 == 3) && (cmd.len == 1))) [
        | inl e ↦ rw (e) interrupted
        | inr e ↦ rw (e) (quiet_then check_if_running Sends-check_if_running)
      ]

  Sends-poll_halted : (received : Option Packet) → Sends 1 (poll_halted target received)
  unfolding poll_halted
  Sends-poll_halted none = Sends-more W skip (Sends-skip W)
  Sends-poll_halted (some cmd) = Sends-dispatch _ cmd

  Sends-poll : (received : Option Packet) → Sends 1 (poll target received)
  unfolding poll
  Sends-poll received = search (parts, Sends-poll_running, Sends-poll_halted) depth 12

  -- A round of the loop, with whatever packet or none, that writes past none of its buffers and in which
  -- the target answers, keeps the responses that are in the queue, and adds one at most.
  pub poll-responses :
      (received : Option Packet) (s s' : State W)
      → poll target received s ≡ some (tt, s')
      → (extra : List (List ℕ)) × (s'.responses ≡ s.responses ++ extra) × (length extra ≤ 1)
  unfolding Sends Grown
  poll-responses received s s' e = subst (Grown 1 s) e (Sends-poll received s)
