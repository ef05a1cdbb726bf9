-- ===== src/Server/Keeps/Rounds.antt =====
-- The rounds of `gdb_server_poll` keep the state valid, whatever packets come.
use nuclei_dlink.Base.{
  ℕ, ◌+◌, ◌^◌, ◌≤◌, ◌≡◌, refl, subst, ◌∙◌, Option, none, some, List, [], ◌∷◌, ◌++◌, arith,
  length-append, write_at, Option-cases, inl, inr,
}
use nuclei_dlink.Base.Action.{Action, modify, given, ◌>>=◌, ◌>>◌}
use nuclei_dlink.Codec.{hex_to_bin}
use nuclei_dlink.Codec.Hex.{length-hex_to_bin}
use nuclei_dlink.Server.{Packet, Target, State, buff_size, gdb_server_target_run}
use nuclei_dlink.Server.Memory.{store}
use nuclei_dlink.Server.Custom.{gdb_server_init}
use nuclei_dlink.Server.Task.{power_on, rounds, gdb_server_v_task}
use nuclei_dlink.Server.Poll.{
  monitor_halt, gdb_server_cmd_q_rcmd, gdb_server_cmd_q, gdb_server_cmd_Q, gdb_server_cmd_k,
  gdb_server_cmd_ctrl_c, dispatch, interrupt, while_running, restore_registers, report_stop, report,
  check_halt, poll_running, poll_halted, poll,
}
use nuclei_dlink.Server.Keeps.{
  After, Keeps, IsValid, IsSized, Keeps-bind, Keeps-skip, with_buffer, with_len,
}
use nuclei_dlink.Server.Keeps.Steps.{kept, length-write_at, write_at-fits}
use nuclei_dlink.Server.Keeps.Memory.{
  Keeps-gdb_server_cmd_m, Keeps-gdb_server_cmd_M, Keeps-gdb_server_cmd_x, Keeps-gdb_server_cmd_X,
  Keeps-gdb_server_cmd_v,
}
use nuclei_dlink.Server.Keeps.Registers.{
  Keeps-gdb_server_cmd_g, Keeps-gdb_server_cmd_G, Keeps-gdb_server_cmd_p, Keeps-gdb_server_cmd_P,
  Keeps-gdb_server_cmd_c, Keeps-gdb_server_cmd_s, Keeps-gdb_server_cmd_z, Keeps-gdb_server_cmd_Z,
  Keeps-halt_and_init, Keeps-gdb_server_disconnected, Keeps-gdb_server_cmd_custom,
}

abbrev within : ℕ
within = buff_size + 1

module _ (W : Type 0) (target : Target W) where
  Keeps-monitor_halt : (b : ℕ) → Keeps b b (monitor_halt target)
  unfolding monitor_halt
  Keeps-monitor_halt b = search (kept, Keeps-halt_and_init)

  -- The number of the bytes is set, and then they are stored with a zero behind them.
  named :
      {B : Type 0} (b n : ℕ) (hex : List ℕ) (f : Unit {0} → Action (State W) B)
      → ((u : Unit {0}) → Keeps within within (f u))
      → Keeps b within (
          modify (λ s. record s { mem_len = n })
          >> (given (hex_to_bin hex n) >>= λ bytes. store (bytes ++ 0 ∷ []) >>= f))
  unfolding Keeps After store
  named b n hex f h s v = elim (Option-cases (hex_to_bin hex n)) [
    | inl e ↦ rw (◌>>=◌, e) tt
    | inr (bytes, e) ↦ elim (Option-cases (write_at 0 (bytes ++ 0 ∷ []) s.mem_buffer)) [
      | inl e' ↦ rw (◌>>=◌, e, e') tt
      | inr (new, e') ↦
          let counted : n ≤ buff_size = omega (
            arith,
            length-hex_to_bin hex n bytes e,
            length-append bytes (0 ∷ []),
            write_at-fits (bytes ++ 0 ∷ []) s.mem_buffer new e',
            v.buffer,
          ) in
          rw (◌>>=◌, e, e')
            (h tt _ (
              with_len
                (with_buffer v (length-write_at 0 (bytes ++ 0 ∷ []) s.mem_buffer new e' ∙ v.buffer))
                (omega (arith, counted))))
    ]
  ]

  Keeps-gdb_server_cmd_q_rcmd :
      (b : ℕ) (cmd : Packet) → Keeps b within (gdb_server_cmd_q_rcmd target cmd)
  unfolding gdb_server_cmd_q_rcmd
  Keeps-gdb_server_cmd_q_rcmd b cmd = search (named, kept, Keeps-monitor_halt) depth 12

  Keeps-gdb_server_cmd_q : (cmd : Packet) → Keeps within within (gdb_server_cmd_q target cmd)
  unfolding gdb_server_cmd_q
  Keeps-gdb_server_cmd_q cmd = search (kept, Keeps-gdb_server_cmd_q_rcmd)

  Keeps-gdb_server_cmd_Q : (b : ℕ) (cmd : Packet) → Keeps b b (gdb_server_cmd_Q target cmd)
  unfolding gdb_server_cmd_Q Keeps After
  Keeps-gdb_server_cmd_Q b cmd = search kept

  Keeps-gdb_server_cmd_k : (b : ℕ) → Keeps b b (gdb_server_cmd_k target)
  unfolding gdb_server_cmd_k
  Keeps-gdb_server_cmd_k b = search (kept, Keeps-gdb_server_disconnected)

  Keeps-dispatch :
      IsSized target → (c : ℕ) (cmd : Packet) → Keeps within within (dispatch target c cmd)
  unfolding dispatch
  Keeps-dispatch sized c cmd =
      let below : within ≤ 2 ^ 32 = omega arith in
      search
        (
          kept, Keeps-gdb_server_cmd_q, Keeps-gdb_server_cmd_Q, Keeps-gdb_server_cmd_g,
          Keeps-gdb_server_cmd_G, Keeps-gdb_server_cmd_k, Keeps-gdb_server_cmd_c,
          Keeps-gdb_server_cmd_m, Keeps-gdb_server_cmd_M, Keeps-gdb_server_cmd_x,
          Keeps-gdb_server_cmd_X, Keeps-gdb_server_cmd_p, Keeps-gdb_server_cmd_P,
          Keeps-gdb_server_cmd_s, Keeps-gdb_server_cmd_z, Keeps-gdb_server_cmd_Z,
          Keeps-gdb_server_cmd_v, Keeps-gdb_server_cmd_custom, below,
        )
        depth 24

  Keeps-interrupt : (b : ℕ) → Keeps b b (interrupt target)
  unfolding interrupt gdb_server_cmd_ctrl_c
  Keeps-interrupt b = search kept

  Keeps-while_running :
      (b : ℕ) (received : Option Packet) → Keeps b b (while_running target received)
  unfolding while_running
  Keeps-while_running b none = Keeps-skip W b
  Keeps-while_running b (some cmd) = search (kept, Keeps-interrupt)

  Keeps-restore_registers : (b : ℕ) → Keeps b b (restore_registers target)
  unfolding restore_registers Keeps After
  Keeps-restore_registers b = search kept

  Keeps-report_stop : (b : ℕ) (text : List ℕ) → Keeps b b (report_stop target text)
  unfolding report_stop
  Keeps-report_stop b text = search (kept, Keeps-restore_registers) depth 12

  Keeps-report : (b : ℕ) (o : Option (List ℕ)) → Keeps b b (report target o)
  unfolding report
  Keeps-report b none = Keeps-skip W b
  Keeps-report b (some text) = Keeps-report_stop b text

  Keeps-check_halt : (b : ℕ) → Keeps b b (check_halt target)
  unfolding check_halt Keeps After
  Keeps-check_halt b = search (kept, Keeps-report) depth 12

  Keeps-poll_running : (b : ℕ) (received : Option Packet) → Keeps b b (poll_running target received)
  unfolding poll_running
  Keeps-poll_running b received = search (kept, Keeps-while_running, Keeps-check_halt) depth 12

  Keeps-poll_halted :
      IsSized target
      → (received : Option Packet) → Keeps within within (poll_halted target received)
  unfolding poll_halted
  Keeps-poll_halted sized none = Keeps-skip W within
  Keeps-poll_halted sized (some cmd) = Keeps-dispatch sized _ cmd

  Keeps-poll :
      IsSized target → (received : Option Packet) → Keeps within within (poll target received)
  unfolding poll
  Keeps-poll sized received = search (kept, Keeps-poll_running, Keeps-poll_halted) depth 12

  Keeps-rounds :
      IsSized target
      → (packets : List (Option Packet)) → Keeps within within (rounds target packets)
  unfolding rounds
  Keeps-rounds sized [] = Keeps-skip W within
  Keeps-rounds sized (received ∷ packets) =
      Keeps-bind W within within within _ _ (Keeps-poll sized received)
        (λ u. Keeps-rounds sized packets)

  Keeps-gdb_server_init : (b : ℕ) → Keeps {W = W} b b gdb_server_init
  unfolding gdb_server_init gdb_server_target_run Keeps After
  Keeps-gdb_server_init b s v = v

  -- From power-on, after any number of rounds that write past no buffer, on a target that fills its buffers of
  -- registers as far as they go: the server's buffers have the sizes of their declarations, a length
  -- that is left in the state is one of `mem_buffer` at most, every address of memory and of a
  -- breakpoint is one of 32 bits, and each response in the queue fits in the buffer it was built in.
  pub gdb_server_v_task-IsValid :
      (w : W) (packets : List (Option Packet)) (s : State W)
      → IsSized target
      → gdb_server_v_task target packets (power_on w) ≡ some (tt, s)
      → IsValid within s
  unfolding gdb_server_v_task Keeps After
  gdb_server_v_task-IsValid w packets s sized e = subst (After within) e (
      Keeps-bind W within within within _ _ (Keeps-gdb_server_init within)
        (λ u. Keeps-rounds sized packets) (power_on w) start)
    where
      start : IsValid within (power_on w)
      start = record {
        buffer = refl;
        registers = refl;
        tmp = refl;
        addr = omega arith;
        len = omega arith;
        point = omega arith;
        built = omega arith;
        queued = tt;
      }
