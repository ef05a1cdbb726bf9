-- ===== src/Server/Poll/Stops.antt =====
-- What `gdb_server_poll` tells the debugger when the target stops.
use mathlib.Core.Bool.{and-false, and-true}
use mathlib.Core.List.{append-nil}
use nuclei_dlink.Base.{
  Bool, sym, ap, ◌∙◌, get_or, ◌==◌, ◌&&◌, Bool-cases, inl, inr, ℕ, ◌%◌, ◌^◌, ◌≤◌, ◌≡◌, refl, subst,
  true, false, Option, none, some, List, [], ◌∷◌, ◌++◌, arith, length, length-append, leb,
}
use nuclei_dlink.Base.Action.{◌>>=◌}
use nuclei_dlink.Server.{
  Target, State, HaltInfo, HaltReason, running, hardware_breakpoint, software_breakpoint,
  write_watchpoint, read_watchpoint, access_watchpoint, other, Packet, respond, rsp_size,
  gdb_server_target_run, gdb_server_send_response,
}
use nuclei_dlink.Server.Scan.{print_hex}
use nuclei_dlink.Server.Scan.Marks.{length-print_hex}
use nuclei_dlink.Server.Poll.{
  watch, rwatch, awatch, reason_text, stop_text, while_running, restore_registers, report_stop,
  report, check_halt, poll_running, poll,
}

abbrev Fits : Option (List ℕ) → Type 0
Fits none = Unit {0}
Fits (some text) = length text ≤ 30

watchpoint_text :
    (head : List ℕ) (addr : ℕ)
    → length head ≤ 20
    → length (head ++ (print_hex addr ++ b';' ∷ [])) ≤ 30
watchpoint_text head addr h = omega (
  arith,
  length-append head (print_hex addr ++ b';' ∷ []),
  length-append (print_hex addr) (b';' ∷ []),
  length-print_hex addr,
)

reason_text-Fits : (reason : HaltReason) (addr : ℕ) → Fits (reason_text reason addr)
unfolding reason_text
reason_text-Fits running addr = tt
reason_text-Fits other addr = omega arith
reason_text-Fits write_watchpoint addr = watchpoint_text watch (addr % 2 ^ 32) (omega arith)
reason_text-Fits read_watchpoint addr = watchpoint_text rwatch (addr % 2 ^ 32) (omega arith)
reason_text-Fits access_watchpoint addr = watchpoint_text awatch (addr % 2 ^ 32) (omega arith)
reason_text-Fits hardware_breakpoint addr = omega arith
reason_text-Fits software_breakpoint addr = omega arith

stop_text_fits :
    (info : HaltInfo) (text : List ℕ)
    → stop_text info ≡ some text
    → leb (length text) rsp_size ≡ true
stop_text_fits info text e =
    let short : length text ≤ 30 = subst Fits e (reason_text-Fits info.reason info.addr) in
    ground (arith, short)

-- The stop reply of the remote protocol: signal 5, and behind it, for a reason that the protocol knows, its
-- name and a value.
abbrev signal : List ℕ
signal = b'T' ∷ b'0' ∷ b'5' ∷ []

abbrev signal_with : List ℕ → List ℕ → List ℕ
signal_with name value = signal ++ (name ++ (b':' ∷ (value ++ (b';' ∷ []))))

abbrev address : ℕ → List ℕ
address addr = print_hex (addr % 2 ^ 32)

-- What the debugger is to be told, if anything.
unfoldable pub stop_replies : HaltReason → ℕ → List (List ℕ)
stop_replies running addr = []
stop_replies other addr = signal ∷ []
stop_replies write_watchpoint addr =
    signal_with (b'w' ∷ b'a' ∷ b't' ∷ b'c' ∷ b'h' ∷ []) (address addr) ∷ []
stop_replies read_watchpoint addr =
    signal_with (b'r' ∷ b'w' ∷ b'a' ∷ b't' ∷ b'c' ∷ b'h' ∷ []) (address addr) ∷ []
stop_replies access_watchpoint addr =
    signal_with (b'a' ∷ b'w' ∷ b'a' ∷ b't' ∷ b'c' ∷ b'h' ∷ []) (address addr) ∷ []
stop_replies hardware_breakpoint addr =
    signal_with (b'h' ∷ b'w' ∷ b'b' ∷ b'r' ∷ b'e' ∷ b'a' ∷ b'k' ∷ []) [] ∷ []
stop_replies software_breakpoint addr =
    signal_with (b's' ∷ b'w' ∷ b'b' ∷ b'r' ∷ b'e' ∷ b'a' ∷ b'k' ∷ []) [] ∷ []

unfoldable pub is_running : HaltReason → Bool
is_running running = true
is_running other = false
is_running write_watchpoint = false
is_running read_watchpoint = false
is_running access_watchpoint = false
is_running hardware_breakpoint = false
is_running software_breakpoint = false

-- The packet of ctrl-C.
abbrev pub is_interrupt : Option Packet → Bool
is_interrupt none = false
is_interrupt (some cmd) = (get_or cmd.data' 0 0 == 3) && (cmd.len == 1)

module _ {W : Type 0} (target : Target W) where
  poll-ignores :
      (received : Option Packet) (s : State W)
      → s.gdb_connected ≡ true
      → s.target_running ≡ true
      → is_interrupt received ≡ false
      → poll target received s ≡ poll target none s
  unfolding poll poll_running while_running
  poll-ignores none s on run plain = refl
  poll-ignores (some cmd) s on run plain = rw (◌>>=◌, on, run, plain) refl

  -- What becomes of the registers: an algorithm that has stopped gets them back.
  unfoldable pub settled : Bool → Bool → List ℕ → W → Option (Unit {0} × W)
  settled true restore regs w = some (tt, w)
  settled false true regs w = target.write_core_registers regs w
  settled false false regs w = some (tt, w)

  -- A round that has taken note of the reason.
  abbrev IsNoted : Option Packet → HaltInfo → Bool → List (List ℕ) → State W → W → Type 0
  IsNoted received info on replies s w' =
      (s' : State W) × (poll target received s ≡ some (tt, s'))
      × (s'.responses ≡ s.responses ++ replies)
      × (s'.target_running ≡ on)
      × (s'.restore_reg_flag ≡ s.restore_reg_flag && on)
      × (s'.halt_info ≡ info)
      × (s'.target ≡ w')

  module _ (received : Option Packet) (info : HaltInfo) (s : State W) (w w' : W)
      (on : s.gdb_connected ≡ true) (run : s.target_running ≡ true)
      (plain : is_interrupt received ≡ false)
      (check : target.halt_check s.halt_info s.target ≡ some (info, w)) where
    still_running :
        stop_text info ≡ none
        → settled true s.restore_reg_flag s.regs w ≡ some (tt, w')
        → IsNoted received info true [] s w'
    unfolding poll poll_running while_running check_halt report settled
    still_running silent e = (
      record s { halt_info = info; target = w },
      poll-ignores received s on run plain ∙ rw (◌>>=◌, on, run, check, silent) refl,
      sym (append-nil s.responses),
      run,
      sym (and-true s.restore_reg_flag),
      refl,
      cc,
    )

    abbrev stopped : List ℕ → State W
    stopped text = record s {
      halt_info = info;
      target = w';
      target_running = false;
      restore_reg_flag = false;
      rsp = text;
      responses = s.responses ++ text ∷ [];
    }

    has_stopped :
        (text : List ℕ)
        → stop_text info ≡ some text
        → settled false s.restore_reg_flag s.regs w ≡ some (tt, w')
        → IsNoted received info false (text ∷ []) s w'
    unfolding poll poll_running while_running check_halt report report_stop restore_registers
        gdb_server_target_run respond gdb_server_send_response settled
    has_stopped text told e = (
      stopped text,
      poll-ignores received s on run plain ∙ elim (Bool-cases s.restore_reg_flag) [
        | inl keep ↦
            let back : target.write_core_registers s.regs w ≡ some (tt, w') =
              ap (λ b. settled false b s.regs w) (sym keep) ∙ e in
            rw (◌>>=◌, on, run, check, told, keep, back, stop_text_fits info text told) refl
        | inr keep ↦
            let back : some (tt, w) ≡ some (tt, w') =
              ap (λ b. settled false b s.regs w) (sym keep) ∙ e in
            let same : w ≡ w' = cc in
            rw (◌>>=◌, on, run, check, told, keep, stop_text_fits info text told, same) refl
      ],
      refl,
      refl,
      sym (and-false s.restore_reg_flag),
      refl,
      refl,
    )

  -- The debugger is connected, the target runs, and the round brings no packet, or one that is not ctrl-C. The
  -- state of the target is found out. While it runs on, nothing is said to the debugger. When it has
  -- stopped, it counts as not running, exactly one response is added, and the registers that were saved
  -- for an algorithm are written back, if there are any. The response is the stop reply of the remote
  -- protocol: signal 5, with `watch`, `rwatch` or `awatch` and the address of a watchpoint, or with
  -- `hwbreak` or `swbreak`. The target answers when its state is found out and its registers are written.
  pub stop_reported :
      (received : Option Packet) (reason : HaltReason) (addr : ℕ) (s : State W) (w w' : W)
      → s.gdb_connected ≡ true
      → s.target_running ≡ true
      → is_interrupt received ≡ false
      → target.halt_check s.halt_info s.target ≡ some (record { reason = reason; addr = addr }, w)
      → settled (is_running reason) s.restore_reg_flag s.regs w ≡ some (tt, w')
      → (s' : State W) × (poll target received s ≡ some (tt, s'))
        × (s'.responses ≡ s.responses ++ stop_replies reason addr)
        × (s'.target_running ≡ is_running reason)
        × (s'.restore_reg_flag ≡ s.restore_reg_flag && is_running reason)
        × (s'.halt_info ≡ record { reason = reason; addr = addr })
        × (s'.target ≡ w')
  unfolding reason_text stop_replies is_running
  stop_reported received running addr s w w' on run plain check e =
      still_running received _ s w w' on run plain check refl e
  stop_reported received other addr s w w' on run plain check e =
      has_stopped received _ s w w' on run plain check _ refl e
  stop_reported received write_watchpoint addr s w w' on run plain check e =
      has_stopped received _ s w w' on run plain check _ refl e
  stop_reported received read_watchpoint addr s w w' on run plain check e =
      has_stopped received _ s w w' on run plain check _ refl e
  stop_reported received access_watchpoint addr s w w' on run plain check e =
      has_stopped received _ s w w' on run plain check _ refl e
  stop_reported received hardware_breakpoint addr s w w' on run plain check e =
      has_stopped received _ s w w' on run plain check _ refl e
  stop_reported received software_breakpoint addr s w w' on run plain check e =
      has_stopped received _ s w w' on run plain check _ refl e
