-- ===== src/Server/Poll/Quiet/Parts.antt =====
-- The parts of the handlers of gdb-server.c that are silent, and those that send one response.
use nuclei_dlink.Base.{
  ℕ, zero, suc, ◌+◌, ◌%◌, ◌^◌, ◌≤◌, ◌≡◌, refl, Bool, true, false, ◌&&◌, Option, none, some, List,
  [], ◌∷◌, ◌++◌, arith, length, get_or, ◌==◌, if◌then◌else◌,
}
use nuclei_dlink.Base.Action.{Action, modify, ◌>>=◌}
use nuclei_dlink.Server.{Packet, State, gdb_server_target_run, gdb_server_reply_err}
use nuclei_dlink.Server.Sends.{
  Sends, Sends-modify, Sends-gets, Sends-skip, Sends-given, Sends-on_target, Sends-bind, Sends-if,
  Sends-more, Sends-send, Sends-respond, Sends-ok,
}
use nuclei_dlink.Server.Memory.{store, scan_range, scan_both, clamp_len}
use nuclei_dlink.Server.Registers.{send_registers, scan_number_of, scan_breakpoint}

module _ (W : Type 0) where
  -- Sequences of silent steps, with one that sends at the end or at the beginning.
  pub quietly :
      {A B : Type 0} (m : Action (State W) A) (f : A → Action (State W) B)
      → Sends 0 m
      → ((a : A) → Sends 0 (f a))
      → Sends 0 (m >>= f)
  quietly m f h g = Sends-bind W 0 0 m f h g

  pub before :
      {A B : Type 0} (m : Action (State W) A) (f : A → Action (State W) B)
      → Sends 0 m
      → ((a : A) → Sends 1 (f a))
      → Sends 1 (m >>= f)
  before m f h g = Sends-bind W 0 1 m f h g

  pub behind :
      {A B : Type 0} (m : Action (State W) A) (f : A → Action (State W) B)
      → Sends 1 m
      → ((a : A) → Sends 0 (f a))
      → Sends 1 (m >>= f)
  behind m f h g = Sends-bind W 1 0 m f h g

  pub change :
      (f : State W → State W) → ((s : State W) → (f s).responses ≡ s.responses) → Sends 0 (modify f)
  change f h = Sends-modify W f h

  pub Sends-gdb_server_target_run : (b : Bool) → Sends {W = W} 0 (gdb_server_target_run b)
  unfolding gdb_server_target_run
  Sends-gdb_server_target_run b = Sends-modify W _ (λ s. refl)

pub ruleset quiet = (
  quietly, before, behind, change, Sends-gets, Sends-skip, Sends-given, Sends-on_target, Sends-if,
  Sends-send, Sends-respond, Sends-ok, Sends-gdb_server_target_run, refl,
)

module _ (W : Type 0) where
  pub Sends-store : (bytes : List ℕ) → Sends {W = W} 0 (store bytes)
  unfolding store
  Sends-store bytes = search quiet

  pub Sends-scan_range : (cmd : Packet) → Sends {W = W} 0 (scan_range cmd)
  unfolding scan_range
  Sends-scan_range cmd = search quiet

  pub Sends-scan_both : (cmd : Packet) → Sends {W = W} 0 (scan_both cmd)
  unfolding scan_both
  Sends-scan_both cmd = search quiet

  pub Sends-clamp_len : Sends {W = W} 0 (clamp_len)
  unfolding clamp_len
  Sends-clamp_len = search quiet

  pub Sends-gdb_server_reply_err : (err : ℕ) → Sends {W = W} 1 (gdb_server_reply_err err)
  unfolding gdb_server_reply_err
  Sends-gdb_server_reply_err err = search quiet

  pub Sends-send_registers : (mxl n : ℕ) (ws : List ℕ) → Sends {W = W} 1 (send_registers mxl n ws)
  unfolding send_registers
  Sends-send_registers mxl n ws = search quiet

  pub Sends-scan_number_of : (cmd : Packet) → Sends {W = W} 0 (scan_number_of cmd)
  unfolding scan_number_of
  Sends-scan_number_of cmd = search quiet

  pub Sends-scan_breakpoint : (cmd : Packet) → Sends {W = W} 0 (scan_breakpoint cmd)
  unfolding scan_breakpoint
  Sends-scan_breakpoint cmd = search quiet

pub ruleset parts = (
  quiet, Sends-store, Sends-scan_range, Sends-scan_both, Sends-clamp_len,
  Sends-gdb_server_reply_err, Sends-send_registers, Sends-scan_number_of, Sends-scan_breakpoint,
)
