-- ===== src/Device/Sized.antt =====
-- The target access of riscv-target.c keeps to what gdb-server.c relies on for its buffers.
use nuclei_dlink.Base.{ℕ, ◌+◌, ◌≡◌, refl, some, Option, List, length}
use nuclei_dlink.Server.{Packet, Target, State, buff_size}
use nuclei_dlink.Server.Task.{power_on, gdb_server_v_task}
use nuclei_dlink.Server.Keeps.{IsValid, IsSized}
use nuclei_dlink.Server.Keeps.Rounds.{gdb_server_v_task-IsValid}
use nuclei_dlink.Target.Memory.{Dmi, Dm}
use nuclei_dlink.Target.Register.Names.{Hart}
use nuclei_dlink.Target.Register.Access.{rv_target_read_register}
use nuclei_dlink.Target.Register.Lengths.{length-result, Sized-rv_target_read_register}
use nuclei_dlink.Target.Control.{rv_target_read_core_registers}
use nuclei_dlink.Target.Control.Lengths.{Sized-rv_target_read_core_registers}
use nuclei_dlink.Device.{over_module}

module _ {D : Type 0} (dmi : Dmi D) (hart : Hart) (fuel ptr : ℕ) (rest : Target (Dm D)) where
  over_module-IsSized : IsSized (over_module dmi hart fuel ptr rest)
  unfolding over_module
  over_module-IsSized = record {
    core = λ old new w w' e.
        length-result (Dm D) (length old) (rv_target_read_core_registers dmi fuel hart old) w w' new
          (Sized-rv_target_read_core_registers dmi fuel hart (length old) old refl) e;
    single = λ old new regno w w' e.
        length-result (Dm D) (length old) (rv_target_read_register dmi fuel hart old regno) w w' new
          (Sized-rv_target_read_register dmi fuel hart regno (length old) old refl) e;
  }

  -- The server over the target access of riscv-target.c, from power-on and after any number of rounds
  -- that write past none of its buffers, on any debug module and hart: the server's buffers have the sizes of their
  -- declarations, a length that is left in the state is one of `mem_buffer` at most, every address of
  -- memory and of a breakpoint is one of 32 bits, and each response in the queue fits in the buffer it
  -- was built in.
  device_IsValid :
      (w : Dm D) (packets : List (Option Packet)) (s : State (Dm D))
      → gdb_server_v_task (over_module dmi hart fuel ptr rest) packets (power_on w) ≡ some (tt, s)
      → IsValid (buff_size + 1) s
  device_IsValid w packets s e =
      gdb_server_v_task-IsValid (Dm D) (over_module dmi hart fuel ptr rest) w packets s
        over_module-IsSized e
