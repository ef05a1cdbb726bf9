-- ===== src/Device.antt =====
-- The GDB server over the target access: what gdb-server.c calls of riscv-target.h is the functions of
-- riscv-target.c, over a debug module.
pub mod Echo
pub mod Sized
pub mod Tests
use nuclei_dlink.Base.{ℕ, some, List}
use nuclei_dlink.Base.Action.{run, modify}
use nuclei_dlink.Server.{Target}
use nuclei_dlink.Target.Memory.{Dmi, Dm, rv_target_read_memory, rv_target_write_memory}
use nuclei_dlink.Target.Register.Names.{Hart}
use nuclei_dlink.Target.Register.Access.{rv_target_read_register, rv_target_write_register}
use nuclei_dlink.Target.Control.{
  rv_target_reset, rv_target_halt, rv_target_resume, rv_target_step, rv_target_fini_pre,
  rv_target_read_core_registers, rv_target_write_core_registers,
}

-- Memory, registers and run control are those of riscv-target.c, with `mem_buffer` at the address
-- `ptr`; the rest of the target is given.
unfoldable pub over_module : {D : Type 0} → Dmi D → Hart → ℕ → ℕ → Target (Dm D) → Target (Dm D)
over_module dmi hart fuel ptr rest = record rest {
  mxl = λ s. hart.mxl;
  vlenb = λ s. hart.vlenb;
  read_memory = λ addr len. run (rv_target_read_memory dmi hart.mxl ptr addr len);
  write_memory = λ mem addr. modify (rv_target_write_memory dmi hart.mxl ptr mem addr);
  read_register = rv_target_read_register dmi fuel hart;
  write_register = rv_target_write_register dmi fuel hart;
  read_core_registers = rv_target_read_core_registers dmi fuel hart;
  write_core_registers = rv_target_write_core_registers dmi fuel hart;
  reset = rv_target_reset dmi fuel hart;
  halt = rv_target_halt dmi fuel hart;
  resume = rv_target_resume dmi fuel hart;
  step = rv_target_step dmi fuel hart;
  fini_pre = rv_target_fini_pre dmi fuel hart;
}
