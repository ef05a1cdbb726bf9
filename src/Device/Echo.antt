-- ===== src/Device/Echo.antt =====
-- The commands `M` and `m` of gdb-server.c down to the bytes of the target's memory.
use nuclei_dlink.Base.{ℕ, ◌+◌, ◌≤◌, ◌<◌, ◌^◌, ◌≡◌, refl, ap, some, List, [], ◌∷◌, ◌++◌, length}
use nuclei_dlink.Base.Action.{◌>>◌}
use nuclei_dlink.Codec.{bin_to_hex}
use nuclei_dlink.Codec.Hex.{IsBytes}
use nuclei_dlink.Server.{Target, State, buff_size}
use nuclei_dlink.Server.Memory.{gdb_server_cmd_m, gdb_server_cmd_M}
use nuclei_dlink.Server.Memory.Answers.{read_packet, write_packet, memory_echo}
use nuclei_dlink.Target.Memory.{Dm, mxl_rv32, rv_target_read_memory, rv_target_write_memory}
use nuclei_dlink.Target.Memory.Commands.{Module, abstract_commands}
use nuclei_dlink.Target.Memory.Bytes.{byte_memory}
use nuclei_dlink.Target.Memory.Stores.{over, rv_target_read_memory-rv_target_write_memory}
use nuclei_dlink.Target.Register.Names.{Hart}
use nuclei_dlink.Device.{over_module}

module _ (hart : Hart) (fuel ptr : ℕ) (rest : Target (Dm (Module (ℕ → ℕ)))) where
  abbrev pub device : Target (Dm (Module (ℕ → ℕ)))
  device = over_module (abstract_commands byte_memory) hart fuel ptr rest

  -- Bytes that the debugger writes with `M`, 543 at most, lie over the target's memory at the address
  -- of the packet afterwards, with all other bytes as they were, and a command `m` for the same range
  -- is answered with the text in which they were sent, wherever the server's buffer lies. The target is
  -- one of 32 bits that runs the memory commands without errors, its memory holds bytes, and the range
  -- does not pass the end of the address space.
  pub device_echo :
      (addr len len' : ℕ) (bin text text' : List ℕ) (s : State (Dm (Module (ℕ → ℕ))))
      → hart.mxl ≡ mxl_rv32
      → addr < 2 ^ 32
      → addr + length bin ≤ 2 ^ 32
      → IsBytes bin
      → length bin ≤ 543
      → ((a : ℕ) → s.target.under.memory a < 2 ^ 8)
      → s.mem_addr < 2 ^ 32
      → length s.mem_buffer ≡ buff_size
      → (s' : State (Dm (Module (ℕ → ℕ)))) × ((gdb_server_cmd_M device
                (write_packet addr (length bin) (bin_to_hex bin ++ text) len)
              >> gdb_server_cmd_m device (read_packet addr (length bin) text' len'))
            s
          ≡ some (tt, s'))
        × (s'.responses ≡ (s.responses ++ (b'O' ∷ b'K' ∷ []) ∷ []) ++ bin_to_hex bin ∷ [])
        × (s'.target.under.memory ≡ over bin addr s.target.under.memory)
  unfolding over_module
  device_echo addr len len' bin text text' s wide low fits good short bytes upper size =
      let dmi = abstract_commands byte_memory in
      let w = rv_target_write_memory dmi hart.mxl ptr bin addr s.target in
      let r = rv_target_read_memory dmi hart.mxl ptr addr (length bin) w in
      let (back, laid) : (r.0 ≡ bin) × (r.1.under.memory ≡ over bin addr s.target.under.memory) =
        rw (wide) (
          rv_target_read_memory-rv_target_write_memory ptr ptr addr bin s.target good bytes fits) in
      let read : device.read_memory addr (length bin) w ≡ some (bin, r.1) =
        ap (λ xs. some (xs, r.1)) back in
      let (s', ran, sent, at) =
        memory_echo device addr len len' bin text text' s w r.1 low good short upper size refl
          read in
      (s', ran, sent, rw (at) laid)
