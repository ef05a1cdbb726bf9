-- ===== src/Wire/Memory.antt =====
-- A read of the target's memory from one end to the other: gdb-packet.c, gdb-server.c and the memory access of
-- riscv-target.c.
use mathlib.Core.List.{flatten}
use nuclei_dlink.Base.{
  ℕ, zero, suc, ◌+◌, ◌*◌, ◌^◌, ◌≤◌, ◌<◌, ◌≡◌, ◌≢◌, refl, ap, Bool, false, some, List, [], ◌∷◌, ◌++◌,
  length, All,
}
use nuclei_dlink.Codec.{bin_to_hex}
use nuclei_dlink.Packet.{Sent, respond, cdc_acm_data_packet_size, gdb_packet_buff_size}
use nuclei_dlink.Packet.Transmit.{configured}
use nuclei_dlink.Packet.Respond.{framed, buffer}
use nuclei_dlink.Server.{Target, State, buff_size}
use nuclei_dlink.Target.Memory.{Dm, mxl_rv32, rv_target_read_memory}
use nuclei_dlink.Target.Memory.Commands.{Module, abstract_commands}
use nuclei_dlink.Target.Memory.Bytes.{byte_memory, bytes_from, rv_target_read_memory-bytes}
use nuclei_dlink.Target.Register.Names.{Hart}
use nuclei_dlink.Device.{over_module}
use nuclei_dlink.Device.Echo.{device}
use nuclei_dlink.Wire.{wire_round}
use nuclei_dlink.Wire.Read.{read_text, wire_read}

length-bytes_from : (n addr : ℕ) (m : ℕ → ℕ) → length (bytes_from n addr m) ≡ n
unfolding bytes_from
length-bytes_from zero addr m = refl
length-bytes_from (suc n) addr m = ap suc (length-bytes_from n (addr + 1) m)

module _ (hart : Hart) (fuel ptr : ℕ) (rest : Target (Dm (Module (ℕ → ℕ)))) where
  -- A command `m` of the debugger, which arrives in any number of parts after any bytes that are neither `$`
  -- nor `#`, is answered with the target's memory: the round of the server that gets it adds one response
  -- and leaves the memory as it was, and what the answering task sends for the response, in packets of 1
  -- to 64 bytes, is the frame of the text of the `n` bytes from `addr` on. The stream fits the command
  -- buffer of 1088 bytes, `n` is 543 at most, the response has two bytes before it and five after it in
  -- its buffer, and the device is configured in enough rounds of the send loop. The target is one of 32
  -- bits that does not run, executes the memory commands without errors and has bytes in its memory,
  -- and the range does not pass the end of the address space.
  pub wire_memory :
      (no_ack : Bool) (status : List Bool) (b0 b1 addr n : ℕ) (buf junk tail room post : List ℕ)
      (pieces : List (List ℕ)) (s : State (Dm (Module (ℕ → ℕ))))
      → hart.mxl ≡ mxl_rv32
      → addr < 2 ^ 32
      → addr + n ≤ 2 ^ 32
      → n ≤ 543
      → ((a : ℕ) → s.target.under.memory a < 2 ^ 8)
      → s.target_running ≡ false
      → s.mem_addr < 2 ^ 32
      → length s.mem_buffer ≡ buff_size
      → length buf ≡ gdb_packet_buff_size + 64
      → flatten pieces ≡ junk ++ (b'$' ∷ (read_text addr n ++ (b'#' ∷ tail)))
      → length (flatten pieces) ≤ gdb_packet_buff_size + 64
      → All (λ x. x ≢ b'$') junk
      → All (λ x. x ≢ b'#') junk
      → length room ≡ 5
      → 2 * n + 6 ≤ cdc_acm_data_packet_size * configured status
      → (s' : State (Dm (Module (ℕ → ℕ)))) × (sent : Sent) × (wire_round
            (device hart fuel ptr rest)
            buf
            pieces
            s
          ≡ some (tt, s'))
        × (s'.responses ≡ s.responses ++ bin_to_hex (bytes_from n addr s.target.under.memory) ∷ [])
        × (s'.target.under.memory ≡ s.target.under.memory)
        × (respond no_ack status
              (buffer b0 b1 (bin_to_hex (bytes_from n addr s.target.under.memory)) room post)
              (record {
                len = length (bin_to_hex (bytes_from n addr s.target.under.memory));
                at = 2;
              })
            ≡ some sent)
        × (sent.left ≡ 0)
        × (flatten sent.packets
            ≡ framed no_ack (bin_to_hex (bytes_from n addr s.target.under.memory)))
        × All (λ p. (1 ≤ length p) × (length p ≤ cdc_acm_data_packet_size)) sent.packets
  unfolding over_module
  wire_memory no_ack status b0 b1 addr n buf junk tail room post pieces s wide low inside short
        bytes halted upper size space stream fits no_dollar no_sharp spare rounds =
      let dmi = abstract_commands byte_memory in
      let found = bytes_from n addr s.target.under.memory in
      let r = rv_target_read_memory dmi hart.mxl ptr addr n s.target in
      let (filled, same) : (r.0 ≡ found) × (r.1.under.memory ≡ s.target.under.memory) =
        let (xs, kept, ok) = rv_target_read_memory-bytes ptr addr n s.target bytes inside in
        rw (wide) (xs, kept) in
      let attached = device hart fuel ptr rest in
      let read : attached.read_memory addr n s.target ≡ some (found, r.1) =
        ap (λ xs. some (xs, r.1)) filled in
      let (s', sent, ran, answers, at, send, left, packets, sizes) =
        wire_read (device hart fuel ptr rest) no_ack status b0 b1 addr n buf junk tail found room
          post pieces s r.1 space stream fits no_dollar no_sharp low short halted upper size read
          (length-bytes_from n addr s.target.under.memory) spare rounds in
      (s', sent, ran, answers, rw (at) same, send, left, packets, sizes)
