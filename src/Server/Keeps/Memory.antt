-- ===== src/Server/Keeps/Memory.antt =====
-- The command handlers of gdb-server.c keep the state valid.
use nuclei_dlink.Base.{
  ℕ, ◌+◌, ◌^◌, ◌≤◌, ◌∙◌, List, arith, length, ◌==◌, Bool-cases, write_at, Option-cases, inl, inr,
}
use nuclei_dlink.Base.Action.{Action, modify, ◌>>=◌, ◌>>◌}
use nuclei_dlink.Server.{Packet, Target, State, buff_size}
use nuclei_dlink.Server.Memory.{
  store, fetch_memory, put_memory, write_binary, flash_init_at, flash_erase_at, flash_write_at,
  flash_command, gdb_server_cmd_v, gdb_server_cmd_m, gdb_server_cmd_M, gdb_server_cmd_x,
  gdb_server_cmd_X,
}
use nuclei_dlink.Server.Keeps.{After, Keeps, Keeps-bind, with_buffer, with_len, Keeps-given_bind}
use nuclei_dlink.Server.Keeps.Steps.{
  kept, have, length-write_at, write_at-fits, Keeps-ok, Keeps-clamp_len, Keeps-scan_range,
  Keeps-scan_both,
}

module _ (W : Type 0) (target : Target W) where
  Keeps-fetch_memory : (b : ℕ) → Keeps b b (fetch_memory target)
  unfolding fetch_memory
  Keeps-fetch_memory b = search kept

  Keeps-put_memory : (b : ℕ) → Keeps b b (put_memory target)
  unfolding put_memory
  Keeps-put_memory b = search kept

  pub Keeps-gdb_server_cmd_m :
      (b : ℕ) (cmd : Packet) → b ≤ 2 ^ 32 → Keeps b (buff_size + 1) (gdb_server_cmd_m target cmd)
  unfolding gdb_server_cmd_m Keeps
  Keeps-gdb_server_cmd_m b cmd h =
      Keeps-bind W b (2 ^ 32) (buff_size + 1) _ _ (Keeps-scan_range W b cmd h) (λ u.
        Keeps-bind W (2 ^ 32) (buff_size + 1) (buff_size + 1) _ _ (Keeps-clamp_len W (2 ^ 32))
          (λ u. search (kept, Keeps-fetch_memory)))

  pub Keeps-gdb_server_cmd_M :
      (b : ℕ) (cmd : Packet) → b ≤ 2 ^ 32 → Keeps b (buff_size + 1) (gdb_server_cmd_M target cmd)
  unfolding gdb_server_cmd_M Keeps
  Keeps-gdb_server_cmd_M b cmd h =
      Keeps-bind W b (2 ^ 32) (buff_size + 1) _ _ (Keeps-scan_both W b cmd h) (λ u.
        Keeps-bind W (2 ^ 32) (2 ^ 32) (buff_size + 1) _ _ (have W (2 ^ 32) _) (λ p.
          Keeps-bind W (2 ^ 32) (buff_size + 1) (buff_size + 1) _ _ (Keeps-clamp_len W (2 ^ 32))
            (λ u. search (kept, Keeps-put_memory) depth 12)))

  pub Keeps-gdb_server_cmd_x :
      (b : ℕ) (cmd : Packet) → b ≤ 2 ^ 32 → Keeps b (buff_size + 1) (gdb_server_cmd_x target cmd)
  unfolding gdb_server_cmd_x Keeps
  Keeps-gdb_server_cmd_x b cmd h =
      Keeps-bind W b (2 ^ 32) (buff_size + 1) _ _ (Keeps-scan_range W b cmd h) (λ u.
        Keeps-bind W (2 ^ 32) (buff_size + 1) (buff_size + 1) _ _ (Keeps-clamp_len W (2 ^ 32))
          (λ u. search (kept, Keeps-fetch_memory)))

  Keeps-write_binary : (cmd : Packet) → Keeps (2 ^ 32) (buff_size + 1) (write_binary target cmd)
  unfolding write_binary Keeps
  Keeps-write_binary cmd =
      Keeps-bind W (2 ^ 32) (2 ^ 32) (buff_size + 1) _ _ (have W (2 ^ 32) _) (λ p.
        Keeps-bind W (2 ^ 32) (buff_size + 1) (buff_size + 1) _ _ (Keeps-clamp_len W (2 ^ 32))
          (λ u. search (kept, Keeps-put_memory)))

  pub Keeps-gdb_server_cmd_X :
      (b : ℕ) (cmd : Packet) → b ≤ 2 ^ 32 → Keeps b (buff_size + 1) (gdb_server_cmd_X target cmd)
  unfolding gdb_server_cmd_X Keeps
  Keeps-gdb_server_cmd_X b cmd h =
      Keeps-bind W b (2 ^ 32) (buff_size + 1) _ _ (Keeps-scan_both W b cmd h) (λ u s v.
        elim (Bool-cases (s.mem_len == 0)) [
          | inl e ↦ rw (e) (Keeps-ok W (buff_size + 1) s (with_len v (ground (arith, e))))
          | inr e ↦ rw (e) (Keeps-write_binary cmd s v)
        ])

  Keeps-flash_init_at : (b : ℕ) (vs : List ℕ) → Keeps b b (flash_init_at target vs)
  unfolding flash_init_at Keeps After
  Keeps-flash_init_at b vs = search kept

  Keeps-flash_erase_at : (b : ℕ) (vs : List ℕ) → Keeps b b (flash_erase_at target vs)
  unfolding flash_erase_at
  Keeps-flash_erase_at b vs = search kept

  -- Bytes are counted, and then stored: they fit in the buffer.
  counted :
      {B : Type 0} (b : ℕ) (bytes : List ℕ) (f : Unit {0} → Action (State W) B)
      → ((u : Unit {0}) → Keeps (buff_size + 1) (buff_size + 1) (f u))
      → Keeps b
          (buff_size + 1)
          (modify (λ s. record s { mem_len = length bytes }) >> (store bytes >>= f))
  unfolding Keeps After store
  counted b bytes f h s v = elim (Option-cases (write_at 0 bytes s.mem_buffer)) [
    | inl e ↦ rw (◌>>=◌, e) tt
    | inr (new, e) ↦
        rw (◌>>=◌, e)
          (h tt _ (
            with_len (with_buffer v (length-write_at 0 bytes s.mem_buffer new e ∙ v.buffer))
              (omega (arith, write_at-fits bytes s.mem_buffer new e, v.buffer))))
  ]

  Keeps-flash_write_at :
      (b : ℕ) (cmd : Packet) (vs : List ℕ) → Keeps b (buff_size + 1) (flash_write_at target cmd vs)
  unfolding flash_write_at
  Keeps-flash_write_at b cmd vs = search (counted, Keeps-given_bind, kept) depth 12

  Keeps-flash_command :
      (cmd : Packet) → Keeps (buff_size + 1) (buff_size + 1) (flash_command target cmd)
  unfolding flash_command
  Keeps-flash_command cmd =
      search (kept, Keeps-flash_init_at, Keeps-flash_erase_at, Keeps-flash_write_at)

  pub Keeps-gdb_server_cmd_v :
      (cmd : Packet) → Keeps (buff_size + 1) (buff_size + 1) (gdb_server_cmd_v target cmd)
  unfolding gdb_server_cmd_v
  Keeps-gdb_server_cmd_v cmd = search (kept, Keeps-flash_command)
