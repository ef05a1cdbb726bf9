-- ===== src/Server/Memory.antt =====
-- The memory and flash commands of gdb-server.c: `m`, `M`, `x`, `X` and `v`.
pub mod Answers
pub mod Clamped
use nuclei_dlink.Base.{
  ℕ, zero, suc, ◌+◌, ◌-◌, ◌*◌, ◌/◌, ◌%◌, ◌^◌, min, Bool, true, false, Option, none, some, List, [],
  ◌∷◌, ◌++◌, length, take, drop, get_elem?, get_or, ltb, ◌==◌, if◌then◌else◌, write_at,
}
use nuclei_dlink.Base.Action.{Action, pure, gets, modify, given, ◌>>=◌, ◌>>◌, skip}
use nuclei_dlink.Codec.{bin_to_hex, hex_to_bin, bin_encode, bin_decode}
use nuclei_dlink.Server.{
  Packet, Target, State, buff_size, set_low, on_target, respond, gdb_server_reply_ok,
}
use nuclei_dlink.Server.Scan.{scan_hex, scan_fields, after_char, starts_with}

-- The first value that a scan stores, or what the variable held.
unfoldable pub scan_one : List ℕ → ℕ → ℕ
scan_one text old = elim (scan_hex text) [ none ↦ old | some r ↦ r.0 ]

-- The rest of the packet behind the text `p`, which lies in it.
pub payload : Packet → List ℕ → List ℕ
payload cmd p =
    let offset = length cmd.data' - length p in take ((cmd.len + 2 ^ 32 - offset) % 2 ^ 32) p

module _ {W : Type 0} where
  -- `mem_len` is cut down to the size of the buffer.
  unfoldable pub clamp_len : Action (State W) (Unit {0})
  clamp_len = modify (λ s. record s { mem_len = min s.mem_len buff_size })

  -- Bytes go into `mem_buffer`.
  unfoldable pub store : List ℕ → Action (State W) (Unit {0})
  store bytes = do
    old ← gets (λ s. s.mem_buffer)
    new ← given (write_at 0 bytes old)
    modify (λ s. record s { mem_buffer = new })

  -- The first `mem_len` bytes of `mem_buffer`.
  pub loaded : State W → List ℕ
  loaded s = take s.mem_len s.mem_buffer

  -- The address and the length, from two scans with the comma found before them.
  unfoldable pub scan_range : Packet → Action (State W) (Unit {0})
  scan_range cmd = do
    p ← given (after_char b',' (drop 1 cmd.data'))
    modify (λ s. record s {
      mem_addr = set_low (scan_one (drop 1 cmd.data') (s.mem_addr % 2 ^ 32)) s.mem_addr;
    })
    modify (λ s. record s { mem_len = scan_one p s.mem_len })

  -- The same from one scan with two conversions.
  unfoldable pub scan_both : Packet → Action (State W) (Unit {0})
  scan_both cmd =
      let vs = scan_fields 2 (drop 1 cmd.data') in
      modify (λ s. record s {
        mem_addr = set_low (get_or vs 0 (s.mem_addr % 2 ^ 32)) s.mem_addr;
        mem_len = get_or vs 1 s.mem_len;
      })

module _ {W : Type 0} (target : Target W) where
  unfoldable pub fetch_memory : Action (State W) (Unit {0})
  fetch_memory = do
    addr ← gets (λ s. s.mem_addr)
    len ← gets (λ s. s.mem_len)
    bytes ← on_target (target.read_memory addr len)
    store bytes

  unfoldable pub put_memory : Action (State W) (Unit {0})
  put_memory = do
    addr ← gets (λ s. s.mem_addr)
    bytes ← gets loaded
    on_target (target.write_memory bytes addr)

  unfoldable pub gdb_server_cmd_m : Packet → Action (State W) (Unit {0})
  gdb_server_cmd_m cmd = do
    scan_range cmd
    clamp_len
    fetch_memory
    bytes ← gets loaded
    respond (bin_to_hex bytes)

  unfoldable pub gdb_server_cmd_M : Packet → Action (State W) (Unit {0})
  gdb_server_cmd_M cmd = do
    scan_both cmd
    p ← given (after_char b':' (drop 1 cmd.data'))
    clamp_len
    len ← gets (λ s. s.mem_len)
    bytes ← given (hex_to_bin p len)
    store bytes
    put_memory
    gdb_server_reply_ok

  unfoldable pub gdb_server_cmd_x : Packet → Action (State W) (Unit {0})
  gdb_server_cmd_x cmd = do
    scan_range cmd
    clamp_len
    fetch_memory
    bytes ← gets loaded
    respond (bin_encode bytes)

  -- `X` with a length that is not zero.
  unfoldable pub write_binary : Packet → Action (State W) (Unit {0})
  write_binary cmd = do
    p ← given (after_char b':' (drop 1 cmd.data'))
    clamp_len
    store (bin_decode (payload cmd p))
    put_memory
    gdb_server_reply_ok

  unfoldable pub gdb_server_cmd_X : Packet → Action (State W) (Unit {0})
  gdb_server_cmd_X cmd = do
    scan_both cmd
    len ← gets (λ s. s.mem_len)
    if len == 0 then gdb_server_reply_ok else write_binary cmd

  -- A parameter that is not scanned is a variable without a value.
  unfoldable pub flash_init_at : List ℕ → Action (State W) (Unit {0})
  flash_init_at vs = do
    modify (λ s. record s {
      spi_base_addr = get_or vs 0 s.spi_base_addr;
      flash_block_size = get_or vs 1 s.flash_block_size;
    })
    base ← gets (λ s. s.spi_base_addr)
    on_target (target.flash_init base)

  unfoldable pub flash_erase_at : List ℕ → Action (State W) (Unit {0})
  flash_erase_at vs = do
    first ← given (get_elem? vs 0)
    count ← given (get_elem? vs 1)
    base ← gets (λ s. s.spi_base_addr)
    on_target (target.flash_erase base first ((first + count) % 2 ^ 32))

  unfoldable pub flash_write_at : Packet → List ℕ → Action (State W) (Unit {0})
  flash_write_at cmd vs = do
    first ← given (get_elem? vs 0)
    p ← given (after_char b':' (drop 12 cmd.data'))
    let bytes = bin_decode (payload cmd p)
    modify (λ s. record s { mem_len = length bytes })
    store bytes
    base ← gets (λ s. s.spi_base_addr)
    on_target (target.flash_write base bytes first (length bytes))

abbrev v_flash_init : List ℕ
v_flash_init = b'v' ∷ b'F' ∷ b'l' ∷ b'a' ∷ b's' ∷ b'h' ∷ b'I' ∷ b'n' ∷ b'i' ∷ b't' ∷ b':' ∷ []

abbrev v_flash_erase : List ℕ
v_flash_erase =
    b'v' ∷ b'F' ∷ b'l' ∷ b'a' ∷ b's' ∷ b'h' ∷ b'E' ∷ b'r' ∷ b'a' ∷ b's' ∷ b'e' ∷ b':' ∷ []

abbrev v_flash_write : List ℕ
v_flash_write =
    b'v' ∷ b'F' ∷ b'l' ∷ b'a' ∷ b's' ∷ b'h' ∷ b'W' ∷ b'r' ∷ b'i' ∷ b't' ∷ b'e' ∷ b':' ∷ []

module _ {W : Type 0} (target : Target W) where
  unfoldable pub flash_command : Packet → Action (State W) (Unit {0})
  flash_command cmd =
      if starts_with v_flash_init cmd.data'
      then flash_init_at target (scan_fields 2 (drop 11 cmd.data'))
      else if starts_with v_flash_erase cmd.data'
      then flash_erase_at target (scan_fields 2 (drop 12 cmd.data'))
      else if starts_with v_flash_write cmd.data'
      then flash_write_at target cmd (scan_fields 1 (drop 12 cmd.data'))
      else skip

  -- `vFlashDone` and all other packets do nothing but the answer.
  unfoldable pub gdb_server_cmd_v : Packet → Action (State W) (Unit {0})
  gdb_server_cmd_v cmd = do flash_command cmd; gdb_server_reply_ok
