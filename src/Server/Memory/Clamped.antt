-- ===== src/Server/Memory/Clamped.antt =====
-- The command `M` of gdb-server.c with a length that the debugger has made up.
use nuclei_dlink.Base.{ℕ, ◌%◌, ◌^◌, drop, get_or}
use nuclei_dlink.Server.{Packet, State, set_low}
use nuclei_dlink.Server.Scan.{scan_fields}

module _ {W : Type 0} where
  -- The address and the length that a packet tells; what it does not tell is as before.
  abbrev pub told_address : Packet → State W → ℕ
  told_address cmd s =
      set_low (get_or (scan_fields 2 (drop 1 cmd.data')) 0 (s.mem_addr % 2 ^ 32)) s.mem_addr

  abbrev pub told_length : Packet → State W → ℕ
  told_length cmd s = get_or (scan_fields 2 (drop 1 cmd.data')) 1 s.mem_len
