-- ===== src/Server/Memory/Answers.antt =====
-- What the commands `m` and `M` of gdb-server.c do with the packets that the debugger sends.
use nuclei_dlink.Base.{
  ℕ, ◌+◌, ◌*◌, ◌/◌, ◌%◌, ◌^◌, ◌<◌, ◌≤◌, ◌≡◌, refl, sym, ◌∙◌, min, true, false, none, some, List, [],
  ◌∷◌, ◌++◌, arith, length, drop, leb, write_at_front, take-append, length-append, length-drop,
}
use nuclei_dlink.Base.Action.{◌>>=◌, ◌>>◌}
use nuclei_dlink.Codec.{bin_to_hex}
use nuclei_dlink.Codec.Hex.{IsBytes, length-bin_to_hex, hex_to_bin-bin_to_hex}
use nuclei_dlink.Server.{
  Packet, Target, State, buff_size, rsp_size, respond, gdb_server_send_response,
  gdb_server_reply_ok,
}
use nuclei_dlink.Server.Scan.{print_hex}
use nuclei_dlink.Server.Scan.Marks.{after_comma, after_colon}
use nuclei_dlink.Server.Scan.Numbers.{
  comma_IsEnd, nul_IsEnd, colon_IsEnd, scan_hex-print_hex, scan_fields-print_hex,
}
use nuclei_dlink.Server.Memory.{
  scan_one, clamp_len, store, loaded, scan_range, scan_both, fetch_memory, put_memory,
  gdb_server_cmd_m, gdb_server_cmd_M,
}

-- The packet `m addr,length`, with a zero behind it.
abbrev pub read_packet : ℕ → ℕ → List ℕ → ℕ → Packet
read_packet addr n rest len = record {
  data' = b'm' ∷ (print_hex addr ++ b',' ∷ (print_hex n ++ 0 ∷ rest));
  len = len;
}

scan_one-print_hex :
    (v old : ℕ) (rest : List ℕ) → v < 2 ^ 32 → scan_one (print_hex v ++ b',' ∷ rest) old ≡ v
unfolding scan_one
scan_one-print_hex v old rest h = rw (scan_one, scan_hex-print_hex v b',' rest h comma_IsEnd) refl

scan_one_last :
    (v old : ℕ) (rest : List ℕ) → v < 2 ^ 32 → scan_one (print_hex v ++ 0 ∷ rest) old ≡ v
unfolding scan_one
scan_one_last v old rest h = rw (scan_one, scan_hex-print_hex v 0 rest h nul_IsEnd) refl

-- The packet `M addr,length:` with the text of the bytes.
abbrev pub write_packet : ℕ → ℕ → List ℕ → ℕ → Packet
write_packet addr n text len = record {
  data' = b'M' ∷ (print_hex addr ++ b',' ∷ (print_hex n ++ b':' ∷ text));
  len = len;
}

module _ {W : Type 0} where
  -- The state after both numbers have been scanned, and after the bytes have been read.
  abbrev pub ranged : ℕ → ℕ → State W → State W
  ranged addr n s = record s { mem_addr = addr; mem_len = n }

  abbrev pub filled : List ℕ → W → State W → State W
  filled bytes w s = record s { mem_buffer = bytes ++ drop (length bytes) s.mem_buffer; target = w }

  scan_range_lem :
      (addr n len : ℕ) (rest : List ℕ) (s : State W)
      → addr < 2 ^ 32
      → n < 2 ^ 32
      → s.mem_addr < 2 ^ 32
      → scan_range (read_packet addr n rest len) s ≡ some (tt, ranged addr n s)
  unfolding scan_range
  scan_range_lem addr n len rest s h k upper =
      let high : s.mem_addr / 2 ^ 32 * 2 ^ 32 + addr ≡ addr = omega arith in
      rw
        (
          after_comma addr (print_hex n ++ 0 ∷ rest) h,
          scan_one-print_hex addr (s.mem_addr % 2 ^ 32) (print_hex n ++ 0 ∷ rest) h,
          scan_one_last n s.mem_len rest k,
          high,
        )
        refl

  scan_both_lem :
      (addr n len : ℕ) (rest : List ℕ) (s : State W)
      → addr < 2 ^ 32
      → n < 2 ^ 32
      → s.mem_addr < 2 ^ 32
      → scan_both (write_packet addr n rest len) s ≡ some (tt, ranged addr n s)
  unfolding scan_both
  scan_both_lem addr n len rest s h k upper =
      let high : s.mem_addr / 2 ^ 32 * 2 ^ 32 + addr ≡ addr = omega arith in
      rw (scan_fields-print_hex addr n b':' rest h k colon_IsEnd refl, high) refl

  pub store_lem :
      (bytes : List ℕ) (s : State W)
      → length bytes ≤ length s.mem_buffer
      → store bytes s ≡ some (tt, filled bytes s.target s)
  unfolding store
  store_lem bytes s h = rw (write_at_front bytes s.mem_buffer h) refl

module _ {W : Type 0} (target : Target W) where
  m_run :
      (addr n len : ℕ) (rest bytes : List ℕ) (s : State W) (w : W)
      → addr < 2 ^ 32
      → n < 2 ^ 32
      → s.mem_addr < 2 ^ 32
      → length s.mem_buffer ≡ buff_size
      → target.read_memory addr (min n buff_size) s.target ≡ some (bytes, w)
      → length bytes ≡ min n buff_size
      → gdb_server_cmd_m target (read_packet addr n rest len) s
        ≡ respond (bin_to_hex bytes) (filled bytes w (ranged addr (min n buff_size) s))
  unfolding gdb_server_cmd_m fetch_memory clamp_len loaded
  m_run addr n len rest bytes s w h k upper size read full =
      let fits : length bytes ≤ length s.mem_buffer = omega arith in
      rw
        (
          ◌>>=◌,
          scan_range_lem addr n len rest s h k upper,
          read,
          store_lem bytes (record (ranged addr (min n buff_size) s) { target = w }) fits,
          sym full,
          take-append bytes (drop (length bytes) s.mem_buffer),
        )
        refl

  -- The debugger reads `n` bytes, 543 at most, from an address of 32 bits, and the target delivers that
  -- many: exactly one response is added, the text of the bytes, and nothing else is done to the target.
  pub m_answer :
      (addr n len : ℕ) (rest bytes : List ℕ) (s : State W) (w : W)
      → addr < 2 ^ 32
      → n ≤ 543
      → s.mem_addr < 2 ^ 32
      → length s.mem_buffer ≡ buff_size
      → target.read_memory addr n s.target ≡ some (bytes, w)
      → length bytes ≡ n
      → (s' : State W) × (gdb_server_cmd_m target (read_packet addr n rest len) s ≡ some (tt, s'))
        × (s'.responses ≡ s.responses ++ bin_to_hex bytes ∷ [])
        × (s'.target ≡ w)
        × (length s'.mem_buffer ≡ buff_size)
        × (s'.mem_addr ≡ addr)
  unfolding respond gdb_server_send_response
  m_answer addr n len rest bytes s w h k upper size read full =
      let same : min n buff_size ≡ n = omega arith in
      let short : leb (length (bin_to_hex bytes)) rsp_size ≡ true =
        ground (arith, length-bin_to_hex bytes, full, k) in
      let run =
        m_run addr n len rest bytes s w h (omega arith) upper size (rw (same) read)
          (rw (same) full) in
      (
        record (filled bytes w (ranged addr (min n buff_size) s)) {
          rsp = bin_to_hex bytes;
          responses = s.responses ++ bin_to_hex bytes ∷ [];
        },
        run ∙ rw (short) refl,
        refl,
        refl,
        omega (
          arith,
          length-append bytes (drop (length bytes) s.mem_buffer),
          length-drop (length bytes) s.mem_buffer,
          full,
          size,
        ),
        refl,
      )

  -- The text of more than 543 bytes is written past the end of the response buffer, though up to 1024
  -- bytes are read for it.
  pub m_overrun :
      (addr n len : ℕ) (rest bytes : List ℕ) (s : State W) (w : W)
      → addr < 2 ^ 32
      → 543 < n
      → n < 2 ^ 32
      → s.mem_addr < 2 ^ 32
      → length s.mem_buffer ≡ buff_size
      → target.read_memory addr (min n buff_size) s.target ≡ some (bytes, w)
      → length bytes ≡ min n buff_size
      → gdb_server_cmd_m target (read_packet addr n rest len) s ≡ none
  unfolding respond gdb_server_send_response
  m_overrun addr n len rest bytes s w h j k upper size read full =
      let many : 543 < length bytes = omega arith in
      let long : leb (length (bin_to_hex bytes)) rsp_size ≡ false =
        ground (arith, length-bin_to_hex bytes, many) in
      m_run addr n len rest bytes s w h k upper size read full ∙ rw (long) refl

  -- The debugger writes some bytes, 1024 at most, to an address of 32 bits: the target is given just
  -- these bytes for that address, and exactly one response is added, `OK`.
  M_effect :
      (addr len : ℕ) (bin rest : List ℕ) (s : State W) (w : W)
      → addr < 2 ^ 32
      → IsBytes bin
      → length bin ≤ buff_size
      → s.mem_addr < 2 ^ 32
      → length s.mem_buffer ≡ buff_size
      → target.write_memory bin addr s.target ≡ some (tt, w)
      → (s' : State W) × (gdb_server_cmd_M target
            (write_packet addr (length bin) (bin_to_hex bin ++ rest) len)
            s
          ≡ some (tt, s'))
        × (s'.responses ≡ s.responses ++ (b'O' ∷ b'K' ∷ []) ∷ [])
        × (s'.target ≡ w)
        × (length s'.mem_buffer ≡ buff_size)
        × (s'.mem_addr ≡ addr)
  unfolding gdb_server_cmd_M clamp_len put_memory loaded gdb_server_reply_ok respond
      gdb_server_send_response
  M_effect addr len bin rest s w h good short upper size write =
      let n = length bin in
      let same : min n buff_size ≡ n = omega arith in
      let fits : n ≤ length s.mem_buffer = omega arith in
      (
        record (filled bin w (ranged addr n s)) {
          rsp = b'O' ∷ b'K' ∷ [];
          responses = s.responses ++ (b'O' ∷ b'K' ∷ []) ∷ [];
        },
        rw
            (
              ◌>>=◌,
              scan_both_lem addr n len (bin_to_hex bin ++ rest) s h (omega arith) upper,
              after_colon addr n (bin_to_hex bin ++ rest) h (omega arith),
              same,
              hex_to_bin-bin_to_hex bin rest good,
              store_lem bin (ranged addr n s) fits,
              take-append bin (drop n s.mem_buffer),
              write,
            )
            refl,
        refl,
        refl,
        omega (arith, length-append bin (drop n s.mem_buffer), length-drop n s.mem_buffer, size),
        refl,
      )

  -- Bytes that the debugger has written, 543 at most, are what it reads next at the same address, in
  -- the text in which it has sent them, when the target's memory keeps them.
  pub memory_echo :
      (addr len len' : ℕ) (bin rest rest' : List ℕ) (s : State W) (w w' : W)
      → addr < 2 ^ 32
      → IsBytes bin
      → length bin ≤ 543
      → s.mem_addr < 2 ^ 32
      → length s.mem_buffer ≡ buff_size
      → target.write_memory bin addr s.target ≡ some (tt, w)
      → target.read_memory addr (length bin) w ≡ some (bin, w')
      → (s' : State W) × ((gdb_server_cmd_M target
                (write_packet addr (length bin) (bin_to_hex bin ++ rest) len)
              >> gdb_server_cmd_m target (read_packet addr (length bin) rest' len'))
            s
          ≡ some (tt, s'))
        × (s'.responses ≡ (s.responses ++ (b'O' ∷ b'K' ∷ []) ∷ []) ++ bin_to_hex bin ∷ [])
        × (s'.target ≡ w')
  memory_echo addr len len' bin rest rest' s w w' h good short upper size write read =
      let (s1, run, answers, at, size1, addr1) =
        M_effect addr len bin rest s w h good (omega arith) upper size write in
      let (s2, run', answers', at', size2, addr2) =
        m_answer addr (length bin) len' rest' bin s1 w' h short (omega arith) size1 (rw (at) read)
          refl in
      (s2, rw (◌>>=◌, run, run') refl, answers' ∙ rw (answers) refl, at')
