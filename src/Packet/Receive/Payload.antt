-- ===== src/Packet/Receive/Payload.antt =====
-- What `gdb_cmd_packet_vTask` hands to the server for a packet that arrives in parts.
use mathlib.Core.List.{flatten, append_assoc}
use mathlib.Core.Bool.{false≢true}
use nuclei_dlink.Base.{
  ℕ, suc, ◌+◌, ◌-◌, ◌%◌, ◌^◌, ◌≤◌, ◌<◌, ◌≡◌, ◌≢◌, refl, sym, ap, ◌∙◌, true, false, none, some,
  Option, List, [], ◌∷◌, ◌++◌, arith, length, get_or, write_at_fits, get_or-write_at, get_or-append,
  length-append, All, All-append, slice, slice_ext,
}
use nuclei_dlink.Packet.{
  Reception, GdbPacket, start, scan, is_complete, receive, complete, deliver, gdb_packet_buff_size,
}
use nuclei_dlink.Packet.Receive.Scan.{scan_found, scan-append, scan_first, scan_bounds}
use nuclei_dlink.Packet.Receive.Loop.{Knows, receive-complete}

-- A complete reception has the marks of the whole stream.
some_of_complete :
    (dollar sharp : Option ℕ)
    → is_complete dollar sharp ≡ true
    → (d : ℕ) × (s : ℕ) × (dollar ≡ some d) × (sharp ≡ some s)
unfolding is_complete
some_of_complete (some d) (some (suc s)) h = (d, suc s, refl, refl)
some_of_complete none sharp h = absurd (false≢true h)
some_of_complete (some d) none h = absurd (false≢true h)
some_of_complete (some d) (some _) h = absurd (false≢true h)

scan_whole :
    (c : ℕ) (now later : List ℕ) (p q : ℕ)
    → scan c 0 now none ≡ some p
    → scan c 0 (now ++ later) none ≡ some q
    → scan c 0 now none ≡ some q
scan_whole c now later p q h whole =
    h
    ∙ sym (scan_found c (0 + length now) p later)
    ∙ rw h at (sym (scan-append c 0 now later none) ∙ whole)

record IsDelivered (payload : List ℕ) (out : List ℕ) (pkt : GdbPacket) : Type 0 where
  length_is : pkt.len ≡ length payload
  bytes : slice pkt.at pkt.len out ≡ payload
  terminated : get_or out (pkt.at + pkt.len) 1 ≡ 0

deliver-IsDelivered :
    (junk payload tail now later : List ℕ) (rx : Reception)
    → Knows 1088 now rx
    → rx.dollar ≡ some (length junk)
    → rx.sharp ≡ some (suc (length junk + length payload))
    → suc (length junk + length payload) < length now
    → length now ≤ 1088
    → now ++ later ≡ junk ++ (b'$' ∷ (payload ++ (b'#' ∷ tail)))
    → (out : List ℕ) × (pkt : GdbPacket) × (deliver rx ≡ some (out, pkt))
      × IsDelivered payload out pkt
unfolding deliver
deliver-IsDelivered junk payload tail now later rx k hd hs inside fits split =
    let j = length junk in
    let n = length payload in
    let (out, w, size) = write_at_fits (j + 1 + n) (0 ∷ []) rx.buf (omega (arith, k.size)) in
    (
      out,
      record { len = n; at = j + 1 },
      rw (hd, hs, len_is, end_is, w) refl,
      record {
        length_is = refl;
        bytes = slice_ext 0 (j + 1) payload out (omega (arith, size, k.size)) (λ i lt. ground (
          arith,
          get_or-write_at (j + 1 + n) (0 ∷ []) rx.buf out (j + 1 + i) 0 w,
          k.stored j (j + 1 + i) hd (omega arith) (omega arith),
          at_payload i lt,
        ));
        terminated =
            ground (arith, get_or-write_at (j + 1 + n) (0 ∷ []) rx.buf out (j + 1 + n) 1 w);
      },
    )
  where
    len_is :
        (suc (length junk + length payload) + 2 ^ 32 - length junk - 1) % 2 ^ 32 ≡ length payload
    len_is = omega arith

    end_is : (length junk + 1 + length payload) % 2 ^ 32 ≡ length junk + 1 + length payload
    end_is = omega arith

    at_payload :
        (i : ℕ) → i < length payload → get_or now (length junk + 1 + i) 0 ≡ get_or payload i 0
    at_payload i lt = ground (
      arith,
      get_or-append now later (length junk + 1 + i) 0,
      ap (λ l. get_or l (length junk + 1 + i) 0) split,
      get_or-append junk (b'$' ∷ (payload ++ (b'#' ∷ tail))) (length junk + 1 + i) 0,
      from_dollar i,
      get_or-append payload (b'#' ∷ tail) i 0,
    )
      where
        from_dollar :
            (i : ℕ)
            → get_or (b'$' ∷ (payload ++ (b'#' ∷ tail))) (length junk + 1 + i - length junk) 0
              ≡ get_or (payload ++ (b'#' ∷ tail)) i 0
        from_dollar i = let e : length junk + 1 + i - length junk ≡ suc i = omega arith in rw e refl

-- A command that arrives in any number of parts, after any bytes that are neither `$` nor `#`, is
-- taken from the stream once its `#` is in, if the whole stream fits the command buffer of 1088
-- bytes: the packet queued for the server has the length and the bytes of the payload, and a
-- terminator behind them.
pub receive-payload :
    (buf junk payload tail : List ℕ) (temps : List (List ℕ))
    → length buf ≡ gdb_packet_buff_size + 64
    → flatten temps ≡ junk ++ (b'$' ∷ (payload ++ (b'#' ∷ tail)))
    → length (flatten temps) ≤ gdb_packet_buff_size + 64
    → All (λ x. x ≢ b'$') junk
    → All (λ x. x ≢ b'#') junk
    → All (λ x. x ≢ b'#') payload
    → (rx : Reception) × (out : List ℕ) × (pkt : GdbPacket) × (receive (start buf) temps
        ≡ complete rx)
      × (deliver rx ≡ some (out, pkt))
      × (pkt.len ≡ length payload)
      × (slice pkt.at pkt.len out ≡ payload)
      × (get_or out (pkt.at + pkt.len) 1 ≡ 0)
receive-payload buf junk payload tail temps room stream fits no_dollar no_sharp plain =
    let (rx, now, later, e, k, split, full) =
      receive-complete 1088 (length junk) (length junk + length payload) [] temps (start buf) begins
        early fits dollar sharp in
    let (d, s, hd, hs) = some_of_complete rx.dollar rx.sharp full in
    let hd' = scan_whole b'$' now later d (length junk) (sym k.dollar ∙ hd) (rw split dollar) in
    let hs' =
      scan_whole b'#' now later s (suc (length junk + length payload)) (sym k.sharp ∙ hs)
        (rw split sharp) in
    let (out, pkt, q, good) =
      deliver-IsDelivered junk payload tail now later rx k (k.dollar ∙ hd') (k.sharp ∙ hs')
        (omega (arith, scan_bounds b'#' 0 now hs'))
        (omega (arith, ap length split, length-append now later)) (split ∙ stream) in
    (rx, out, pkt, e, q, good.length_is, good.bytes, good.terminated)
  where
    begins : Knows 1088 [] (start buf)
    begins =
        unfold start scan in
        record { dollar = refl; sharp = refl; total = refl; size = room; stored = λ d i h. cc }

    early : is_complete (start buf).dollar (start buf).sharp ≡ false
    early = unfold start is_complete in refl

    dollar : scan b'$' 0 (flatten temps) none ≡ some (length junk)
    dollar =
        rw stream
          (scan_first b'$' 0 junk (payload ++ (b'#' ∷ tail)) no_dollar ∙ ap some (omega arith))

    sharp : scan b'#' 0 (flatten temps) none ≡ some (suc (length junk + length payload))
    sharp =
        rw (stream, ← append_assoc junk (b'$' ∷ payload) (b'#' ∷ tail))
          (scan_first b'#' 0 (junk ++ (b'$' ∷ payload)) tail (
              All-append (λ x. x ≢ b'#') junk (b'$' ∷ payload) no_sharp ((λ e. omega arith), plain))
            ∙ ap some (omega (arith, length-append junk (b'$' ∷ payload))))

deliver-reversed :
    (rx : Reception) (d s : ℕ)
    → rx.dollar ≡ some d
    → rx.sharp ≡ some s
    → s < d
    → d < length rx.buf
    → length rx.buf ≡ gdb_packet_buff_size + 64
    → (out : List ℕ) × (pkt : GdbPacket) × (deliver rx ≡ some (out, pkt))
      × (pkt.len + d + 1 ≡ 2 ^ 32 + s)
      × (get_or out s 1 ≡ 0)
unfolding deliver
deliver-reversed rx d s hd hs lt inside room =
    let (out, w, size) = write_at_fits s (0 ∷ []) rx.buf (omega arith) in
    (
      out,
      record { len = 2 ^ 32 + s - d - 1; at = d + 1 },
      rw (hd, hs, len_is, end_is, w) refl,
      omega arith,
      ground (arith, get_or-write_at s (0 ∷ []) rx.buf out s 1 w),
    )
  where
    len_is : (s + 2 ^ 32 - d - 1) % 2 ^ 32 ≡ 2 ^ 32 + s - d - 1
    len_is = omega arith

    end_is : (d + 1 + (2 ^ 32 + s - d - 1)) % 2 ^ 32 ≡ s
    end_is = omega arith

-- A stream whose first `#` stands before its first `$`, but not at its beginning, arrives in any number
-- of parts and fits the command buffer: the reception ends with the `$`, and a packet is queued whose
-- length has wrapped below zero, with the terminator written over the `#`.
pub receive-reversed :
    (buf junk middle tail : List ℕ) (temps : List (List ℕ))
    → length buf ≡ gdb_packet_buff_size + 64
    → flatten temps ≡ junk ++ (b'#' ∷ (middle ++ (b'$' ∷ tail)))
    → length (flatten temps) ≤ gdb_packet_buff_size + 64
    → 0 < length junk
    → All (λ x. x ≢ b'$') junk
    → All (λ x. x ≢ b'#') junk
    → All (λ x. x ≢ b'$') middle
    → (rx : Reception) × (out : List ℕ) × (pkt : GdbPacket) × (receive (start buf) temps
        ≡ complete rx)
      × (deliver rx ≡ some (out, pkt))
      × (pkt.len + length middle + 2 ≡ 2 ^ 32)
      × (get_or out (length junk) 1 ≡ 0)
receive-reversed buf junk middle tail temps room stream fits some_junk no_dollar no_sharp plain =
    let d = length junk + 1 + length middle in
    let (rx, now, later, e, k, split, full) =
      receive-complete 1088 d (length junk - 1) [] temps (start buf) begins early fits dollar
        (sharp ∙ ap some (omega (arith, some_junk))) in
    let (d', s', hd, hs) = some_of_complete rx.dollar rx.sharp full in
    let hd' = scan_whole b'$' now later d' d (sym k.dollar ∙ hd) (rw split dollar) in
    let hs' = scan_whole b'#' now later s' (length junk) (sym k.sharp ∙ hs) (rw split sharp) in
    let short : d < length rx.buf =
      omega (
        arith,
        scan_bounds b'$' 0 now hd',
        k.size,
        ap length split,
        length-append now later,
        fits,
      ) in
    let (out, pkt, q, len, zeroed) =
      deliver-reversed rx d (length junk) (k.dollar ∙ hd') (k.sharp ∙ hs') (omega arith) short
        k.size in
    (rx, out, pkt, e, q, omega (arith, len), zeroed)
  where
    begins : Knows 1088 [] (start buf)
    begins =
        unfold start scan in
        record { dollar = refl; sharp = refl; total = refl; size = room; stored = λ d i h. cc }

    early : is_complete (start buf).dollar (start buf).sharp ≡ false
    early = unfold start is_complete in refl

    sharp : scan b'#' 0 (flatten temps) none ≡ some (length junk)
    sharp =
        rw stream
          (scan_first b'#' 0 junk (middle ++ (b'$' ∷ tail)) no_sharp ∙ ap some (omega arith))

    dollar : scan b'$' 0 (flatten temps) none ≡ some (length junk + 1 + length middle)
    dollar =
        rw (stream, ← append_assoc junk (b'#' ∷ middle) (b'$' ∷ tail))
          (scan_first b'$' 0 (junk ++ (b'#' ∷ middle)) tail (
              All-append (λ x. x ≢ b'$') junk (b'#' ∷ middle) no_dollar ((λ e. omega arith), plain))
            ∙ ap some (omega (arith, length-append junk (b'#' ∷ middle))))
