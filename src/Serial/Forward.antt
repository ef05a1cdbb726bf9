-- ===== src/Serial/Forward.antt =====
-- Every byte that comes from the UART of the target is forwarded once, in order: `USART0_IRQHandler`.
use mathlib.Core.List.{append-nil, append_assoc}
use nuclei_dlink.Base.{
  length-take, ℕ, zero, suc, ◌+◌, ◌-◌, ◌%◌, ◌^◌, ◌<◌, ◌≡◌, refl, sym, ap, ◌∙◌, true, false, ◌||◌,
  Option, none, some, List, [], ◌∷◌, ◌++◌, arith, length, take, get_or, All, All-append, leb, ◌==◌,
  write_at, write_at_fits, get_or-write_at, map-eq-some, Bool-cases, inl, inr,
}
use nuclei_dlink.Base.Action.{◌>>=◌}
use nuclei_dlink.Usb.{Core, cdc1_data}
use nuclei_dlink.Serial.{Bridge, packet_size, send_cache, receive, usart0_irq_handler, interrupts}

take-write_at :
    (i : ℕ) (b : ℕ) (buf buf' : List ℕ)
    → write_at i (b ∷ []) buf ≡ some buf'
    → take (suc i) buf' ≡ take i buf ++ b ∷ []
unfolding write_at
take-write_at zero b [] buf' e = cc
take-write_at zero b (x ∷ buf) buf' e = ground (arith, e)
take-write_at (suc i) b [] buf' e = cc
take-write_at (suc i) b (x ∷ buf) buf' e =
    let (r, e', same) = map-eq-some (λ r. x ∷ r) (write_at i (b ∷ []) buf) e in
    rw (same) (ap (λ l. x ∷ l) (take-write_at i b buf r e'))

-- The bytes that the interrupts have found.
pub received : List (Option ℕ) → List ℕ
received [] = []
received (none ∷ bytes) = received bytes
received (some b ∷ bytes) = b ∷ received bytes

pub joined : List (List ℕ) → List ℕ
joined [] = []
joined (p ∷ packets) = p ++ joined packets

joined-append : (xs ys : List (List ℕ)) → joined (xs ++ ys) ≡ joined xs ++ joined ys
unfolding joined
joined-append [] ys = refl
joined-append (x ∷ xs) ys =
    ap (λ l. x ++ l) (joined-append xs ys) ∙ sym (append_assoc x (joined xs) (joined ys))

-- Packets, and those after them.
joined_after :
    (xs ys : List (List ℕ)) (b : ℕ) (before between after rest : List ℕ)
    → joined xs ++ between ≡ before ++ b ∷ []
    → joined ys ++ after ≡ between ++ rest
    → joined (xs ++ ys) ++ after ≡ before ++ b ∷ rest
joined_after xs ys b before between after rest e f =
    ap (λ l. l ++ after) (joined-append xs ys)
    ∙ (append_assoc (joined xs) (joined ys) after
        ∙ (ap (λ l. joined xs ++ l) f
            ∙ (sym (append_assoc (joined xs) between rest)
                ∙ (ap (λ l. l ++ rest) e ∙ append_assoc before (b ∷ []) rest))))

-- No end of a line.
abbrev pub IsLine : List ℕ → Type 0
IsLine = All (λ c. (c == 10) ≡ false)

-- A packet fits in the endpoint, its last byte fills it or ends a line, and no byte before ends one.
pub record IsPacket (p : List ℕ) : Type 0 where
  pub front : List ℕ
  pub last : ℕ
  pub whole : p ≡ front ++ last ∷ []
  pub inside : IsLine front
  pub fits : length front < packet_size
  pub ends : (leb packet_size (length front + 1) || last == 10) ≡ true

abbrev pending : {W : Type 0} → Bridge W → List ℕ
pending s = take s.index s.cache

-- The cache has its size, is not full, and holds no end of a line.
record IsReady {W : Type 0} (s : Bridge W) : Type 0 where
  low : s.index < packet_size
  size : length s.cache ≡ packet_size
  line : IsLine (pending s)

length-pending : {W : Type 0} (s : Bridge W) → IsReady s → length (pending s) ≡ s.index
length-pending s ready = omega (arith, length-take s.index s.cache, ready.low, ready.size)

module _ {W : Type 0} (core : Core W) (sent : W → List (List ℕ))
    (logs : (p : List ℕ) (w : W) → sent (core.ep_send cdc1_data p w) ≡ sent w ++ p ∷ []) where
  -- What one byte does: it waits in the cache, or goes out with those before it.
  receive_lem :
      (b : ℕ) (s : Bridge W)
      → IsReady s
      → (s' : Bridge W) × (packets : List (List ℕ)) × (receive core b s ≡ some (tt, s'))
        × IsReady s'
        × (sent s'.core ≡ sent s.core ++ packets)
        × (joined packets ++ pending s' ≡ pending s ++ b ∷ [])
        × All IsPacket packets
  unfolding receive send_cache joined
  receive_lem b s ready =
      let i = s.index in
      let (new, put, same) =
        write_at_fits i (b ∷ []) s.cache (omega (arith, ready.low, ready.size)) in
      let short : (i + 1) % 2 ^ 8 ≡ i + 1 = omega (arith, ready.low) in
      let back : i + 1 - 1 ≡ i = omega arith in
      let last : get_or new i 0 ≡ b =
        ground (arith, get_or-write_at i (b ∷ []) s.cache new i 0 put) in
      let next : i + 1 ≡ suc i = omega arith in
      let more : take (i + 1) new ≡ pending s ++ b ∷ [] =
        ap (λ n. take n new) next ∙ take-write_at i b s.cache new put in
      elim (Bool-cases (leb packet_size (i + 1) || b == 10)) [
        | inl e ↦ (
          record s {
            cache = new;
            index = 0;
            cdc1_packet_sent = false;
            core = core.ep_send cdc1_data (take (i + 1) new) s.core;
          },
          take (i + 1) new ∷ [],
          rw (◌>>=◌, put, short, back, last, e) refl,
          record { low = omega arith; size = same ∙ ready.size; line = tt },
          logs (take (i + 1) new) s.core,
          append-nil (take (i + 1) new ++ []) ∙ (append-nil (take (i + 1) new) ∙ more),
          (
            record {
              front = pending s;
              last = b;
              whole = more;
              inside = ready.line;
              fits = omega (arith, length-pending s ready, ready.low);
              ends = rw (length-pending s ready) e;
            },
            tt,
          ),
        )
        | inr e ↦ (
          record s { cache = new; index = i + 1 },
          [],
          rw (◌>>=◌, put, short, back, last, e) refl,
          record {
            low = ground (arith, e);
            size = same ∙ ready.size;
            line = rw (more) (
                All-append (λ c. (c == 10) ≡ false) (pending s) (b ∷ []) ready.line
                  (ground (arith, e), tt));
          },
          sym (append-nil (sent s.core)),
          more,
          tt,
        )
      ]

  interrupts_lem :
      (bytes : List (Option ℕ)) (s : Bridge W)
      → IsReady s
      → (s' : Bridge W) × (packets : List (List ℕ)) × (interrupts core bytes s ≡ some (tt, s'))
        × IsReady s'
        × (sent s'.core ≡ sent s.core ++ packets)
        × (joined packets ++ pending s' ≡ pending s ++ received bytes)
        × All IsPacket packets
  unfolding interrupts usart0_irq_handler received joined
  interrupts_lem [] s ready =
      (s, [], refl, ready, sym (append-nil (sent s.core)), sym (append-nil (pending s)), tt)
  interrupts_lem (none ∷ bytes) s ready = interrupts_lem bytes s ready
  interrupts_lem (some b ∷ bytes) s ready =
      let (s1, ps, ran, ready1, sent1, join, good) = receive_lem b s ready in
      let (s2, qs, ran', ready2, sent2, join', good') = interrupts_lem bytes s1 ready1 in
      (
        s2,
        ps ++ qs,
        rw (◌>>=◌, ran) ran',
        ready2,
        sent2 ∙ (ap (λ l. l ++ qs) sent1 ∙ append_assoc (sent s.core) ps qs),
        joined_after ps qs b (pending s) (pending s1) (pending s2) (received bytes) join join',
        All-append IsPacket ps qs good good',
      )

  -- From an empty cache of the size of a packet, whatever interrupts come, the bytes that they have found
  -- are, in order and each of them once, those in the packets that were given to the USB core and those
  -- that are left in the cache, which are fewer than a packet and end no line. Each packet fits in the
  -- endpoint, its last byte fills it or ends a line, and no byte before that does. The core takes the
  -- packets in the order in which they are given to it.
  pub interrupts-forward :
      (bytes : List (Option ℕ)) (s : Bridge W)
      → s.index ≡ 0
      → length s.cache ≡ packet_size
      → (s' : Bridge W) × (packets : List (List ℕ)) × (interrupts core bytes s ≡ some (tt, s'))
        × (sent s'.core ≡ sent s.core ++ packets)
        × (joined packets ++ take s'.index s'.cache ≡ received bytes)
        × All IsPacket packets
        × (s'.index < packet_size)
        × IsLine (take s'.index s'.cache)
  interrupts-forward bytes s empty size =
      let none_left : pending s ≡ [] = ap (λ n. take n s.cache) empty in
      let ready : IsReady s = record {
        low = omega (arith, empty);
        size = size;
        line = rw (none_left) tt;
      } in
      let (s', packets, ran, ready', logged, join, good) = interrupts_lem bytes s ready in
      (
        s',
        packets,
        ran,
        logged,
        join ∙ ap (λ l. l ++ received bytes) none_left,
        good,
        ready'.low,
        ready'.line,
      )
