-- ===== src/Packet/Receive/Loop.antt =====
-- The invariant of the receive loop: what it knows of the part of the stream that has come in.
use mathlib.Core.List.{flatten, append_assoc, append-nil}
use nuclei_dlink.Base.{
  ℕ, suc, ◌+◌, ◌≤◌, ◌<◌, ◌≡◌, refl, sym, ap, ◌∙◌, true, false, none, some, Option, List, [], ◌∷◌,
  ◌++◌, arith, length, get_or, write_at, write_at_fits, get_or-write_at, get_or-append,
  length-append, Option-cases, Bool-cases, inl, inr,
}
use mathlib.Core.Bool.{false≢true}
use native.Mathlib.Decide.{dec_lt}
use nuclei_dlink.Packet.{Reception, advance, scan, is_complete, receive_packet, complete, receive}
use nuclei_dlink.Packet.Receive.Scan.{scan_found, scan-append, scan_bounds}

-- `seen` has come in: the positions are those of its first `$` and `#`, and from the `$` on it is
-- in the buffer.
pub record Knows (room : ℕ) (seen : List ℕ) (rx : Reception) : Type 0 where
  pub dollar : rx.dollar ≡ scan b'$' 0 seen none
  pub sharp : rx.sharp ≡ scan b'#' 0 seen none
  pub total : rx.total ≡ length seen
  pub size : length rx.buf ≡ room
  pub stored :
      (d i : ℕ) → rx.dollar ≡ some d → d ≤ i → i < length seen → get_or rx.buf i 0 ≡ get_or seen i 0

scan_next :
    (c : ℕ) (seen temp : List ℕ) (total : ℕ) (found : Option ℕ)
    → total ≡ length seen
    → found ≡ scan c 0 seen none
    → scan c total temp found ≡ scan c 0 (seen ++ temp) none
scan_next c seen temp total found e h =
    rw (e, h)
      (sym (
        scan-append c 0 seen temp none
        ∙ ap (λ (n : ℕ). scan c n temp (scan c 0 seen none)) (omega arith)))

-- A `$` that the new part brings lies in the new part.
scan_later :
    (c : ℕ) (seen temp : List ℕ) (d i : ℕ)
    → scan c 0 (seen ++ temp) none ≡ some d
    → d ≤ i
    → i < length seen
    → scan c 0 seen none ≡ some d
scan_later c seen temp d i h le lt = elim (Option-cases (scan c 0 seen none)) [
  | inl absent ↦ absurd (
      omega (
        arith,
        scan_bounds c (0 + length seen) temp {p = d}
            (rw absent at (sym (scan-append c 0 seen temp none) ∙ h)),
        le,
        lt,
      ))
  | inr (p, e) ↦
      e
      ∙ sym (scan_found c (0 + length seen) p temp)
      ∙ rw e at (sym (scan-append c 0 seen temp none) ∙ h)
]

advance-Knows :
    (room : ℕ) (seen temp buf : List ℕ) (rx : Reception)
    → Knows room seen rx
    → length buf ≡ room
    → ((d i : ℕ)
        → scan b'$' 0 (seen ++ temp) none ≡ some d
        → d ≤ i
        → i < length seen + length temp
        → get_or buf i 0 ≡ get_or (seen ++ temp) i 0)
    → Knows room (seen ++ temp) (advance rx temp buf)
unfolding advance
advance-Knows room seen temp buf rx k size stored = record {
  dollar = scan_next b'$' seen temp rx.total rx.dollar k.total k.dollar;
  sharp = scan_next b'#' seen temp rx.total rx.sharp k.total k.sharp;
  total = omega (arith, k.total, length-append seen temp);
  size = size;
  stored = λ d i e le lt.
      stored d i (sym (scan_next b'$' seen temp rx.total rx.dollar k.total k.dollar) ∙ e) le
        (omega (arith, length-append seen temp));
}

pub receive_packet-Knows :
    (room : ℕ) (seen temp : List ℕ) (rx : Reception)
    → Knows room seen rx
    → length seen + length temp ≤ room
    → (rx' : Reception) × (receive_packet rx temp ≡ some rx') × Knows room (seen ++ temp) rx'
unfolding receive_packet
receive_packet-Knows room seen temp rx k fits =
    elim (Option-cases (scan b'$' rx.total temp rx.dollar)) [
      | inl absent ↦ (
        advance rx temp rx.buf,
        rw (absent, receive_packet) refl,
        advance-Knows room seen temp rx.buf rx k k.size (λ d i e le lt. cc (absent, next, e)),
      )
      | inr (d, e) ↦
          let (buf, w, size) =
            write_at_fits rx.total temp rx.buf (omega (arith, k.total, k.size)) in
          (
            advance rx temp buf,
            rw (e, receive_packet, w) refl,
            advance-Knows room seen temp buf rx k (size ∙ k.size)
                (λ d i e le lt. stored buf w d i e le lt),
          )
    ]
  where
    next : scan b'$' rx.total temp rx.dollar ≡ scan b'$' 0 (seen ++ temp) none
    next = scan_next b'$' seen temp rx.total rx.dollar k.total k.dollar

    stored :
        (buf : List ℕ)
        → write_at rx.total temp rx.buf ≡ some buf
        → (d i : ℕ) → scan b'$' 0 (seen ++ temp) none ≡ some d
        → d ≤ i
        → i < length seen + length temp
        → get_or buf i 0 ≡ get_or (seen ++ temp) i 0
    stored buf w d i e le lt = elim (dec_lt i (length seen)) [
      | yes old ↦ ground (
        arith,
        get_or-write_at rx.total temp rx.buf buf i 0 w,
        get_or-append seen temp i 0,
        k.stored d i (k.dollar ∙ scan_later b'$' seen temp d i e le old) le old,
        k.total,
      )
      | no new ↦ ground (
        arith,
        get_or-write_at rx.total temp rx.buf buf i 0 w,
        get_or-append seen temp i 0,
        k.total,
      )
    ]

-- The loop ends at the first part with which both marks are in, if all of the stream fits.
pub receive-complete :
    (room d s : ℕ) (seen : List ℕ) (temps : List (List ℕ)) (rx : Reception)
    → Knows room seen rx
    → is_complete rx.dollar rx.sharp ≡ false
    → length (seen ++ flatten temps) ≤ room
    → scan b'$' 0 (seen ++ flatten temps) none ≡ some d
    → scan b'#' 0 (seen ++ flatten temps) none ≡ some (suc s)
    → (rx' : Reception) × (now : List ℕ) × (later : List ℕ) × (receive rx temps ≡ complete rx')
      × Knows room now rx'
      × (now ++ later ≡ seen ++ flatten temps)
      × (is_complete rx'.dollar rx'.sharp ≡ true)
unfolding receive flatten
receive-complete room d s seen [] rx k early fits hd hs = absurd (false≢true (sym early ∙ both))
  where
    both : is_complete rx.dollar rx.sharp ≡ true
    both =
        unfold is_complete in rw (k.dollar, k.sharp, rw append-nil at hd, rw append-nil at hs) refl
receive-complete room d s seen (temp ∷ temps) rx k early fits hd hs =
    let (rx', e, k') = receive_packet-Knows room seen temp rx k (
      omega (
        arith,
        fits,
        parts,
        length-append (seen ++ temp) (flatten temps),
        length-append seen temp,
      )) in
    elim (Bool-cases (is_complete rx'.dollar rx'.sharp)) [
      | inl full ↦ (rx', seen ++ temp, flatten temps, rw (e, receive, full) refl, k', assoc, full)
      | inr more ↦
          let (out, now, later, done, known, split, full) =
            receive-complete room d s (seen ++ temp) temps rx' k' more (rw (← assoc) at fits)
              (rw (← assoc) at hd) (rw (← assoc) at hs) in
          (out, now, later, rw (e, receive, more) done, known, split ∙ assoc, full)
    ]
  where
    assoc : (seen ++ temp) ++ flatten temps ≡ seen ++ (temp ++ flatten temps)
    assoc = append_assoc seen temp (flatten temps)

    parts : length ((seen ++ temp) ++ flatten temps) ≡ length (seen ++ (temp ++ flatten temps))
    parts = ap length assoc
