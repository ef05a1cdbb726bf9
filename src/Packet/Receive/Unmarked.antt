-- ===== src/Packet/Receive/Unmarked.antt =====
-- What `gdb_cmd_packet_vTask` does with bytes that are not framed.
use nuclei_dlink.Base.{ℕ, ◌≡◌, ◌≢◌, refl, ap, ◌∙◌, false, none, some, List, [], ◌∷◌, All}
use nuclei_dlink.Packet.{
  Reception, start, is_complete, advance, scan, receive_packet, receive, waiting,
}
use nuclei_dlink.Packet.Receive.Scan.{scan_absent}

receive_from-unmarked :
    (rx : Reception) (temps : List (List ℕ))
    → rx.dollar ≡ none
    → All (All (λ x. x ≢ b'$')) temps
    → (rx' : Reception) × (receive rx temps ≡ waiting rx')
unfolding receive receive_packet
receive_from-unmarked rx [] h plain = (rx, refl)
receive_from-unmarked rx (temp ∷ temps) h (here, later) =
    let absent : scan b'$' rx.total temp rx.dollar ≡ none =
      ap (λ d. scan b'$' rx.total temp d) h ∙ scan_absent b'$' rx.total temp here in
    let kept : receive_packet rx temp ≡ some (advance rx temp rx.buf) =
      rw (absent, receive_packet) refl in
    let off : (advance rx temp rx.buf).dollar ≡ none = unfold advance in absent in
    let going : is_complete (advance rx temp rx.buf).dollar (advance rx temp rx.buf).sharp ≡ false =
      unfold is_complete in rw (off) refl in
    let (rx', e) = receive_from-unmarked (advance rx temp rx.buf) temps off later in
    (rx', rw (kept, receive, going) e)

-- Without a `$` the reception goes on.
pub receive-unmarked :
    (buf : List ℕ) (temps : List (List ℕ))
    → All (All (λ x. x ≢ b'$')) temps
    → (rx : Reception) × (receive (start buf) temps ≡ waiting rx)
unfolding start
receive-unmarked buf temps plain = receive_from-unmarked (start buf) temps refl plain
