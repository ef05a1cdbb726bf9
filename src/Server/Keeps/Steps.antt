-- ===== src/Server/Keeps/Steps.antt =====
-- The steps that the handlers of gdb-server.c share keep the state valid.
use nuclei_dlink.Base.{
  ℕ, zero, suc, ◌+◌, ◌^◌, ◌≤◌, ◌≡◌, ◌∙◌, Bool, Option, none, some, List, [], ◌∷◌, arith, length,
  drop, leb, ◌==◌, Bool-cases, Option-cases, inl, inr, write_at, map-eq-some,
}
use nuclei_dlink.Base.Action.{Action, gets, modify, given, ◌>>=◌}
use nuclei_dlink.Server.{
  Packet, State, buff_size, rsp_size, respond, gdb_server_target_run, gdb_server_send_response,
  gdb_server_reply_ok, gdb_server_reply_err,
}
use nuclei_dlink.Server.Scan.{after_char}
use nuclei_dlink.Server.Scan.Bounds.{scan_one-lt, scan_field-lt, set_low-lt}
use nuclei_dlink.Server.Memory.{store, scan_range, scan_both, clamp_len}
use nuclei_dlink.Server.Registers.{
  parse_registers, text_words, text_doubles, send_registers, scan_number_of, scan_breakpoint,
}
use nuclei_dlink.Server.Keeps.{
  with_buffer, with_len, with_addr, with_point, with_built, with_queued, IsValid, After, Keeps,
  Keeps-modify, Keeps-skip, Keeps-bind, Keeps-gets_bind, Keeps-given_bind, Keeps-target_bind,
  Keeps-on_target, Keeps-if,
}

pub length-write_at :
    (i : ℕ) (xs buf buf' : List ℕ) → write_at i xs buf ≡ some buf' → length buf' ≡ length buf
unfolding write_at
length-write_at zero [] buf buf' e = cc
length-write_at zero (x ∷ xs) [] buf' e = cc
length-write_at zero (x ∷ xs) (b ∷ buf) buf' e =
    let (r, e', same) = map-eq-some (λ r. x ∷ r) (write_at zero xs buf) e in
    rw (same) (omega (arith, length-write_at zero xs buf r e'))
length-write_at (suc i) [] [] buf' e = cc
length-write_at (suc i) (x ∷ xs) [] buf' e = cc
length-write_at (suc i) xs (b ∷ buf) buf' e =
    let (r, e', same) = map-eq-some (λ r. b ∷ r) (write_at i xs buf) e in
    rw (same) (omega (arith, length-write_at i xs buf r e'))

-- What is written fits in the buffer.
pub write_at-fits : (xs buf buf' : List ℕ) → write_at 0 xs buf ≡ some buf' → length xs ≤ length buf
unfolding write_at
write_at-fits [] buf buf' e = omega arith
write_at-fits (x ∷ xs) [] buf' e = cc
write_at-fits (x ∷ xs) (b ∷ buf) buf' e =
    let (r, e', same) = map-eq-some (λ r. x ∷ r) (write_at 0 xs buf) e in
    omega (arith, write_at-fits xs buf r e')

length-parsed :
    (o : Option (List ℕ)) (old new : List ℕ)
    → elim o [ none ↦ none | some ws ↦ write_at 0 ws old ] ≡ some new
    → length new ≡ length old
length-parsed none old new e = cc
length-parsed (some ws) old new e = length-write_at 0 ws old new e

pub length-parse_registers :
    (mxl n : ℕ) (hex old new : List ℕ)
    → parse_registers mxl n hex old ≡ some new
    → length new ≡ length old
unfolding parse_registers
length-parse_registers mxl n hex old new = elim (Bool-cases (mxl == 1)) [
  | inl e ↦ rw (e) (length-parsed (text_words n hex) old new)
  | inr e ↦ rw (e) (elim (Bool-cases (mxl == 2)) [
    | inl e' ↦ rw (e') (length-parsed (text_doubles n hex) old new)
    | inr e' ↦ rw (e') (λ same. ground (arith, same))
  ])
]

module _ (W : Type 0) where
  -- One bound after the other, with no step that changes it.
  pub link :
      {A B : Type 0} (b : ℕ) (m : Action (State W) A) (f : A → Action (State W) B)
      → Keeps b b m
      → ((a : A) → Keeps b b (f a))
      → Keeps b b (m >>= f)
  link b m f h g = Keeps-bind W b b b m f h g

  pub change :
      (b : ℕ) (f : State W → State W)
      → ((s : State W) → IsValid b s → IsValid b (f s))
      → Keeps b b (modify f)
  change b f h = Keeps-modify W b b f h

  pub look : {A : Type 0} (b : ℕ) (g : State W → A) → Keeps b b (gets g)
  unfolding Keeps After
  look b g s v = v

  pub have : {A : Type 0} (b : ℕ) (o : Option A) → Keeps {W = W} b b (given o)
  unfolding Keeps After
  have b none s v = tt
  have b (some a) s v = v

  pub Keeps-gdb_server_target_run :
      (b : ℕ) (running : Bool) → Keeps {W = W} b b (gdb_server_target_run running)
  unfolding gdb_server_target_run
  Keeps-gdb_server_target_run b running = change b _ (λ s v. v)

  pub Keeps-send : (b : ℕ) → Keeps {W = W} b b gdb_server_send_response
  unfolding Keeps After gdb_server_send_response
  Keeps-send b s v = with_queued v

  pub Keeps-respond : (b : ℕ) (text : List ℕ) → Keeps {W = W} b b (respond text)
  unfolding Keeps After respond gdb_server_send_response
  Keeps-respond b text s v = elim (Bool-cases (leb (length text) rsp_size)) [
    | inl e ↦ rw (e) (with_queued (with_built v (ground (arith, e))))
    | inr e ↦ rw (e) tt
  ]

  pub Keeps-ok : (b : ℕ) → Keeps {W = W} b b gdb_server_reply_ok
  unfolding gdb_server_reply_ok
  Keeps-ok b = Keeps-respond b _

  pub Keeps-gdb_server_reply_err : (b err : ℕ) → Keeps {W = W} b b (gdb_server_reply_err err)
  unfolding gdb_server_reply_err
  Keeps-gdb_server_reply_err b err = Keeps-respond b _

  pub Keeps-store : (b : ℕ) (bytes : List ℕ) → Keeps {W = W} b b (store bytes)
  unfolding Keeps After store
  Keeps-store b bytes s v = elim (Option-cases (write_at 0 bytes s.mem_buffer)) [
    | inl e ↦ rw (◌>>=◌, e) tt
    | inr (new, e) ↦
        rw (◌>>=◌, e) (with_buffer v (length-write_at 0 bytes s.mem_buffer new e ∙ v.buffer))
  ]

  pub Keeps-clamp_len : (b : ℕ) → Keeps {W = W} b (buff_size + 1) clamp_len
  unfolding Keeps After clamp_len
  Keeps-clamp_len b s v = with_len v (omega arith)

  pub Keeps-scan_range :
      (b : ℕ) (cmd : Packet) → b ≤ 2 ^ 32 → Keeps {W = W} b (2 ^ 32) (scan_range cmd)
  unfolding scan_range Keeps After
  Keeps-scan_range b cmd h s v = elim (Option-cases (after_char b',' (drop 1 cmd.data'))) [
    | inl e ↦ rw (◌>>=◌, e) tt
    | inr (p, e) ↦
        rw (◌>>=◌, e)
          (with_len
            (with_addr v
              (set_low-lt _ s.mem_addr (scan_one-lt (drop 1 cmd.data') _ (omega arith)) v.addr))
            (scan_one-lt p s.mem_len (omega (arith, v.len, h))))
  ]

  pub Keeps-scan_both :
      (b : ℕ) (cmd : Packet) → b ≤ 2 ^ 32 → Keeps {W = W} b (2 ^ 32) (scan_both cmd)
  unfolding scan_both Keeps After
  Keeps-scan_both b cmd h s v =
      with_len
        (with_addr v
          (set_low-lt _ s.mem_addr (scan_field-lt 2 (drop 1 cmd.data') 0 _ (omega arith)) v.addr))
        (scan_field-lt 2 (drop 1 cmd.data') 1 s.mem_len (omega (arith, v.len, h)))

  pub Keeps-scan_breakpoint : (b : ℕ) (cmd : Packet) → Keeps {W = W} b b (scan_breakpoint cmd)
  unfolding scan_breakpoint Keeps After
  Keeps-scan_breakpoint b cmd s v = with_point v (
      set_low-lt _ s.breakpoint_addr (scan_field-lt 3 (drop 1 cmd.data') 1 _ (omega arith)) v.point)

  pub Keeps-scan_number_of : (b : ℕ) (cmd : Packet) → Keeps {W = W} b b (scan_number_of cmd)
  unfolding scan_number_of Keeps After
  Keeps-scan_number_of b cmd s v = v

pub ruleset kept = (
  link, change, look, have, Keeps-skip, Keeps-on_target, Keeps-if, Keeps-send, Keeps-respond,
  Keeps-ok, Keeps-gdb_server_target_run, Keeps-gdb_server_reply_err, Keeps-store,
  Keeps-scan_breakpoint, Keeps-scan_number_of,
)

module _ (W : Type 0) where
  pub Keeps-send_registers :
      (b mxl n : ℕ) (ws : List ℕ) → Keeps {W = W} b b (send_registers mxl n ws)
  unfolding send_registers
  Keeps-send_registers b mxl n ws = search kept
