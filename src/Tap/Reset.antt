-- ===== src/Tap/Reset.antt =====
-- `rv_tap_reset` of riscv-tap.c: from whatever state the target is in.
use nuclei_dlink.Base.{ℕ, zero, suc, ◌≤◌, ◌≡◌, refl, ap, ◌∙◌, true, false, arith}
use nuclei_dlink.Tap.{Port, tap_reset}
use nuclei_dlink.Tap.Controller.{State, reset, idle, scan, select, shift, update, next}
use nuclei_dlink.Tap.Bench.{
  Target, Bench, board, IsPort, clock, clocks, rise, at_fall, tick-port, ticks-port,
}

-- The controller alone, with TMS high.
abbrev held : ℕ → State → State
held zero s = s
held (suc n) s = held n (next true s)

held_five : (s : State) → held 5 s ≡ reset
held_five reset = refl
held_five idle = refl
held_five (scan false select) = refl
held_five (scan true select) = refl
held_five (scan false _) = refl
held_five (scan true _) = refl

held_reset : (n : ℕ) → held n reset ≡ reset
held_reset zero = refl
held_reset (suc n) = held_reset n

state_fall : (s : State) (t : Target) → (at_fall s t).state ≡ t.state
state_fall reset t = refl
state_fall idle t = refl
state_fall (scan false shift) t = refl
state_fall (scan true shift) t = refl
state_fall (scan false update) t = refl
state_fall (scan true update) t = refl
state_fall (scan false _) t = refl
state_fall (scan true _) t = refl

state-clock : (tdi : ℕ) (t : Target) → (clock 1 tdi t).state ≡ next true t.state
state-clock tdi t = state_fall (next true t.state) (rise 1 tdi t)

state-clocks : (n tdi : ℕ) (t : Target) → (clocks n 1 tdi t).state ≡ held n t.state
state-clocks zero tdi t = refl
state-clocks (suc n) tdi t = state-clocks n tdi (clock 1 tdi t) ∙ ap (held n) (state-clock tdi t)

-- Five clocks with TMS high, and more.
held_enough : (n : ℕ) (s : State) → 5 ≤ n → held n s ≡ reset
held_enough (suc (suc (suc (suc (suc n))))) s h = ap (held n) (held_five s) ∙ held_reset n
held_enough zero s h = absurd (omega arith)
held_enough (suc _) s h = absurd (omega arith)

idle_after : (t : Target) → t.state ≡ reset → (clock 0 1 t).state ≡ idle
idle_after t h = state_fall (next false t.state) (rise 0 1 t) ∙ ap (next false) h

-- On four wires, a reset of at least five clocks takes the controller to Run-Test/Idle from every
-- state, also from the middle of a scan.
pub tap_reset-idle :
    (len : ℕ) (p : Port Bench) (t : Target)
    → IsPort p t
    → 5 ≤ len
    → (t' : Target) × IsPort (tap_reset board len p) t' × (t'.state ≡ idle)
unfolding tap_reset
tap_reset-idle len p t h enough = (
  clock 0 1 (clocks len 1 1 t),
  (tick-port 0 1 _ (ticks-port len 1 1 p h)).1,
  idle_after (clocks len 1 1 t) (state-clocks len 1 t ∙ held_enough len t.state enough),
)
