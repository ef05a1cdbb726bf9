-- ===== src/Tap/Bench.antt =====
-- A target on the pins of the port, as IEEE 1149.1 has it: the controller moves and the chain
-- shifts on the rising edge of TCK, TDO and the update come on the falling edge.
use nuclei_dlink.Base.{
  arith, zero, suc, ℕ, ◌==◌, true, false, if◌then◌else◌, List, [], ◌∷◌, ◌++◌, ◌&&◌, not, get_or,
  ◌≡◌, refl, drop,
}
use nuclei_dlink.Tap.{Pins, Port, tick_jtag, tick, ticks}
use nuclei_dlink.Tap.Controller.{State, reset, idle, scan, capture, shift, update, next}

-- `chain` is the register in the scan path, the bit next to TDO first; `dr` and `ir` are the
-- registers that a capture loads and an update writes.
pub record Target : Type 0 where
  pub state : State
  pub chain : List ℕ
  pub dr : List ℕ
  pub ir : List ℕ
  pub tdo : ℕ

pub record Bench : Type 0 where
  pub target : Target
  pub tck : ℕ
  pub tms : ℕ
  pub tdi : ℕ

-- What the phase that the controller is in does at a rising edge.
abbrev pub at_rise : State → ℕ → Target → Target
at_rise (scan false capture) tdi t = record t { chain = t.dr }
at_rise (scan true capture) tdi t = record t { chain = t.ir }
at_rise (scan ir shift) tdi t = record t { chain = drop 1 t.chain ++ (tdi ∷ []) }
at_rise _ tdi t = t

abbrev pub at_fall : State → Target → Target
at_fall (scan ir shift) t = record t { tdo = get_or t.chain 0 0 }
at_fall (scan false update) t = record t { dr = t.chain }
at_fall (scan true update) t = record t { ir = t.chain }
at_fall _ t = t

abbrev pub rise : ℕ → ℕ → Target → Target
rise tms tdi t = record (at_rise t.state tdi t) { state = next (not (tms == 0)) t.state }

abbrev pub fall : Target → Target
fall t = at_fall t.state t

-- One whole clock.
abbrev pub clock : ℕ → ℕ → Target → Target
clock tms tdi t = fall (rise tms tdi t)

abbrev put_tck : ℕ → Bench → Bench
put_tck level b =
    if (b.tck == 0) && not (level == 0)
    then record b { target = rise b.tms b.tdi b.target; tck = level }
    else if not (b.tck == 0) && (level == 0)
    then record b { target = fall b.target; tck = level }
    else record b { tck = level }

-- The board: the four pins, each at a level. TMS is never an input of the board on four wires.
abbrev pub board : Pins Bench
board = record {
  init = λ b. b;
  fini = λ b. b;
  tck_put = put_tck;
  tms_put = λ level b. record b { tms = level };
  tdi_put = λ level b. record b { tdi = level };
  tms_mode = λ out tms b. b;
  tdo_get = λ b. b.target.tdo;
  tms_get = λ b. b.tms;
}

-- The port on four wires with TCK low.
abbrev pub port : Target → ℕ → ℕ → Port Bench
port t tms tdi = record {
  oscan1_mode = false;
  wires = record { target = t; tck = 0; tms = tms; tdi = tdi };
}

-- A port on four wires, TCK low, with this target on it.
pub record IsPort (p : Port Bench) (t : Target) : Type 0 where
  pub four_wires : p.oscan1_mode ≡ false
  pub low : p.wires.tck ≡ 0
  pub target : p.wires.target ≡ t

tdo_rise : (s : State) (tdi : ℕ) (t : Target) → (at_rise s tdi t).tdo ≡ t.tdo
tdo_rise reset tdi t = refl
tdo_rise idle tdi t = refl
tdo_rise (scan false capture) tdi t = refl
tdo_rise (scan true capture) tdi t = refl
tdo_rise (scan false _) tdi t = refl
tdo_rise (scan true _) tdi t = refl

port_eta : (p : Port Bench) {t : Target} → IsPort p t → p ≡ port t p.wires.tms p.wires.tdi
port_eta p h = ground (arith, h.four_wires, h.low, h.target)

-- A tick of the port is a clock of the target, and reads what TDO was before it.
pub tick-port :
    (tms tdi : ℕ) (p : Port Bench) {t : Target}
    → IsPort p t
    → ((tick board tms tdi p).0 ≡ t.tdo) × IsPort (tick board tms tdi p).1 (clock tms tdi t)
tick-port tms tdi p {t} h = rw (port_eta p h) (read, written)
  where
    m : ℕ
    m = p.wires.tms

    d : ℕ
    d = p.wires.tdi

    read : (tick board tms tdi (port t m d)).0 ≡ t.tdo
    read = unfold tick tick_jtag in tdo_rise t.state tdi t

    written : IsPort (tick board tms tdi (port t m d)).1 (clock tms tdi t)
    written = unfold tick tick_jtag in record { four_wires = refl; low = refl; target = refl }

-- Several clocks at the same levels.
abbrev pub clocks : ℕ → ℕ → ℕ → Target → Target
clocks zero tms tdi t = t
clocks (suc n) tms tdi t = clocks n tms tdi (clock tms tdi t)

pub ticks-port :
    (n tms tdi : ℕ) (p : Port Bench) {t : Target}
    → IsPort p t
    → IsPort (ticks board n tms tdi p) (clocks n tms tdi t)
unfolding ticks
ticks-port zero tms tdi p h = h
ticks-port (suc n) tms tdi p h =
    ticks-port n tms tdi (tick board tms tdi p).1 (tick-port tms tdi p h).1
