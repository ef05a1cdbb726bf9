-- ===== src/Serial.antt =====
-- soc/gd32vf103/*/usb-serial.c, the same for both boards: the bytes of the target's UART go to the host
-- through port 1, a line or a packet at a time.
pub mod Forward
mod Tests
use mathlib.Core.Option
use nuclei_dlink.Base.{
  ℕ, ◌+◌, ◌-◌, ◌%◌, ◌^◌, Bool, true, false, ◌||◌, Option, none, some, List, [], ◌∷◌, take, get_or,
  leb, ◌==◌, if◌then◌else◌, write_at,
}
use nuclei_dlink.Base.Action.{Action, gets, modify, given, ◌>>=◌, ◌>>◌, skip}
use nuclei_dlink.Usb.{Core, cdc1_data}

-- `CDC_ACM_DATA_PACKET_SIZE`.
abbrev pub packet_size : ℕ
packet_size = 64

-- `index` and `cache` of the handler, `cdc1_packet_sent`, and the USB core.
pub record Bridge (W : Type 0) : Type 0 where
  pub index : ℕ
  pub cache : List ℕ
  pub cdc1_packet_sent : Bool
  pub core : W

module _ {W : Type 0} (core : Core W) where
  pub send_cache : Action (Bridge W) (Unit {0})
  send_cache = modify (λ s. record s {
    cdc1_packet_sent = false;
    core = core.ep_send cdc1_data (take s.index s.cache) s.core;
    index = 0;
  })

  pub receive : ℕ → Action (Bridge W) (Unit {0})
  receive byte = do
    i ← gets (λ s. s.index)
    old ← gets (λ s. s.cache)
    new ← given (write_at i (byte ∷ []) old)
    modify (λ s. record s { cache = new; index = (i + 1) % 2 ^ 8 })
    n ← gets (λ s. s.index)
    last ← gets (λ s. get_or s.cache (s.index - 1) 0)
    if leb packet_size n || last == 10 then send_cache else skip

  -- The interrupt, with the byte that is in the receive register, if there is one.
  pub usart0_irq_handler : Option ℕ → Action (Bridge W) (Unit {0})
  usart0_irq_handler none = skip
  usart0_irq_handler (some byte) = receive byte

  -- One interrupt after the other.
  pub interrupts : List (Option ℕ) → Action (Bridge W) (Unit {0})
  interrupts [] = skip
  interrupts (byte ∷ bytes) = usart0_irq_handler byte >> interrupts bytes
