-- ===== src/Usb.antt =====
-- soc/gd32vf103/*/cdc_acm_core.c, the same for both boards: the class requests, the line coding and the
-- data endpoints of the two USB serial ports. Port 0 is the debugger's, port 1 is the target's console.
pub mod Coding
pub mod Transfer
mod Tests
use mathlib.Core.Option
use nuclei_dlink.Base.{
  ℕ, ◌+◌, ◌*◌, ◌/◌, ◌%◌, ◌^◌, bit_or, Bool, true, false, not, ◌&&◌, Option, none, some, List, [],
  ◌∷◌, ◌==◌, if◌then◌else◌, get_elem?, write_at,
}
use nuclei_dlink.Base.Action.{Action, pure, gets, modify, given, ◌>>=◌, ◌>>◌, skip}

-- An endpoint, without its direction.
pub data Endpoint : Type 0 where
  control : Endpoint
  cdc0_data : Endpoint
  cdc1_data : Endpoint
  other_endpoint : Endpoint

pub data Request : Type 0 where
  set_line_coding : Request
  get_line_coding : Request
  other_request : Request

pub data Status : Type 0 where
  usbd_ok : Status
  usbd_fail : Status

pub record LineCoding : Type 0 where
  pub rate : ℕ
  pub char_format : ℕ
  pub parity_type : ℕ
  pub data_bits : ℕ

-- What the functions use of the USB core and of the UART: the setting up and clearing of an endpoint's
-- two directions, a transfer to the host, the length and the packet size of the last one, the count of
-- what the host has sent, and the settings of the UART.
pub record Core (W : Type 0) : Type 0 where
  pub ep_setup_in : Endpoint → W → W
  pub ep_setup_out : Endpoint → W → W
  pub ep_clear_in : Endpoint → W → W
  pub ep_clear_out : Endpoint → W → W
  pub ep_send : Endpoint → List ℕ → W → W
  pub xfer_len : Endpoint → W → ℕ
  pub max_len : Endpoint → W → ℕ
  pub rxcount_get : Endpoint → W → ℕ
  pub usart_disable : W → W
  pub usart_baudrate_set : ℕ → W → W
  pub usart_word_length_set : ℕ → W → W
  pub usart_stop_bit_set : ℕ → W → W
  pub usart_parity_config : ℕ → W → W
  pub usart_enable : W → W

-- `cdc_cmd`, true for SET_LINE_CODING; `usb_cmd_buffer`; the flags and counts of the two ports;
-- `linecoding`; the lengths of the data stages that were asked for, out and in; the core and the UART.
pub record Cdc (W : Type 0) : Type 0 where
  pub cdc_cmd : Bool
  pub usb_cmd_buffer : List ℕ
  pub cdc0_packet_sent : Bool
  pub cdc0_packet_receive : Bool
  pub cdc0_receive_length : ℕ
  pub cdc1_packet_sent : Bool
  pub cdc1_packet_receive : Bool
  pub cdc1_receive_length : ℕ
  pub linecoding : LineCoding
  pub out_remain_len : ℕ
  pub in_remain_len : ℕ
  pub core : W

-- The bytes of a line coding, the lowest of the rate first.
pub coding_bytes : LineCoding → List ℕ
coding_bytes c =
    c.rate % 2 ^ 8
    ∷ c.rate / 2 ^ 8 % 2 ^ 8
    ∷ c.rate / 2 ^ 16 % 2 ^ 8
    ∷ c.rate / 2 ^ 24 % 2 ^ 8
    ∷ c.char_format
    ∷ c.parity_type
    ∷ c.data_bits
    ∷ []

-- The rate of four bytes.
pub join_rate : ℕ → ℕ → ℕ → ℕ → ℕ
join_rate b0 b1 b2 b3 =
    bit_or (bit_or (bit_or b0 (b1 * 2 ^ 8)) (b2 * 2 ^ 16)) (b3 * 2 ^ 24) % 2 ^ 32

pub parse_coding : List ℕ → Option LineCoding
parse_coding (b0 ∷ b1 ∷ b2 ∷ b3 ∷ format ∷ parity ∷ bits ∷ rest) = some (record {
  rate = join_rate b0 b1 b2 b3;
  char_format = format;
  parity_type = parity;
  data_bits = bits;
})
parse_coding buffer = none

module _ {W : Type 0} (core : Core W) where
  on_core : (W → W) → Action (Cdc W) (Unit {0})
  on_core f = modify (λ s. record s { core = f s.core })

  pub cdc_acm_init : Action (Cdc W) Status
  cdc_acm_init = do
    on_core (core.ep_setup_in cdc0_data)
    on_core (core.ep_setup_out cdc0_data)
    on_core (core.ep_setup_in cdc1_data)
    on_core (core.ep_setup_out cdc1_data)
    pure usbd_ok

  pub cdc_acm_deinit : Action (Cdc W) Status
  cdc_acm_deinit = do
    on_core (core.ep_clear_in cdc0_data)
    on_core (core.ep_clear_out cdc0_data)
    on_core (core.ep_clear_in cdc1_data)
    on_core (core.ep_clear_out cdc1_data)
    pure usbd_ok

  pub configure : LineCoding → W → W
  configure c w = core.usart_enable (
      core.usart_parity_config c.parity_type (
        core.usart_stop_bit_set c.char_format (
          core.usart_word_length_set c.data_bits
            (core.usart_baudrate_set c.rate (core.usart_disable w)))))

  -- The data of SET_LINE_CODING has come into the buffer.
  pub take_coding : Action (Cdc W) (Unit {0})
  take_coding = do
    coding ← gets (λ s. parse_coding s.usb_cmd_buffer)
    c ← given coding
    modify (λ s. record s { linecoding = c; cdc_cmd = false })
    on_core (configure c)

  pub cdc_acm_ep0_data_out_handler : Action (Cdc W) Status
  cdc_acm_ep0_data_out_handler = do
    pending ← gets (λ s. s.cdc_cmd)
    if pending then take_coding else skip
    pure usbd_ok

  -- The control endpoint fails after its handler too.
  pub cdc_acm_data_out_handler : Endpoint → Action (Cdc W) Status
  cdc_acm_data_out_handler control = do status ← cdc_acm_ep0_data_out_handler; pure usbd_fail
  cdc_acm_data_out_handler cdc0_data = do
    modify (λ s. record s {
      cdc0_packet_receive = true;
      cdc0_receive_length = core.rxcount_get cdc0_data s.core;
    })
    pure usbd_ok
  cdc_acm_data_out_handler cdc1_data = do
    modify (λ s. record s {
      cdc1_packet_receive = true;
      cdc1_receive_length = core.rxcount_get cdc1_data s.core;
    })
    pure usbd_ok
  cdc_acm_data_out_handler other_endpoint = pure usbd_fail

  -- The last transfer filled its packets: the host waits for another one.
  pub is_full : Endpoint → W → Bool
  is_full ep w = (core.xfer_len ep w % core.max_len ep w == 0) && not (core.xfer_len ep w == 0)

  pub cdc_acm_data_in_handler : Endpoint → Action (Cdc W) Status
  cdc_acm_data_in_handler cdc0_data = do
    full ← gets (λ s. is_full cdc0_data s.core)
    if full
        then on_core (core.ep_send cdc0_data [])
        else modify (λ s. record s { cdc0_packet_sent = true })
    pure usbd_ok
  cdc_acm_data_in_handler cdc1_data = do
    full ← gets (λ s. is_full cdc1_data s.core)
    if full
        then on_core (core.ep_send cdc1_data [])
        else modify (λ s. record s { cdc1_packet_sent = true })
    pure usbd_ok
  cdc_acm_data_in_handler control = pure usbd_fail
  cdc_acm_data_in_handler other_endpoint = pure usbd_fail

module _ {W : Type 0} where
  pub store_coding : Action (Cdc W) (Unit {0})
  store_coding = do
    c ← gets (λ s. s.linecoding)
    old ← gets (λ s. s.usb_cmd_buffer)
    new ← given (write_at 0 (coding_bytes c) old)
    modify (λ s. record s { usb_cmd_buffer = new })

  -- A request, with the length of its data stage.
  pub cdc_acm_req_handler : Request → ℕ → Action (Cdc W) Status
  cdc_acm_req_handler set_line_coding len = do
    modify (λ s. record s { cdc_cmd = true; out_remain_len = len })
    pure usbd_ok
  cdc_acm_req_handler get_line_coding len = do
    store_coding
    modify (λ s. record s { in_remain_len = len })
    pure usbd_ok
  cdc_acm_req_handler other_request len = pure usbd_ok
