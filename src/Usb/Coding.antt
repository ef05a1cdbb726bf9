-- ===== src/Usb/Coding.antt =====
-- The line coding of cdc_acm_core.c: what the host sets is what the UART is set to and what it reads back.
use nuclei_dlink.Base.{ℕ, Bool, true, false}
use nuclei_dlink.Usb.{Core, LineCoding}

-- The settings of a UART, which each of its functions sets one of.
pub record Uart : Type 0 where
  pub enabled : Bool
  pub baudrate : ℕ
  pub word_length : ℕ
  pub stop_bit : ℕ
  pub parity : ℕ

-- A core of the USB with a UART beside it.
abbrev pub with_uart : {V : Type 0} → Core V → Core (V × Uart)
with_uart core = record {
  ep_setup_in = λ ep w. (core.ep_setup_in ep w.0, w.1);
  ep_setup_out = λ ep w. (core.ep_setup_out ep w.0, w.1);
  ep_clear_in = λ ep w. (core.ep_clear_in ep w.0, w.1);
  ep_clear_out = λ ep w. (core.ep_clear_out ep w.0, w.1);
  ep_send = λ ep p w. (core.ep_send ep p w.0, w.1);
  xfer_len = λ ep w. core.xfer_len ep w.0;
  max_len = λ ep w. core.max_len ep w.0;
  rxcount_get = λ ep w. core.rxcount_get ep w.0;
  usart_disable = λ w. (w.0, record w.1 { enabled = false });
  usart_baudrate_set = λ n w. (w.0, record w.1 { baudrate = n });
  usart_word_length_set = λ n w. (w.0, record w.1 { word_length = n });
  usart_stop_bit_set = λ n w. (w.0, record w.1 { stop_bit = n });
  usart_parity_config = λ n w. (w.0, record w.1 { parity = n });
  usart_enable = λ w. (w.0, record w.1 { enabled = true });
}

-- The UART of a line coding: `char_format` is the number of its stop bits.
abbrev pub uart_of : LineCoding → Uart
uart_of c = record {
  enabled = true;
  baudrate = c.rate;
  word_length = c.data_bits;
  stop_bit = c.char_format;
  parity = c.parity_type;
}
