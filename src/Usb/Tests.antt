-- ===== src/Usb/Tests.antt =====
-- cdc_acm_core.c on a concrete core.
use nuclei_dlink.Base.{ℕ, suc, ◌*◌, ◌≢◌, ◌≡◌, refl, true, false, some, [], ◌∷◌, ◌++◌, length}
use nuclei_dlink.Base.Action.{◌>>◌}
use nuclei_dlink.Usb.{
  Core, Cdc, LineCoding, usbd_ok, cdc0_data, coding_bytes, cdc_acm_data_in_handler,
}
use nuclei_dlink.Usb.Coding.{Uart}
use nuclei_dlink.Usb.Transfer.{transfer_sent}

-- A core that knows the length of the last transfer.
abbrev counting : Core ℕ
counting = record {
  ep_setup_in = λ ep w. w;
  ep_setup_out = λ ep w. w;
  ep_clear_in = λ ep w. w;
  ep_clear_out = λ ep w. w;
  ep_send = λ ep p w. length p;
  xfer_len = λ ep w. w;
  max_len = λ ep w. 64;
  rxcount_get = λ ep w. 0;
  usart_disable = λ w. w;
  usart_baudrate_set = λ n w. w;
  usart_word_length_set = λ n w. w;
  usart_stop_bit_set = λ n w. w;
  usart_parity_config = λ n w. w;
  usart_enable = λ w. w;
}

abbrev off : Uart
off = record { enabled = false; baudrate = 0; word_length = 0; stop_bit = 0; parity = 0 }

abbrev coding : LineCoding
coding = record { rate = 921_600; char_format = 0; parity_type = 2; data_bits = 8 }

abbrev port : Cdc (ℕ × Uart)
port = record {
  cdc_cmd = true;
  usb_cmd_buffer = coding_bytes coding ++ 0 ∷ [];
  cdc0_packet_sent = false;
  cdc0_packet_receive = true;
  cdc0_receive_length = 0;
  cdc1_packet_sent = true;
  cdc1_packet_receive = true;
  cdc1_receive_length = 0;
  linecoding = record { rate = 115_200; char_format = 0; parity_type = 0; data_bits = 8 };
  out_remain_len = 7;
  in_remain_len = 0;
  core = (128, off);
}

abbrev sending : Cdc ℕ
sending = record {
  cdc_cmd = false;
  usb_cmd_buffer = [];
  cdc0_packet_sent = false;
  cdc0_packet_receive = true;
  cdc0_receive_length = 0;
  cdc1_packet_sent = true;
  cdc1_packet_receive = true;
  cdc1_receive_length = 0;
  linecoding = coding;
  out_remain_len = 0;
  in_remain_len = 0;
  core = 128;
}

transfer_sent_example :
    (s' : Cdc ℕ) × ((cdc_acm_data_in_handler counting cdc0_data
          >> cdc_acm_data_in_handler counting cdc0_data)
        sending
      ≡ some (usbd_ok, s'))
    × (s'.cdc0_packet_sent ≡ true)
    × ((n : ℕ) → 128 ≡ 64 * suc n → s'.core ≡ 0)
    × (((n : ℕ) → 128 ≢ 64 * suc n) → s'.core ≡ 128)
transfer_sent_example = transfer_sent counting (λ ep bytes w. refl) sending refl
