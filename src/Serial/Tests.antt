-- ===== src/Serial/Tests.antt =====
-- A line and a half from the UART.
use nuclei_dlink.Base.{
  ℕ, ◌<◌, ◌≡◌, refl, true, none, some, List, [], ◌∷◌, ◌++◌, All, take, replicate,
}
use nuclei_dlink.Usb.{Core}
use nuclei_dlink.Serial.{Bridge, packet_size, interrupts}
use nuclei_dlink.Serial.Forward.{received, joined, IsLine, IsPacket, interrupts-forward}

-- A core that remembers what it was given to send.
abbrev log : Core (List (List ℕ))
log = record {
  ep_setup_in = λ ep w. w;
  ep_setup_out = λ ep w. w;
  ep_clear_in = λ ep w. w;
  ep_clear_out = λ ep w. w;
  ep_send = λ ep p w. w ++ p ∷ [];
  xfer_len = λ ep w. 0;
  max_len = λ ep w. 64;
  rxcount_get = λ ep w. 0;
  usart_disable = λ w. w;
  usart_baudrate_set = λ n w. w;
  usart_word_length_set = λ n w. w;
  usart_stop_bit_set = λ n w. w;
  usart_parity_config = λ n w. w;
  usart_enable = λ w. w;
}

abbrev idle : Bridge (List (List ℕ))
idle = record { index = 0; cache = replicate 64 0; cdc1_packet_sent = true; core = [] }

interrupts-forward_example :
    (s' : Bridge (List (List ℕ))) × (packets : List (List ℕ)) × (interrupts log
        (some 72 ∷ none ∷ some 10 ∷ some 73 ∷ [])
        idle
      ≡ some (tt, s'))
    × (s'.core ≡ [] ++ packets)
    × (joined packets ++ take s'.index s'.cache
        ≡ received (some 72 ∷ none ∷ some 10 ∷ some 73 ∷ []))
    × All IsPacket packets
    × (s'.index < packet_size)
    × IsLine (take s'.index s'.cache)
interrupts-forward_example =
    interrupts-forward log (λ w. w) (λ p w. refl) (some 72 ∷ none ∷ some 10 ∷ some 73 ∷ []) idle
      refl refl
