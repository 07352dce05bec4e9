-- ===== src/TextParse/Tests.antt =====
-- Runs of TBParse on concrete buffers.
use kendryte_k210_base_proje.Prelude.{
  ℕ, none, List, ◌+◌, ◌*◌, ◌-◌, ◌^◌, ◌≡◌, refl, true, false, some, [], ◌∷◌, drop, take, ◌++◌, arith,
}
use kendryte_k210_base_proje.Memory.{seg}
use kendryte_k210_base_proje.TextParse.{
  prefix_matched, prefix_completed, TextParser, next_message, scan, round,
}
use kendryte_k210_base_proje.TextParse.Prefix.{
  Esp8266, not_passed, ending, digits_value, esp8266_prefix, null_prefix, Standart, standart_prefix,
  feed,
}
use kendryte_k210_base_proje.TextParse.Inv.{IsSound}
use kendryte_k210_base_proje.TextParse.{append}
use kendryte_k210_base_proje.TextParse.Esp8266.{opening, digit, no_digit, feed-esp8266}
use kendryte_k210_base_proje.TextParse.Append.{unread, room, append-unread}
use kendryte_k210_base_proje.TextParse.Timeout.{next_message-append_expired}
use kendryte_k210_base_proje.TextParse.Lines.{empty, character, next_message-line}
use kendryte_k210_base_proje.TextParse.Standart.{feed-standart}

-- "OK\r\n" in a buffer of 8 bytes, of which 5 are filled
abbrev received : TextParser (Unit {0})
received = record {
  buffer = 79 ∷ 75 ∷ 13 ∷ 10 ∷ 65 ∷ 0 ∷ 0 ∷ 0 ∷ [];
  buffer_size = 8;
  buffer_pos = 0;
  buffer_amount = 5;
  bin_message_size = 0;
  timeout_us = 0;
  last_append_time = 0;
  parser = tt;
}

received-IsSound : IsSound received
received-IsSound = record {
  storage = refl;
  small = omega arith;
  pos_in = omega arith;
  amount_in = omega arith;
  packet_small = omega arith;
}

-- a line end, then a packet of two bytes, and one byte more
abbrev framed : TextParser Standart
framed = record {
  buffer = 13 ∷ 0 ∷ 1 ∷ 2 ∷ 0 ∷ 65 ∷ 66 ∷ 67 ∷ [];
  buffer_size = 8;
  buffer_pos = 0;
  buffer_amount = 8;
  bin_message_size = 0;
  timeout_us = 0;
  last_append_time = 0;
  parser = record { data_size = 0; found_idx = 0 };
}

framed_run :
    next_message standart_prefix framed
    ≡ some (
      record { is_text = false; size = 2; at = some 5 },
      record framed {
        buffer = 0 ∷ 0 ∷ 1 ∷ 2 ∷ 0 ∷ 65 ∷ 66 ∷ 67 ∷ [];
        buffer_pos = 7;
        parser = record { data_size = 2; found_idx = 0 };
      },
    )
unfolding next_message scan round standart_prefix
framed_run = refl

-- "+IPD,0,-5:" announces 2 ^ 32 - 5 bytes, and the read position goes back by five
abbrev negative : TextParser Esp8266
negative = record {
  buffer = 43 ∷ 73 ∷ 80 ∷ 68 ∷ 44 ∷ 48 ∷ 44 ∷ 45 ∷ 53 ∷ 58 ∷ [];
  buffer_size = 10;
  buffer_pos = 0;
  buffer_amount = 10;
  bin_message_size = 0;
  timeout_us = 0;
  last_append_time = 0;
  parser = record {
    state = not_passed;
    offset = 0;
    num_buf = 0 ∷ 0 ∷ 0 ∷ 0 ∷ 0 ∷ 0 ∷ 0 ∷ 0 ∷ [];
    link_id = 0;
    packet_size = 0;
  };
}

negative_run :
    next_message esp8266_prefix negative
    ≡ some (
      record { is_text = false; size = 2 ^ 32 - 5; at = some 10 },
      record negative {
        buffer_pos = 5;
        parser = record {
          state = ending;
          offset = 2;
          num_buf = 45 ∷ 53 ∷ 0 ∷ 0 ∷ 0 ∷ 0 ∷ 0 ∷ 0 ∷ [];
          link_id = 0;
          packet_size = 2 ^ 32 - 5;
        };
      },
    )
unfolding next_message scan round esp8266_prefix
negative_run = refl

next_message-line_example :
    (q : TextParser (Unit {0})) × (next_message null_prefix received
      ≡ some (record { is_text = true; size = 2; at = some 0 }, q))
    × (seg q.buffer 0 2 ≡ 79 ∷ 75 ∷ [])
    × (q.buffer_pos ≡ 3)
    × (q.buffer_amount ≡ 5)
    × (drop q.buffer_pos q.buffer ≡ 10 ∷ 65 ∷ 0 ∷ 0 ∷ 0 ∷ [])
next_message-line_example =
    next_message-line null_prefix (λ s c first. refl) received (79 ∷ 75 ∷ []) 13
      (10 ∷ 65 ∷ 0 ∷ 0 ∷ 0 ∷ []) received-IsSound refl refl (character refl (character refl empty))
      (omega arith) refl (omega arith)

abbrev used_parser : Standart
used_parser = record { data_size = 77; found_idx = 2 }

feed-standart_example :
    ((feed standart_prefix used_parser (0 ∷ 1 ∷ 5 ∷ [])).0 ≡ prefix_matched)
    × (r : Standart) × (feed standart_prefix used_parser (0 ∷ 1 ∷ 5 ∷ 2 ∷ [])
        ≡ (prefix_completed, r))
    × (standart_prefix.packet_size r ≡ 5 + 256 * 2)
feed-standart_example = feed-standart used_parser 5 2 (omega arith) (omega arith)

-- four more bytes, of which three fit
abbrev four : List ℕ
four = 66 ∷ 67 ∷ 68 ∷ 69 ∷ []

append-unread_example :
    (q : TextParser (Unit {0})) × (append received 100 four 4 ≡ some q)
    × IsSound q
    × (unread q ≡ unread received ++ take (room received 4) four)
    × (q.buffer_pos ≡ 0)
append-unread_example =
    append-unread received 100 four 4 received-IsSound refl (omega arith) (omega arith)
      (omega arith)

-- the line was taken, the rest not, and then nothing came for two milliseconds
abbrev late : TextParser (Unit {0})
late = record received { buffer_pos = 3; timeout_us = 1000; last_append_time = 10 }

late-IsSound : IsSound late
late-IsSound = record {
  storage = refl;
  small = omega arith;
  pos_in = omega arith;
  amount_in = omega arith;
  packet_small = omega arith;
}

next_message-append_expired_example :
    (q : TextParser (Unit {0})) × (append late 2010 (66 ∷ []) 1 ≡ some q)
    × (next_message null_prefix q ≡ none)
next_message-append_expired_example =
    next_message-append_expired null_prefix late 2010 (66 ∷ []) 1 late-IsSound refl refl
      (omega arith) (omega arith) (omega arith)

-- "+IPD,0,12:"
abbrev idle_parser : Esp8266
idle_parser = record {
  state = not_passed;
  offset = 3;
  num_buf = 9 ∷ 9 ∷ 9 ∷ 9 ∷ 9 ∷ 9 ∷ 9 ∷ 9 ∷ [];
  link_id = 5;
  packet_size = 6;
}

feed-esp8266_example :
    (r : Esp8266) × (feed esp8266_prefix idle_parser
        (opening ++ ((48 ∷ []) ++ 44 ∷ ((49 ∷ 50 ∷ []) ++ 58 ∷ [])))
      ≡ (prefix_completed, r))
    × (r.link_id ≡ digits_value 0 (48 ∷ []))
    × (esp8266_prefix.packet_size r ≡ digits_value 0 (49 ∷ 50 ∷ []))
feed-esp8266_example =
    feed-esp8266 idle_parser (48 ∷ []) (49 ∷ 50 ∷ []) refl (digit refl no_digit)
      (digit refl (digit refl no_digit)) (omega arith) (omega arith)
