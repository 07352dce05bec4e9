-- ===== src/BinParse/Tests.antt =====
-- Runs of TBinParse on concrete buffers.
use kendryte_k210_base_proje.Prelude.{
  ℕ, ◌-◌, ◌^◌, ◌<◌, ◌≡◌, refl, Bool, true, false, none, some, List, [], ◌∷◌, ◌++◌, replicate,
  Returns, arith, ltb, ltb→lt, ◌&&◌, ◌↔◌,
}
use kendryte_k210_base_proje.Memory.{load, memcpy}
use kendryte_k210_base_proje.Bytes.{Octets}
use kendryte_k210_base_proje.BinParse.{
  BinParser, init, fill_header, parse_header, append, next_message,
}
use kendryte_k210_base_proje.BinParse.Header.{announced, parse_header-fill_header, parse_header_iff}
use kendryte_k210_base_proje.BinParse.Inv.{IsValid, frame, header_bytes, rest, unread}
use kendryte_k210_base_proje.BinParse.Outcome.{Ends}
use kendryte_k210_base_proje.BinParse.Next.{next_message_lem}
use kendryte_k210_base_proje.BinParse.Stream.{next_message-frame}
use kendryte_k210_base_proje.BinParse.Run.{
  World, Reach, InOrder, fresh, here, next, append_step, Reach-InOrder,
}
use kendryte_k210_base_proje.BinParse.Oversized.{next_message_oversized}

all_octets : List ℕ → Bool
all_octets [] = true
all_octets (b ∷ bs) = ltb b 256 && all_octets bs

both_true : (a b : Bool) → (a && b) ≡ true → (a ≡ true) × (b ≡ true)
both_true true b h = (refl, h)
both_true false true h = (h, refl)
both_true false false h = (h, h)

all_octets-Octets : (bs : List ℕ) → all_octets bs ≡ true → Octets bs
unfolding all_octets
all_octets-Octets [] h = tt
all_octets-Octets (b ∷ bs) h =
    let (small, others) = both_true (ltb b 256) (all_octets bs) h in
    (ltb→lt b 256 small, all_octets-Octets bs others)

-- command 0x1234 with the bytes 1, 2, 3
abbrev message_bytes : List ℕ
message_bytes = 0x03 ∷ 0 ∷ 0 ∷ 0 ∷ 0x34 ∷ 0x12 ∷ 0xC8 ∷ 0xED ∷ 1 ∷ 2 ∷ 3 ∷ []

abbrev zeros_24 : List ℕ
zeros_24 = replicate 24 0

abbrev waiting : BinParser
waiting = record {
  buffer = message_bytes ++ replicate 13 0;
  buffer_size = 24;
  buffer_pos = 0;
  buffer_amount = 11;
  bin_message_size = 0;
  bin_message_command = 0;
  parse_failed = false;
}

waiting-IsValid : IsValid waiting
unfolding all_octets
waiting-IsValid = record {
  storage = refl;
  small = omega arith;
  pos_in = omega arith;
  amount_in = omega arith;
  message_in = omega arith;
  command_in = omega arith;
  octets = all_octets-Octets waiting.buffer refl;
}

unread-waiting : unread waiting ≡ frame 0x1234 (1 ∷ 2 ∷ 3 ∷ []) ++ []
unfolding frame header_bytes fill_header
unread-waiting = refl

parse_header-fill_header_example :
    parse_header waiting (fill_header 0x1234 3) ≡ (true, announced waiting 0x1234 3)
parse_header-fill_header_example =
    parse_header-fill_header waiting 0x1234 3 (omega arith) (omega arith)

parse_header_iff_example : ((parse_header waiting 0xEDC8123400000003).0 ≡ true) ↔ (
    (id : ℕ) × (size : ℕ) × (id < 2 ^ 16)
    × (size < 2 ^ 32)
    × (0xEDC8123400000003 ≡ fill_header id size))
parse_header_iff_example = parse_header_iff waiting 0xEDC8123400000003 (omega arith)

next_message_lem_example : Returns (next_message waiting) (Ends waiting)
next_message_lem_example = next_message_lem {p = waiting} waiting-IsValid refl (omega arith)

next_message-frame_example : Returns (next_message waiting) (λ (m, q).
    (m.command ≡ 0x1234)
    × (m.size ≡ 3)
    × ((start : ℕ) × (m.at ≡ some start) × (load q.buffer start m.size ≡ some (1 ∷ 2 ∷ 3 ∷ [])))
    × (unread q ≡ [])
    × IsValid q
    × (q.parse_failed ≡ false))
next_message-frame_example =
    next_message-frame {p = waiting} {id = 0x1234} {payload = 1 ∷ 2 ∷ 3 ∷ []} [] waiting-IsValid
      refl (record { id_in = omega arith; size_in = omega arith }) unread-waiting

-- a run: the message arrives, and is returned
abbrev arrived : World
arrived = record { parser = waiting; sent = message_bytes; got = [] }

arrived_run : Reach (fresh zeros_24 24) arrived
unfolding init append memcpy all_octets
arrived_run =
    let put_in : append (fresh zeros_24 24).parser message_bytes 11 ≡ some waiting = refl in
    next {t = fresh zeros_24 24} here (
      append_step {w = fresh zeros_24 24} {q = waiting} message_bytes
        (all_octets-Octets message_bytes refl) (omega arith) put_in)

Reach-InOrder_example : InOrder arrived
unfolding all_octets
Reach-InOrder_example =
    Reach-InOrder zeros_24 24 {w = arrived} refl (omega arith) (all_octets-Octets zeros_24 refl)
      arrived_run

-- the header of a message of 2 ^ 32 - 4 bytes
abbrev huge_header : List ℕ
huge_header = 0xFC ∷ 0xFF ∷ 0xFF ∷ 0xFF ∷ 0x01 ∷ 0x00 ∷ 0xFD ∷ 0xFF ∷ []

abbrev huge : BinParser
huge = record {
  buffer = huge_header ++ replicate 16 0;
  buffer_size = 24;
  buffer_pos = 0;
  buffer_amount = 8;
  bin_message_size = 0;
  bin_message_command = 0;
  parse_failed = false;
}

huge-IsValid : IsValid huge
unfolding all_octets
huge-IsValid = record {
  storage = refl;
  small = omega arith;
  pos_in = omega arith;
  amount_in = omega arith;
  message_in = omega arith;
  command_in = omega arith;
  octets = all_octets-Octets huge.buffer refl;
}

huge_rest : rest huge ≡ header_bytes 1 (2 ^ 32 - 4) ++ []
unfolding header_bytes fill_header
huge_rest = refl

next_message_oversized_example : Returns (next_message huge) (λ (m, q).
    (m.command ≡ 1) × (m.size ≡ 2 ^ 32 - 4) × (m.at ≡ some 8) × (load q.buffer 8 m.size ≡ none))
next_message_oversized_example =
    next_message_oversized {p = huge} 1 (2 ^ 32 - 4) [] huge-IsValid refl refl (omega arith)
      (omega arith) (omega arith) huge_rest
