-- ===== src/BinParse/Steps.antt =====
-- TBinParse::NextMessage on every branch.
use kendryte_k210_base_proje.Prelude.{
  ℕ, ◌+◌, ◌-◌, ◌^◌, ◌≤◌, ◌<◌, ◌≡◌, refl, sym, ap, ap₂, ◌∙◌, List, ◌++◌, length, arith, le→leb,
  lt→leb_false, add32, sub32, some, append_assoc, drop,
}
use kendryte_k210_base_proje.Bytes.{All-put, All-take, All-drop}
use kendryte_k210_base_proje.Memory.{
  seg, put, load, load_lem, memcpy_lem, length-seg, length-put, seg-put_self, seg-add,
}
use kendryte_k210_base_proje.BinParse.{BinParser, BinMessage, no_message, header_passed, compact}
use kendryte_k210_base_proje.BinParse.Inv.{IsValid, header_bytes, frame, rest, unread, length-rest}

-- A message was returned: its bytes can be read at its pointer, and with its header they are the
-- front of what was there to parse.
pub record Delivers (before : List ℕ) (m : BinMessage) (q : BinParser) : Type 0 where
  pub start : ℕ
  pub payload : List ℕ
  pub data_at : m.at ≡ some start
  pub size_is : m.size ≡ length payload
  pub size_in : m.size ≤ q.buffer_size
  pub command_in : m.command < 2 ^ 16
  pub readable : load q.buffer start m.size ≡ some payload
  pub in_order : before ≡ frame m.command payload ++ unread q

-- the parser after the move of the incomplete message
abbrev pub compacted : BinParser → BinParser
compacted p = record p {
  buffer = put p.buffer 0 (rest p);
  buffer_amount = p.buffer_amount - p.buffer_pos;
  buffer_pos = 0;
}

module _ {p : BinParser} (v : IsValid p) where
  pub compact_lem : compact p ≡ some (no_message, compacted p)
  unfolding compact
  compact_lem =
      let n : ℕ = p.buffer_amount - p.buffer_pos in
      let e : sub32 p.buffer_amount p.buffer_pos ≡ n =
        omega (arith, v.small, v.pos_in, v.amount_in) in
      let move =
        memcpy_lem p.buffer 0 p.buffer p.buffer_pos n
          (omega (arith, v.storage, v.pos_in, v.amount_in))
          (omega (arith, v.storage, v.pos_in, v.amount_in)) in
      rw (e, move)

  pub compacted-IsValid : IsValid (compacted p)
  compacted-IsValid = record {
    storage =
        length-put p.buffer 0 (rest p)
          (omega (arith, length-rest v, v.storage, v.pos_in, v.amount_in))
        ∙ v.storage;
    small = v.small;
    pos_in = omega arith;
    amount_in = omega (arith, v.amount_in);
    message_in = v.message_in;
    command_in = v.command_in;
    octets =
        All-put (λ b. b < 256) p.buffer 0 (rest p) v.octets
          (All-take (λ b. b < 256) (p.buffer_amount - p.buffer_pos) (drop p.buffer_pos p.buffer)
            (All-drop (λ b. b < 256) p.buffer_pos p.buffer v.octets));
  }

  pub rest-compacted : rest (compacted p) ≡ rest p
  rest-compacted =
      let e : p.buffer_amount - p.buffer_pos - 0 ≡ length (rest p) = omega (arith, length-rest v) in
      rw e (seg-put_self p.buffer 0 (rest p) (omega arith))

  -- the parser and the message, once the data is there
  abbrev pub taken : BinParser
  taken = record p { buffer_pos = p.buffer_pos + p.bin_message_size; bin_message_size = 0 }

  abbrev pub found : BinMessage
  found = record {
    at = some p.buffer_pos;
    size = p.bin_message_size;
    command = p.bin_message_command;
  }

  pub header_passed_complete :
      p.buffer_pos + p.bin_message_size ≤ p.buffer_amount → header_passed p ≡ some (found, taken)
  unfolding header_passed
  header_passed_complete h =
      let e : add32 p.buffer_pos p.bin_message_size ≡ p.buffer_pos + p.bin_message_size =
        omega (arith, v.small, v.amount_in) in
      rw (e, le→leb (p.buffer_pos + p.bin_message_size) p.buffer_amount h)

  pub header_passed_waits :
      p.buffer_amount < p.buffer_pos + p.bin_message_size
      → header_passed p ≡ some (no_message, compacted p)
  unfolding header_passed
  header_passed_waits h =
      let e : add32 p.buffer_pos p.bin_message_size ≡ p.buffer_pos + p.bin_message_size =
        omega (arith, v.small, v.message_in, v.pos_in, v.amount_in) in
      rw (e, lt→leb_false (p.buffer_pos + p.bin_message_size) p.buffer_amount h, compact_lem)

  module _ (h : p.buffer_pos + p.bin_message_size ≤ p.buffer_amount) where
    pub taken-IsValid : IsValid taken
    taken-IsValid = record {
      storage = v.storage;
      small = v.small;
      pos_in = h;
      amount_in = v.amount_in;
      message_in = omega arith;
      command_in = v.command_in;
      octets = v.octets;
    }

    pub found-Delivers :
        Delivers (header_bytes p.bin_message_command p.bin_message_size ++ rest p) found taken
    unfolding frame
    found-Delivers =
        let n : ℕ = p.bin_message_size in
        let payload : List ℕ = seg p.buffer p.buffer_pos n in
        let len : length payload ≡ n =
          length-seg p.buffer p.buffer_pos n (omega (arith, v.storage, v.amount_in)) in
        let left : ℕ = p.buffer_amount - (p.buffer_pos + n) in
        let split : rest p ≡ payload ++ seg p.buffer (p.buffer_pos + n) left =
          ap (λ k. seg p.buffer p.buffer_pos k) (omega arith)
          ∙ seg-add p.buffer p.buffer_pos n left in
        record {
          start = p.buffer_pos;
          payload = payload;
          data_at = refl;
          size_is = sym len;
          size_in = v.message_in;
          command_in = v.command_in;
          readable = load_lem p.buffer p.buffer_pos n (omega (arith, v.storage, v.amount_in));
          in_order =
              ap₂ (λ k l. header_bytes p.bin_message_command k ++ l) (sym len) split
              ∙ sym (
                  append_assoc (header_bytes p.bin_message_command (length payload)) payload
                    (seg p.buffer (p.buffer_pos + n) left));
        }
