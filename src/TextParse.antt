-- ===== src/TextParse.antt =====
-- drivers/TBPipe/TBParse.cpp, TBParse.h and TBParseStruct.h: lines of text and binary packets
-- behind a prefix. A function that changes `*this` returns the new parser; `none` is an access
-- outside the buffer, or a loop that has more rounds than `fuel`. `S` is the state of the prefix
-- parser.
pub mod Prefix
pub mod Inv
pub mod Append
pub mod Timeout
pub mod Outcome
pub mod Scanned
pub mod Rounds
pub mod Next
pub mod Sizes
pub mod EspSize
pub mod Lines
pub mod Standart
pub mod Esp8266
mod Tests
use kendryte_k210_base_proje.Prelude.{
  ℕ, zero, suc, ◌+◌, ◌-◌, ◌*◌, ◌%◌, ◌^◌, Bool, true, false, not, ◌&&◌, ◌||◌, Option, none, some,
  List, [], ◌∷◌, ltb, leb, ◌==◌, if◌then◌else◌, add32, sub32, u32, get_elem?, ◌>>=◌,
}
use kendryte_k210_base_proje.Memory.{store, memcpy}

-- `BinPrefixParser::Result`
pub data Result : Type 0 where
  not_matched prefix_matched prefix_completed : Result

-- `class BinPrefixParser`: its virtual functions, over the fields `S` of a subclass
pub record PrefixParser (S : Type 0) : Type 0 where
  pub parse : S → ℕ → Bool → Result × S
  pub packet_size : S → ℕ

-- `struct TBMessage`; `at` is `data` as an offset into the buffer, `none` the null pointer
pub record TextMessage : Type 0 where
  pub is_text : Bool
  pub size : ℕ
  pub at : Option ℕ

-- `TBMessage message = {};`
abbrev pub no_message : TextMessage
no_message = record { is_text = false; size = 0; at = none }

-- `class TBParse`
pub record TextParser (S : Type 0) : Type 0 where
  pub buffer : List ℕ
  pub buffer_size : ℕ
  pub buffer_pos : ℕ
  pub buffer_amount : ℕ
  pub bin_message_size : ℕ
  pub timeout_us : ℕ
  pub last_append_time : ℕ
  pub parser : S

-- one round of the loop of `NextMessage`: the function returns, the loop is left, or it goes on;
-- with `message_start` after the round
pub data Round (S : Type 0) : Type 0 where
  returns : TextMessage → TextParser S → Round S
  leaves : ℕ → TextParser S → Round S
  continues : ℕ → TextParser S → Round S

module _ {S : Type 0} where
  -- the constructor, over the storage that `malloc(buffer_size)` gave
  unfoldable pub init : List ℕ → ℕ → S → TextParser S
  init storage size s = record {
    buffer = storage;
    buffer_size = size;
    buffer_pos = 0;
    buffer_amount = 0;
    bin_message_size = 0;
    timeout_us = 0;
    last_append_time = 0;
    parser = s;
  }

  -- `SetTimeoutMs`; the product is one of 32-bit numbers
  unfoldable pub set_timeout_ms : TextParser S → ℕ → TextParser S
  set_timeout_ms p timeout_ms = record p { timeout_us = u32 (timeout_ms * 1000) }

  -- `timeout_us!=0 && cur_time > last_append_time + timeout_us`; a time is below 2 ^ 63, so that
  -- the sum does not wrap
  abbrev pub is_expired : TextParser S → ℕ → Bool
  is_expired p cur_time =
      not (p.timeout_us == 0) && ltb (p.last_append_time + p.timeout_us) cur_time

  -- `Append(data, size)` at the time `cur_time`, with `amount` in the buffer
  unfoldable pub append_to : ℕ → TextParser S → ℕ → List ℕ → ℕ → Option (TextParser S)
  unfolding memcpy
  append_to amount p cur_time bytes size =
      let size_to_copy =
        if ltb p.buffer_size (add32 amount size) then sub32 p.buffer_size amount else size in
      do
        buf ← memcpy p.buffer amount bytes 0 size_to_copy
        some (record p {
          buffer = buf;
          buffer_amount = add32 amount size_to_copy;
          last_append_time = cur_time;
        })

  -- `Append`
  unfoldable pub append : TextParser S → ℕ → List ℕ → ℕ → Option (TextParser S)
  append p cur_time bytes size =
      if size == 0
      then some p
      else append_to (if is_expired p cur_time then 0 else p.buffer_amount) p cur_time bytes size

  -- the packet at `buffer_pos` is returned
  pub binary_message : TextParser S → TextMessage × TextParser S
  binary_message p = (
    record { is_text = false; size = p.bin_message_size; at = some p.buffer_pos },
    record p { buffer_pos = add32 p.buffer_pos p.bin_message_size; bin_message_size = 0 },
  )

  -- the end of `NextMessage`: the incomplete message is moved to the start of the buffer
  unfoldable pub compact : ℕ → TextParser S → Option (TextMessage × TextParser S)
  unfolding memcpy
  compact message_start p = do
    let rest_size = sub32 p.buffer_amount message_start
    buf ← memcpy p.buffer 0 p.buffer message_start rest_size
    some (no_message, record p { buffer = buf; buffer_amount = rest_size; buffer_pos = 0 })

  -- a round behind the end of a line at `buffer_pos - 1`
  unfoldable pub end_line : ℕ → TextParser S → Option (Round S)
  unfolding store
  end_line message_start p = do
    buf ← store p.buffer (sub32 p.buffer_pos 1) (0 ∷ [])
    let q = record p { buffer = buf }
    let size = sub32 (sub32 q.buffer_pos message_start) 1
    let line : TextMessage = record { is_text = true; size = size; at = some message_start }
    if size == 0 then some (continues q.buffer_pos q) else some (returns line q)

module _ {S : Type 0} (prefixes : PrefixParser S) where
  -- a round behind the call of `Parse`, by its result and the byte
  unfoldable pub matched : Result → ℕ → ℕ → TextParser S → Option (Round S)
  unfolding binary_message end_line
  matched prefix_completed c message_start p =
      let q = record p { bin_message_size = prefixes.packet_size p.parser } in
      let (message, r) = binary_message q in
      if leb (add32 q.buffer_pos q.bin_message_size) q.buffer_amount
      then some (returns message r)
      else some (leaves q.buffer_pos q)
  matched prefix_matched c message_start p = some (continues message_start p)
  matched not_matched c message_start p =
      if c == 13 || c == 10 then end_line message_start p else some (continues message_start p)

  -- `uint8_t c = buffer[buffer_pos++];` and the rest of a round
  unfoldable pub round : ℕ → TextParser S → Option (Round S)
  unfolding matched
  round message_start p = do
    c ← get_elem? p.buffer p.buffer_pos
    let pos = add32 p.buffer_pos 1
    let (result, s) = prefixes.parse p.parser c (sub32 pos 1 == message_start)
    matched result c message_start (record p { buffer_pos = pos; parser = s })

  -- `while (buffer_pos < buffer_amount) { … }` and what follows it
  unfoldable pub scan : ℕ → ℕ → TextParser S → Option (TextMessage × TextParser S)
  scan zero message_start p = none
  scan (suc fuel) message_start p =
      let rounds = (do
        r ← round message_start p
        elim r [
          | returns message q ↦ some (message, q)
          | leaves start q ↦ compact start q
          | continues start q ↦ scan fuel start q
        ]) in
      if ltb p.buffer_pos p.buffer_amount then rounds else compact message_start p

  -- `NextMessage`; a round moves `buffer_pos` on by at least one
  unfoldable pub next_message : TextParser S → Option (TextMessage × TextParser S)
  unfolding binary_message
  next_message p =
      if p.bin_message_size == 0
      then scan (suc (sub32 p.buffer_amount p.buffer_pos)) p.buffer_pos p
      else if leb (add32 p.buffer_pos p.bin_message_size) p.buffer_amount
      then some (binary_message p)
      else compact p.buffer_pos p
