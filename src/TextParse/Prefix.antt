-- ===== src/TextParse/Prefix.antt =====
-- drivers/TBPipe/TBParse.cpp and TBParse.h: the three prefix parsers.
use kendryte_k210_base_proje.Prelude.{
  true, ℕ, zero, suc, ◌+◌, ◌-◌, ◌*◌, Bool, false, ◌&&◌, ◌||◌, List, [], ◌∷◌, ltb, leb, ◌==◌,
  if◌then◌else◌, add32, sub32, u32, shl,
}
use kendryte_k210_base_proje.Memory.{put}
use kendryte_k210_base_proje.TextParse.{
  Result, not_matched, prefix_matched, prefix_completed, PrefixParser,
}

-- `class NullPrefixParser`, which has no fields
abbrev pub null_prefix : PrefixParser (Unit {0})
null_prefix = record { parse = λ s data_byte is_first. (not_matched, s); packet_size = λ s. 0 }

-- `class StandartPrefixParser`
pub record Standart : Type 0 where
  pub data_size : ℕ
  pub found_idx : ℕ

-- `if(found_idx==0) return NotMatched; return PrefixMatched;`
abbrev pub by_index : Standart → Result × Standart
by_index s = (if s.found_idx == 0 then not_matched else prefix_matched, s)

-- `StandartPrefixParser::Parse`
unfoldable pub standart_parse : Standart → ℕ → Bool → Result × Standart
standart_parse old data_byte is_first =
    let s = if is_first then record old { found_idx = 0 } else old in
    let done : Result × Standart = (
      prefix_completed,
      record { data_size = add32 s.data_size (u32 (shl data_byte 8)); found_idx = 0 },
    ) in
    if s.found_idx == 1
    then by_index (record s { found_idx = if data_byte == 1 then 2 else 0 })
    else if s.found_idx == 2
    then by_index (record { data_size = data_byte; found_idx = 3 })
    else if s.found_idx == 3
    then done
    else by_index (if data_byte == 0 then record s { found_idx = 1 } else s)

unfoldable pub standart_prefix : PrefixParser Standart
unfolding standart_parse
standart_prefix = record { parse = standart_parse; packet_size = λ s. s.data_size }

-- `Esp8266PrefixParser::State`
pub data EspState : Type 0 where
  prefix link_number len ending not_passed : EspState

-- `class Esp8266PrefixParser`
pub record Esp8266 : Type 0 where
  pub state : EspState
  pub offset : ℕ
  pub num_buf : List ℕ
  pub link_id : ℕ
  pub packet_size : ℕ

-- `"+IPD,"` with its end
abbrev pub prefix_text : List ℕ
prefix_text = 43 ∷ 73 ∷ 80 ∷ 68 ∷ 44 ∷ 0 ∷ []

-- C's `isspace` and `isdigit`
abbrev is_space : ℕ → Bool
is_space c = c == 32 || (leb 9 c && leb c 13)

abbrev pub is_digit : ℕ → Bool
is_digit c = leb 48 c && leb c 57

-- the digits of a number, up to another byte
unfoldable pub digits_value : ℕ → List ℕ → ℕ
digits_value n [] = n
digits_value n (c ∷ cs) =
    let more = digits_value (n * 10 + (c - 48)) cs in if is_digit c then more else n

signed_value : List ℕ → ℕ
unfolding digits_value
signed_value [] = 0
signed_value (c ∷ cs) =
    if c == 45
    then sub32 0 (digits_value 0 cs)
    else if c == 43
    then digits_value 0 cs
    else digits_value 0 (c ∷ cs)

-- C's `atoi` of a string that ends in a 0 byte, as a 32-bit word
unfoldable pub atoi : List ℕ → ℕ
unfolding signed_value
atoi [] = 0
atoi (c ∷ cs) = let rest = atoi cs in if is_space c then rest else signed_value (c ∷ cs)

-- `num_buf[offset++] = data`, while there is room for an end
abbrev collect : Esp8266 → ℕ → Esp8266
collect s data_byte =
    if ltb (s.offset + 1) 8
    then record s { num_buf = put s.num_buf s.offset (data_byte ∷ []); offset = s.offset + 1 }
    else s

-- `num_buf[offset] = 0`
abbrev ended : Esp8266 → List ℕ
ended s = put s.num_buf s.offset (0 ∷ [])

unfoldable pub at : List ℕ → ℕ → ℕ
at [] i = 0
at (x ∷ xs) zero = x
at (x ∷ xs) (suc i) = at xs i

-- the cases of `Esp8266PrefixParser::Parse`
unfoldable pub esp_state : EspState → Esp8266 → ℕ → Result × Esp8266
unfolding atoi at
esp_state prefix s data_byte =
    let next = s.offset + 1 in
    if at prefix_text s.offset == data_byte
    then (
      not_matched,
      if at prefix_text next == 0
          then record s { state = link_number; offset = 0 }
          else record s { offset = next },
    )
    else (not_matched, record s { state = not_passed })
esp_state link_number s data_byte = (
  prefix_matched,
  if data_byte == 44
      then record s { num_buf = ended s; link_id = atoi (ended s); offset = 0; state = len }
      else collect s data_byte,
)
esp_state len s data_byte =
    let t = record s { num_buf = ended s; packet_size = atoi (ended s); state = ending } in
    if data_byte == 44 || data_byte == 58
    then (if data_byte == 58 then prefix_completed else prefix_matched, t)
    else (prefix_matched, collect s data_byte)
esp_state ending s data_byte = (if data_byte == 58 then prefix_completed else prefix_matched, s)
esp_state not_passed s data_byte = (not_matched, s)

-- `Esp8266PrefixParser::Parse`
unfoldable pub esp8266_parse : Esp8266 → ℕ → Bool → Result × Esp8266
unfolding esp_state
esp8266_parse old data_byte is_first =
    let s = if is_first then record old { offset = 0; state = prefix } else old in
    esp_state s.state s data_byte

unfoldable pub esp8266_prefix : PrefixParser Esp8266
unfolding esp8266_parse
esp8266_prefix = record { parse = esp8266_parse; packet_size = λ s. s.packet_size }

-- the calls of `Parse` for further bytes, where the last one returned `r`
unfoldable pub follow : {S : Type 0} → PrefixParser S → Result × S → List ℕ → Result × S
follow p r [] = r
follow p r (c ∷ cs) = follow p (p.parse r.1 c false) cs

-- the bytes of a line given to `Parse` one after the other: what the last call returns
unfoldable pub feed : {S : Type 0} → PrefixParser S → S → List ℕ → Result × S
unfolding follow
feed p s [] = (not_matched, s)
feed p s (c ∷ cs) = follow p (p.parse s c true) cs
