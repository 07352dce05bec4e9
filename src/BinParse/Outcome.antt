-- ===== src/BinParse/Outcome.antt =====
-- The ways in which TBinParse::NextMessage can end, and the part from `MessageHeaderPassed` on.
use kendryte_k210_base_proje.Prelude.{
  ℕ, ◌+◌, ◌^◌, ◌<◌, ◌≡◌, ◌⊎◌, refl, sym, ap, ◌∙◌, true, false, List, ◌++◌, length, length-append,
  arith, ne→==_false, inr, u32, take, dec_le, Returns, Returns_of_eq,
}
use kendryte_k210_base_proje.Bytes.{bytes_of, word_of, word_of-bytes_of, length-bytes_of}
use kendryte_k210_base_proje.BinParse.{
  BinParser, BinMessage, no_message, fill_header, parse_header, header_passed,
}
use kendryte_k210_base_proje.BinParse.Header.{size_field, fill_header-fields}
use kendryte_k210_base_proje.BinParse.Inv.{IsValid, header_bytes, rest, unread, length-rest}
use kendryte_k210_base_proje.BinParse.Steps.{
  Delivers, compacted-IsValid, rest-compacted, header_passed_complete, header_passed_waits,
  taken-IsValid, found-Delivers,
}

-- the size that the first header announces
abbrev pub announced_size : List ℕ → ℕ
announced_size bytes = size_field (word_of (take 8 bytes))

-- the bytes hold no whole message yet
abbrev pub Incomplete : List ℕ → Type 0
Incomplete bytes = (length bytes < 8) ⊎ (length bytes < 8 + announced_size bytes)

-- the first header has a wrong checksum, or announces more than the buffer can hold
abbrev pub BadHeader : BinParser → List ℕ → Type 0
BadHeader p bytes =
    ((parse_header p (word_of (take 8 bytes))).0 ≡ false)
    ⊎ (p.buffer_size < announced_size bytes + 8)

-- the three ways in which a call can end
pub data Outcome (p : BinParser) (m : BinMessage) (q : BinParser) : Type 0 where
  delivered : q.parse_failed ≡ false → Delivers (unread p) m q → Outcome p m q
  waits :
      m ≡ no_message
      → q.parse_failed ≡ false
      → unread q ≡ unread p
      → Incomplete (unread p)
      → Outcome p m q
  fails : m ≡ no_message → q.parse_failed ≡ true → BadHeader p (unread p) → Outcome p m q

abbrev pub Ends : BinParser → BinMessage × BinParser → Type 0
Ends p (m, q) = IsValid q × (q.buffer_size ≡ p.buffer_size) × Outcome p m q

pub length-header_bytes : (id size : ℕ) → length (header_bytes id size) ≡ 8
unfolding header_bytes
length-header_bytes id size = length-bytes_of 8 (fill_header id size)

-- Behind a header, its fields are read back.
pub announced_size-header_bytes :
    (id size : ℕ) (more : List ℕ)
    → id < 2 ^ 16
    → size < 2 ^ 32
    → (word_of (take 8 (header_bytes id size ++ more)) ≡ fill_header id size)
      × (announced_size (header_bytes id size ++ more) ≡ size)
unfolding header_bytes
announced_size-header_bytes id size more hi hs =
    let (fs, _, _, bound) = fill_header-fields id size hi hs in
    let word : word_of (bytes_of 8 (fill_header id size)) ≡ fill_header id size =
      word_of-bytes_of 8 (fill_header id size) bound in
    (word, ap u32 word ∙ fs)

-- At `MessageHeaderPassed`, with the header of `p` taken off the front of `before`.
pub passed-Ends :
    (o : BinParser) {p : BinParser}
    → IsValid p
    → p.parse_failed ≡ false
    → p.buffer_size ≡ o.buffer_size
    → unread o ≡ header_bytes p.bin_message_command p.bin_message_size ++ rest p
    → Returns (header_passed p) (Ends o)
passed-Ends o {p} v ok same front =
    elim (dec_le (p.buffer_pos + p.bin_message_size) p.buffer_amount) [
      | yes h ↦
          Returns_of_eq (Ends o) (header_passed_complete v h)
            (taken-IsValid v h, same, delivered ok (rw front (found-Delivers v h)))
      | no h ↦
          let short : p.buffer_amount < p.buffer_pos + p.bin_message_size = omega arith in
          let some_size = ne→==_false p.bin_message_size 0 (omega (arith, v.pos_in)) in
          let (_, size_back) =
            announced_size-header_bytes p.bin_message_command p.bin_message_size (rest p)
              v.command_in (omega (arith, v.message_in, v.small)) in
          let len =
            length-append (header_bytes p.bin_message_command p.bin_message_size) (rest p) in
          Returns_of_eq (Ends o) (header_passed_waits v short) (
            compacted-IsValid v,
            same,
            waits refl ok
                (rw some_size (
                  ap (λ l. header_bytes p.bin_message_command p.bin_message_size ++ l)
                    (rest-compacted v)
                  ∙ sym front))
                (rw front (
                  inr (
                    omega (
                      arith,
                      size_back,
                      len,
                      length-rest v,
                      length-header_bytes p.bin_message_command p.bin_message_size,
                    )))),
          )
    ]
