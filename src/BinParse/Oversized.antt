-- ===== src/BinParse/Oversized.antt =====
-- drivers/TBPipe/TBinParse.cpp: the test of the size in TBinParse::NextMessage.
use kendryte_k210_base_proje.Prelude.{
  ℕ, ◌+◌, ◌-◌, ◌^◌, ◌≤◌, ◌<◌, ◌≡◌, refl, sym, ap, ◌∙◌, true, false, List, ◌++◌, length,
  length-append, arith, ==_iff, le→leb, le→ltb_false, lt→leb_false, add32, sub32, some, none, take,
  drop, Returns, take-take,
}
use kendryte_k210_base_proje.Bytes.{word_of}
use kendryte_k210_base_proje.Memory.{seg, load, load_lem}
use kendryte_k210_base_proje.BinParse.{
  BinParser, BinMessage, fill_header, header_passed, read_header, next_message,
}
use kendryte_k210_base_proje.BinParse.Header.{announced, parse_header-fill_header}
use kendryte_k210_base_proje.BinParse.Inv.{IsValid, header_bytes, rest, length-rest}
use kendryte_k210_base_proje.BinParse.Outcome.{length-header_bytes, announced_size-header_bytes}

-- the result, which `read_header` and the label give
abbrev unreadable : BinParser → ℕ → ℕ → BinMessage × BinParser
unreadable p id size = (
  record { at = some (p.buffer_pos + 8); size = size; command = id },
  record p {
    buffer_pos = p.buffer_pos + 8 + size - 2 ^ 32;
    bin_message_size = 0;
    bin_message_command = id;
  },
)

oversized_passes :
    {p : BinParser} (id size : ℕ)
    → IsValid p
    → 8 ≤ p.buffer_amount - p.buffer_pos
    → size < 2 ^ 32
    → 2 ^ 32 ≤ size + 8
    → read_header (true, announced p id size) ≡ some (unreadable p id size)
unfolding read_header header_passed
oversized_passes {p} id size v enough hs big =
    let moved : add32 p.buffer_pos 8 ≡ p.buffer_pos + 8 =
      omega (arith, v.small, v.pos_in, v.amount_in) in
    let wrapped : add32 size 8 ≡ size + 8 - 2 ^ 32 = omega arith in
    let next : add32 (p.buffer_pos + 8) size ≡ p.buffer_pos + 8 + size - 2 ^ 32 =
      omega (arith, v.small, v.pos_in, v.amount_in) in
    rw (
      moved,
      wrapped,
      le→ltb_false p.buffer_size (size + 8 - 2 ^ 32) (omega (arith, v.amount_in)),
      next,
      le→leb (p.buffer_pos + 8 + size - 2 ^ 32) p.buffer_amount (omega arith),
    )

out_of_range : (buf : List ℕ) (i n : ℕ) → length buf < i + n → load buf i n ≡ none
unfolding load
out_of_range buf i n h = rw (lt→leb_false (i + n) (length buf) h)

-- A header with a correct checksum that announces a size within 8 of 2^32 passes the test against
-- the size of the buffer: in every valid state that has not failed and has such a header in front,
-- `NextMessage` returns a message of that size, which cannot be read from the buffer.
pub next_message_oversized :
    {p : BinParser} (id size : ℕ) (more : List ℕ)
    → IsValid p
    → p.parse_failed ≡ false
    → p.bin_message_size ≡ 0
    → id < 2 ^ 16
    → size < 2 ^ 32
    → 2 ^ 32 ≤ size + 8
    → rest p ≡ header_bytes id size ++ more
    → Returns (next_message p) (λ (m, q).
      (m.command ≡ id)
      × (m.size ≡ size)
      × (m.at ≡ some (p.buffer_pos + 8))
      × (load q.buffer (p.buffer_pos + 8) m.size ≡ none))
unfolding next_message header_bytes
next_message_oversized {p} id size more v ok idle hi hs big front =
    let left : ℕ = p.buffer_amount - p.buffer_pos in
    let e : sub32 p.buffer_amount p.buffer_pos ≡ left =
      omega (arith, v.small, v.pos_in, v.amount_in) in
    let len : left ≡ 8 + length more =
      sym (length-rest v)
      ∙ ap length front
      ∙ length-append (header_bytes id size) more
      ∙ ap (λ k. k + length more) (length-header_bytes id size) in
    let enough : 8 ≤ left = omega arith in
    let bytes : seg p.buffer p.buffer_pos 8 ≡ take 8 (header_bytes id size ++ more) =
      sym (take-take 8 left (drop p.buffer_pos p.buffer) enough) ∙ ap (take 8) front in
    let word : word_of (seg p.buffer p.buffer_pos 8) ≡ fill_header id size =
      ap word_of bytes ∙ (announced_size-header_bytes id size more hi hs).0 in
    simp ok (
      rw
        (
          (==_iff p.bin_message_size 0).1 idle,
          e,
          le→leb 8 left enough,
          load_lem p.buffer p.buffer_pos 8 (omega (arith, v.storage, v.amount_in)),
          word,
          parse_header-fill_header p id size hi hs,
          oversized_passes id size v enough hs big,
        )
        (
          refl,
          refl,
          refl,
          out_of_range p.buffer (p.buffer_pos + 8) size (omega (arith, v.storage, v.small)),
        ))
