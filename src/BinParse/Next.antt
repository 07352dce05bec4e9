-- ===== src/BinParse/Next.antt =====
-- drivers/TBPipe/TBinParse.cpp: TBinParse::NextMessage as a whole.
use kendryte_k210_base_proje.Prelude.{
  ℕ, ◌+◌, ◌-◌, ◌^◌, ◌≤◌, ◌<◌, ◌≡◌, ◌≢◌, refl, sym, ap, ap₂, ◌∙◌, true, false, List, ◌++◌, length,
  arith, ==_iff, lt→ltb, le→leb, le→ltb_false, lt→leb_false, ne→==_false, Bool-cases, inl, inr,
  add32, sub32, take, drop, dec_le, dec_lt, ℕ_discrete, Returns, Returns_of_eq, take-take,
}
use kendryte_k210_base_proje.Bytes.{
  Octets, All-take, All-drop, bytes_of, word_of, bytes_of-word_of, word_of-lt,
}
use kendryte_k210_base_proje.Memory.{seg, load_lem, length-seg, seg-add}
use kendryte_k210_base_proje.BinParse.{
  BinParser, fill_header, parse_header, header_passed, read_header, compact, next_message,
}
use kendryte_k210_base_proje.BinParse.Header.{
  id_field, size_field, parse_header_sound, parse_header_rejects,
}
use kendryte_k210_base_proje.BinParse.Inv.{
  IsValid, header_bytes, rest, pending, unread, length-rest,
}
use kendryte_k210_base_proje.BinParse.Steps.{compact_lem, compacted-IsValid, rest-compacted}
use kendryte_k210_base_proje.BinParse.Outcome.{announced_size, waits, fails, Ends, passed-Ends}

module _ {p : BinParser} (v : IsValid p) (ok : p.parse_failed ≡ false) where
  -- a header is waiting for its data
  pending-Ends : p.bin_message_size ≢ 0 → Returns (header_passed p) (Ends p)
  pending-Ends h = passed-Ends p v ok refl (rw (ne→==_false p.bin_message_size 0 h) refl)

  module _ (idle : p.bin_message_size ≡ 0) where
    unread-rest : unread p ≡ rest p
    unread-rest = rw ((==_iff p.bin_message_size 0).1 idle)

    -- not even a header is there
    short-Ends : p.buffer_amount - p.buffer_pos < 8 → Returns (compact p) (Ends p)
    short-Ends h = Returns_of_eq (Ends p) (compact_lem v) (
      compacted-IsValid v,
      refl,
      waits refl ok (ap (λ l. pending p ++ l) (rest-compacted v))
          (rw unread-rest (inl (omega (arith, length-rest v)))),
    )

    module _ (h : 8 ≤ p.buffer_amount - p.buffer_pos) where
      abbrev first : List ℕ
      first = seg p.buffer p.buffer_pos 8

      first-front : take 8 (unread p) ≡ first
      first-front =
          ap (take 8) unread-rest
          ∙ take-take 8 (p.buffer_amount - p.buffer_pos) (drop p.buffer_pos p.buffer) h

      length-first : length first ≡ 8
      length-first = length-seg p.buffer p.buffer_pos 8 (omega (arith, v.storage, v.amount_in))

      first-Octets : Octets first
      first-Octets =
          All-take (λ b. b < 256) 8 (drop p.buffer_pos p.buffer)
            (All-drop (λ b. b < 256) p.buffer_pos p.buffer v.octets)

      word-lt : word_of first < 2 ^ 64
      word-lt = omega (arith, ap (λ k. 256 ^ k) length-first, word_of-lt first first-Octets)

      -- its checksum is wrong
      rejected-Ends :
          (parse_header p (word_of first)).0 ≡ false
          → Returns (read_header (parse_header p (word_of first))) (Ends p)
      unfolding read_header
      rejected-Ends bad =
          let q : BinParser = record p {
            bin_message_size = 0;
            bin_message_command = 0;
            parse_failed = true;
          } in
          let w : IsValid q = record {
            storage = v.storage;
            small = v.small;
            pos_in = v.pos_in;
            amount_in = v.amount_in;
            message_in = omega arith;
            command_in = omega arith;
            octets = v.octets;
          } in
          rw (parse_header_rejects p (word_of first) bad) (
            Returns_of_eq (Ends p) (compact_lem w)
              (compacted-IsValid w, refl, fails refl refl (rw first-front (inl bad))))

      -- its checksum is right
      module _ (good : (parse_header p (word_of first)).0 ≡ true) where
        abbrev id : ℕ
        id = id_field (word_of first)

        abbrev size : ℕ
        size = size_field (word_of first)

        abbrev passed : BinParser
        passed = record p {
          buffer_pos = p.buffer_pos + 8;
          bin_message_size = size;
          bin_message_command = id;
        }

        front-split : unread p ≡ header_bytes id size ++ rest passed
        unfolding header_bytes
        front-split =
            let left : ℕ = p.buffer_amount - (p.buffer_pos + 8) in
            let (same_header, _) = parse_header_sound p (word_of first) word-lt good in
            let same_bytes : first ≡ bytes_of 8 (fill_header id size) =
              sym (bytes_of-word_of first first-Octets) ∙ ap₂ bytes_of length-first same_header in
            unread-rest
            ∙ ap (λ k. seg p.buffer p.buffer_pos k) (omega arith)
            ∙ seg-add p.buffer p.buffer_pos 8 left
            ∙ ap (λ l. l ++ rest passed) same_bytes

        accepted-Ends :
            announced_size (unread p) + 8 < 2 ^ 32
            → Returns (read_header (parse_header p (word_of first))) (Ends p)
        unfolding read_header
        accepted-Ends honest =
            let (_, state) = parse_header_sound p (word_of first) word-lt good in
            let size_is : announced_size (unread p) ≡ size =
              ap (λ l. size_field (word_of l)) first-front in
            let fits : add32 size 8 ≡ size + 8 = omega (arith, size_is) in
            let moved : add32 p.buffer_pos 8 ≡ p.buffer_pos + 8 =
              omega (arith, v.small, v.pos_in, v.amount_in) in
            elim (dec_lt p.buffer_size (size + 8)) [
              | yes big ↦
                  let q : BinParser = record p {
                    buffer_pos = p.buffer_pos + 8;
                    bin_message_size = 0;
                    bin_message_command = 0;
                    parse_failed = true;
                  } in
                  let w : IsValid q = record {
                    storage = v.storage;
                    small = v.small;
                    pos_in = omega arith;
                    amount_in = v.amount_in;
                    message_in = omega arith;
                    command_in = omega arith;
                    octets = v.octets;
                  } in
                  rw (state, fits, moved, lt→ltb p.buffer_size (size + 8) big)
                    (Returns_of_eq (Ends p) (compact_lem w)
                      (compacted-IsValid w, refl, fails refl refl (rw first-front (inr big))))
              | no small ↦
                  let w : IsValid passed = record {
                    storage = v.storage;
                    small = v.small;
                    pos_in = omega arith;
                    amount_in = v.amount_in;
                    message_in = omega arith;
                    command_in = omega arith;
                    octets = v.octets;
                  } in
                  rw (state, fits, moved, le→ltb_false p.buffer_size (size + 8) (omega arith))
                    (passed-Ends p {p = passed} w ok refl front-split)
            ]

-- In a valid state that has not failed, unless the next header announces a size within 8 of 2^32,
-- `NextMessage` accesses nothing outside the buffer, keeps the invariant, and ends in one of three
-- ways. It returns a message whose bytes are all in the buffer, and which with its header is the
-- front of the unparsed bytes, the rest being kept; or it returns no message because the unparsed
-- bytes hold no whole one, and keeps them all; or it fails on a header with a wrong checksum or a
-- size that does not fit the buffer.
pub next_message_lem :
    {p : BinParser}
    → IsValid p
    → p.parse_failed ≡ false
    → announced_size (unread p) + 8 < 2 ^ 32
    → Returns (next_message p) (Ends p)
unfolding next_message
next_message_lem {p} v ok honest =
    let left : ℕ = p.buffer_amount - p.buffer_pos in
    let e : sub32 p.buffer_amount p.buffer_pos ≡ left =
      omega (arith, v.small, v.pos_in, v.amount_in) in
    simp ok (elim (ℕ_discrete p.bin_message_size 0) [
      | yes idle ↦ rw ((==_iff p.bin_message_size 0).1 idle) (elim (dec_le 8 left) [
        | yes enough ↦
            rw
              (
                e,
                le→leb 8 left enough,
                load_lem p.buffer p.buffer_pos 8 (omega (arith, v.storage, v.amount_in)),
              )
              (elim (Bool-cases (parse_header p (word_of (first v ok idle enough))).0) [
                | inl good ↦ accepted-Ends v ok idle enough good honest
                | inr bad ↦ rejected-Ends v ok idle enough bad
              ])
        | no short ↦ rw (e, lt→leb_false 8 left (omega arith)) (short-Ends v ok idle (omega arith))
      ])
      | no waiting ↦ rw (ne→==_false p.bin_message_size 0 waiting) (pending-Ends v ok waiting)
    ])
