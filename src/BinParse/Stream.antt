-- ===== src/BinParse/Stream.antt =====
-- drivers/TBPipe/TBinParse.cpp: TBinParse::NextMessage against the stream of messages.
use kendryte_k210_base_proje.Prelude.{
  ℕ, ◌+◌, ◌^◌, ◌≤◌, ◌<◌, ◌≡◌, sym, ap, ap₂, ◌∙◌, false, List, ◌++◌, length, length-append, arith,
  inl, inr, Option, some, none, append_assoc, take, drop, Returns, take-append, drop-append,
}
use kendryte_k210_base_proje.Bytes.{word_of}
use kendryte_k210_base_proje.Memory.{load}
use kendryte_k210_base_proje.BinParse.{
  BinParser, BinMessage, fill_header, parse_header, next_message,
}
use kendryte_k210_base_proje.BinParse.Header.{
  id_field, size_field, fill_header-fields, parse_header-fill_header,
}
use kendryte_k210_base_proje.BinParse.Inv.{IsValid, header_bytes, frame, unread}
use kendryte_k210_base_proje.BinParse.Steps.{Delivers}
use kendryte_k210_base_proje.BinParse.Outcome.{
  announced_size, Incomplete, BadHeader, delivered, waits, fails, Ends, length-header_bytes,
  announced_size-header_bytes,
}
use kendryte_k210_base_proje.BinParse.Next.{next_message_lem}

-- what stands behind a header
behind : (id size : ℕ) (more : List ℕ) → drop 8 (header_bytes id size ++ more) ≡ more
behind id size more =
    ap (λ k. drop k (header_bytes id size ++ more)) (sym (length-header_bytes id size))
    ∙ drop-append (header_bytes id size) more

-- a message that a sender can write for a buffer of `capacity` bytes
pub record Fits (capacity : ℕ) (id : ℕ) (payload : List ℕ) : Type 0 where
  pub id_in : id < 2 ^ 16
  pub size_in : length payload + 8 ≤ capacity

module _ {p : BinParser} (v : IsValid p) {id : ℕ} {payload : List ℕ} (more : List ℕ)
    (fits : Fits p.buffer_size id payload) (front : unread p ≡ frame id payload ++ more) where
  front-header : unread p ≡ header_bytes id (length payload) ++ (payload ++ more)
  unfolding frame
  front-header = front ∙ append_assoc (header_bytes id (length payload)) payload more

  front-fields :
      (word_of (take 8 (unread p)) ≡ fill_header id (length payload))
      × (announced_size (unread p) ≡ length payload)
  front-fields = rw front-header (
      announced_size-header_bytes id (length payload) (payload ++ more) fits.id_in
        (omega (arith, fits.size_in, v.small)))

  not_Incomplete : ¬ (Incomplete (unread p))
  not_Incomplete h = ground (
    arith,
    front-fields,
    ap length front-header,
    length-append (header_bytes id (length payload)) (payload ++ more),
    length-append payload more,
    length-header_bytes id (length payload),
  )

  not_BadHeader : ¬ (BadHeader p (unread p))
  not_BadHeader (inl bad) =
      let size_lt : length payload < 2 ^ 32 = omega (arith, fits.size_in, v.small) in
      let accepted = parse_header-fill_header p id (length payload) fits.id_in size_lt in
      cc (bad, ap (λ h. (parse_header p h).0) front-fields.0, ap (λ r. r.0) accepted)
  not_BadHeader (inr big) = omega (arith, front-fields, fits.size_in)

  -- a message that is returned is this one
  same_message :
      {m : BinMessage} {q : BinParser}
      → q.buffer_size ≡ p.buffer_size
      → (d : Delivers (unread p) m q) → (m.command ≡ id) × (d.payload ≡ payload) × (unread q ≡ more)
  unfolding frame
  same_message {m} {q} same d =
      let n : ℕ = length d.payload in
      let n_lt : n < 2 ^ 32 = omega (arith, d.size_is, d.size_in, same, v.small) in
      let size_lt : length payload < 2 ^ 32 = omega (arith, fits.size_in, v.small) in
      let header : unread p ≡ header_bytes m.command n ++ (d.payload ++ unread q) =
        d.in_order ∙ append_assoc (header_bytes m.command n) d.payload (unread q) in
      let words : fill_header m.command n ≡ fill_header id (length payload) =
        sym (announced_size-header_bytes m.command n (d.payload ++ unread q) d.command_in n_lt).0
        ∙ ap (λ l. word_of (take 8 l)) (sym header)
        ∙ front-fields.0 in
      let (got_size, got_id, _, _) = fill_header-fields m.command n d.command_in n_lt in
      let (put_size, put_id, _, _) = fill_header-fields id (length payload) fits.id_in size_lt in
      let ids : m.command ≡ id = sym got_id ∙ ap id_field words ∙ put_id in
      let sizes : n ≡ length payload = sym got_size ∙ ap size_field words ∙ put_size in
      let tails : d.payload ++ unread q ≡ payload ++ more =
        sym (behind m.command n (d.payload ++ unread q))
        ∙ ap (drop 8) (sym header ∙ front-header)
        ∙ behind id (length payload) (payload ++ more) in
      (
        ids,
        sym (take-append d.payload (unread q)) ∙ ap₂ take sizes tails ∙ take-append payload more,
        sym (drop-append d.payload (unread q)) ∙ ap₂ drop sizes tails ∙ drop-append payload more,
      )

-- In a valid state that has not failed, if the unparsed bytes begin with a whole message that fits
-- the buffer, then `NextMessage` returns that message: its command, and its bytes at the pointer.
-- What follows it stays to be parsed, and the parser has not failed.
pub next_message-frame :
    {p : BinParser} {id : ℕ} {payload : List ℕ} (more : List ℕ)
    → IsValid p
    → p.parse_failed ≡ false
    → Fits p.buffer_size id payload
    → unread p ≡ frame id payload ++ more
    → Returns (next_message p) (λ (m, q).
      (m.command ≡ id)
      × (m.size ≡ length payload)
      × ((start : ℕ) × (m.at ≡ some start) × (load q.buffer start m.size ≡ some payload))
      × (unread q ≡ more)
      × IsValid q
      × (q.parse_failed ≡ false))
next_message-frame {p} {id} {payload} more v ok fits front =
    returned (next_message p)
      (next_message_lem v ok (omega (arith, front-fields v more fits front, fits.size_in, v.small)))
  where
    returned :
        (r : Option (BinMessage × BinParser))
        → Returns r (Ends p)
        → Returns r (λ (m, q).
          (m.command ≡ id)
          × (m.size ≡ length payload)
          × ((start : ℕ) × (m.at ≡ some start) × (load q.buffer start m.size ≡ some payload))
          × (unread q ≡ more)
          × IsValid q
          × (q.parse_failed ≡ false))
    returned none h = h
    returned (some (m, q)) (w, same, delivered fine d) =
        let (ids, payloads, rests) = same_message v more fits front same d in
        (
          ids,
          d.size_is ∙ ap length payloads,
          (d.start, d.data_at, d.readable ∙ ap some payloads),
          rests,
          w,
          fine,
        )
    returned (some (m, q)) (w, same, waits _ _ _ short) =
        absurd (not_Incomplete v more fits front short)
    returned (some (m, q)) (w, same, fails _ _ bad) = absurd (not_BadHeader v more fits front bad)
