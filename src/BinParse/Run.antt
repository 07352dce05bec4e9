-- ===== src/BinParse/Run.antt =====
-- A run of TBinParse: appends and calls of NextMessage in any order, against the stream of
-- messages.
use kendryte_k210_base_proje.Prelude.{
  ℕ, ◌+◌, ◌^◌, ◌≤◌, ◌<◌, ◌≡◌, ◌⊎◌, refl, sym, ap, ◌∙◌, true, false, List, [], ◌∷◌, ◌++◌, length,
  Bool-cases, inl, inr, some, none, append_assoc, append-nil, some_inj,
}
use kendryte_k210_base_proje.Bytes.{Octets}
use kendryte_k210_base_proje.Memory.{load}
use kendryte_k210_base_proje.BinParse.{
  BinParser, BinMessage, no_message, next_message, append, init,
}
use kendryte_k210_base_proje.BinParse.Inv.{IsValid, frame, unread, init-IsValid, append_lem}
use kendryte_k210_base_proje.BinParse.Outcome.{
  announced_size, Outcome, delivered, waits, fails, Ends,
}
use kendryte_k210_base_proje.BinParse.Next.{next_message_lem}

-- The parser, all bytes appended so far, and the messages returned so far.
pub record World : Type 0 where
  pub parser : BinParser
  pub sent : List ℕ
  pub got : List (ℕ × List ℕ)

-- the messages on the wire
unfoldable pub frames : List (ℕ × List ℕ) → List ℕ
frames [] = []
frames ((id, payload) ∷ ms) = frame id payload ++ frames ms

pub data Step : World → World → Type 0 where
  -- `Append` of a block for which there is room
  append_step :
      {w : World} {q : BinParser} (bytes : List ℕ)
      → Octets bytes
      → w.parser.buffer_amount + length bytes ≤ w.parser.buffer_size
      → append w.parser bytes (length bytes) ≡ some q
      → Step w (record w { parser = q; sent = w.sent ++ bytes })
  -- `NextMessage` returns a message, and the caller reads it
  message_step :
      {w : World} {m : BinMessage} {q : BinParser} {start : ℕ} {payload : List ℕ}
      → announced_size (unread w.parser) + 8 < 2 ^ 32
      → next_message w.parser ≡ some (m, q)
      → m.at ≡ some start
      → load q.buffer start m.size ≡ some payload
      → Step w (record w { parser = q; got = w.got ++ (m.command, payload) ∷ [] })
  -- `NextMessage` returns no message
  idle_step :
      {w : World} {m : BinMessage} {q : BinParser}
      → announced_size (unread w.parser) + 8 < 2 ^ 32
      → next_message w.parser ≡ some (m, q)
      → m.at ≡ none
      → Step w (record w { parser = q })

pub data Reach (s : World) : World → Type 0 where
  here : Reach s s
  next : {t u : World} → Reach s t → Step t u → Reach s u

-- unless the parser has failed, nothing is lost and nothing made up
pub record InOrder (w : World) : Type 0 where
  pub valid : IsValid w.parser
  pub in_order : (w.parser.parse_failed ≡ true) ⊎ (frames w.got ++ unread w.parser ≡ w.sent)

frames-append : (xs ys : List (ℕ × List ℕ)) → frames (xs ++ ys) ≡ frames xs ++ frames ys
unfolding frames
frames-append [] ys = refl
frames-append ((id, payload) ∷ xs) ys =
    ap (λ l. frame id payload ++ l) (frames-append xs ys)
    ∙ sym (append_assoc (frame id payload) (frames xs) (frames ys))

frames-snoc :
    (xs : List (ℕ × List ℕ)) (id : ℕ) (payload : List ℕ)
    → frames (xs ++ (id, payload) ∷ []) ≡ frames xs ++ frame id payload
unfolding frames
frames-snoc xs id payload =
    frames-append xs ((id, payload) ∷ []) ∙ ap (λ l. frames xs ++ l) (append-nil (frame id payload))

-- A parser that has failed returns no message.
next_message-failed :
    (p : BinParser) → p.parse_failed ≡ true → next_message p ≡ some (no_message, p)
unfolding next_message
next_message-failed p e = simp e

-- what a call gives, failed or not
next-Ends :
    {p : BinParser} {m : BinMessage} {q : BinParser}
    → IsValid p
    → announced_size (unread p) + 8 < 2 ^ 32
    → next_message p ≡ some (m, q)
    → ((p.parse_failed ≡ true) × (m ≡ no_message) × (q ≡ p))
      ⊎ ((p.parse_failed ≡ false) × Ends p (m, q))
next-Ends {p} v honest e = elim (Bool-cases p.parse_failed) [
  | inl failed ↦
      let same = some_inj (sym (next_message-failed p failed) ∙ e) in
      inl (failed, ap (λ r. r.0) (sym same), ap (λ r. r.1) (sym same))
  | inr fine ↦ inr (fine, rw e at (next_message_lem v fine honest))
]

delivered_order :
    {p q : BinParser} {m : BinMessage} {start : ℕ} {payload : List ℕ}
    → Outcome p m q
    → m.at ≡ some start
    → load q.buffer start m.size ≡ some payload
    → unread p ≡ frame m.command payload ++ unread q
delivered_order {p} {q} {m} {start} {payload} (delivered _ d) at readable =
    let starts : d.start ≡ start = some_inj (sym d.data_at ∙ at) in
    let payloads : d.payload ≡ payload =
      some_inj (sym d.readable ∙ ap (λ k. load q.buffer k m.size) starts ∙ readable) in
    d.in_order ∙ ap (λ l. frame m.command l ++ unread q) payloads
delivered_order (waits e _ _ _) at readable = cc (sym (ap (λ r. r.at) e) ∙ at)
delivered_order (fails e _ _) at readable = cc (sym (ap (λ r. r.at) e) ∙ at)

idle_order :
    {p q : BinParser} {m : BinMessage}
    → Outcome p m q
    → m.at ≡ none
    → (q.parse_failed ≡ true) ⊎ (unread q ≡ unread p)
idle_order (delivered _ d) at = cc (sym d.data_at ∙ at)
idle_order (waits _ _ e _) at = inr e
idle_order (fails _ e _) at = inl e

Step-InOrder : {w u : World} → Step w u → InOrder w → InOrder u
Step-InOrder (append_step {w} {q} bytes o room e) f =
    let (q', e', valid, grows, flag) = append_lem bytes f.valid o room in
    let same : q' ≡ q = some_inj (sym e' ∙ e) in
    rw (← same) (record {
      valid = valid;
      in_order = elim f.in_order [
        | inl failed ↦ inl (flag ∙ failed)
        | inr order ↦ inr (
            ap (λ l. frames w.got ++ l) grows
            ∙ sym (append_assoc (frames w.got) (unread w.parser) bytes)
            ∙ ap (λ l. l ++ bytes) order)
      ];
    })
Step-InOrder (message_step {w} {m} {q} {start} {payload} honest e at readable) f =
    elim (next-Ends f.valid honest e) [
      | inl (failed, nothing, _) ↦ cc (sym (ap (λ r. r.at) nothing) ∙ at)
      | inr (fine, (valid, _, outcome)) ↦ record {
        valid = valid;
        in_order = elim f.in_order [
          | inl failed ↦ cc (fine, failed)
          | inr order ↦ inr (
              ap (λ l. l ++ unread q) (frames-snoc w.got m.command payload)
              ∙ append_assoc (frames w.got) (frame m.command payload) (unread q)
              ∙ ap (λ l. frames w.got ++ l) (sym (delivered_order outcome at readable))
              ∙ order)
        ];
      }
    ]
Step-InOrder (idle_step {w} {m} {q} honest e at) f = elim (next-Ends f.valid honest e) [
  | inl (failed, _, same) ↦ record { valid = rw same f.valid; in_order = inl (rw same failed) }
  | inr (fine, (valid, _, outcome)) ↦ record {
    valid = valid;
    in_order = elim (idle_order outcome at) [
      | inl broken ↦ inl broken
      | inr kept ↦ elim f.in_order [
        | inl failed ↦ cc (fine, failed)
        | inr order ↦ inr (ap (λ l. frames w.got ++ l) kept ∙ order)
      ]
    ];
  }
]

abbrev pub fresh : List ℕ → ℕ → World
fresh storage size = record { parser = init storage size; sent = []; got = [] }

-- In every run from a new parser, however the stream is cut into blocks and the calls are mixed
-- (each block fitting the buffer, no header announcing a size within 8 of 2^32): unless the parser
-- has failed, the messages returned, each with its header, followed by the bytes not yet parsed,
-- are exactly the bytes appended, in order.
pub Reach-InOrder :
    (storage : List ℕ) (size : ℕ) {w : World}
    → length storage ≡ size
    → size < 2 ^ 31
    → Octets storage
    → Reach (fresh storage size) w
    → InOrder w
Reach-InOrder storage size e h o here =
    let (valid, nothing) = init-IsValid storage size e h o in
    record { valid = valid; in_order = inr (unfold frames in nothing) }
Reach-InOrder storage size e h o (next r s) = Step-InOrder s (Reach-InOrder storage size e h o r)
