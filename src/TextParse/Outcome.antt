-- ===== src/TextParse/Outcome.antt =====
-- drivers/TBPipe/TBParse.cpp: what a call of TBParse::NextMessage makes of the bytes not yet parsed.
use kendryte_k210_base_proje.Prelude.{
  ℕ, zero, suc, ◌+◌, ◌-◌, ◌^◌, ◌≤◌, ◌<◌, ◌≡◌, refl, ap, ◌∙◌, ◌⊎◌, Bool, true, false, some, List, [],
  ◌∷◌, ◌++◌, ◌||◌, ◌==◌, sub32, get_elem?, length, some_inj, arith,
}
use kendryte_k210_base_proje.Memory.{
  put, seg, memcpy_lem, length-put, length-seg, seg-add, seg-put_self,
}
use kendryte_k210_base_proje.Prelude.{◌>>=◌}
use kendryte_k210_base_proje.Bytes.{All}
use kendryte_k210_base_proje.TextParse.{
  prefix_completed, PrefixParser, TextMessage, no_message, TextParser, compact,
}
use kendryte_k210_base_proje.TextParse.Inv.{IsSound}
use kendryte_k210_base_proje.TextParse.Append.{unread}

-- a carriage return or a line feed
abbrev pub IsLineEnd : ℕ → Type 0
IsLineEnd c = (c == 13 || c == 10) ≡ true

-- the bytes in the buffer from `i` on
abbrev pub bytes_from : {S : Type 0} → TextParser S → ℕ → List ℕ
bytes_from r i = seg r.buffer i (r.buffer_amount - i)

-- A prefix parser keeps `Valid` on bytes that are `Byte`, and then no packet that it announces has
-- 2 ^ 31 bytes or more.
pub record Keeps {S : Type 0} (prefixes : PrefixParser S) (Byte : ℕ → Type 0) (Valid : S → Type 0)
    : Type 0 where
  pub kept : (s : S) (c : ℕ) (first : Bool) → Byte c → Valid s → Valid (prefixes.parse s c first).1
  pub packet_small : (s : S) → Valid s → prefixes.packet_size s < 2 ^ 31

module _ {S : Type 0} (prefixes : PrefixParser S) where
  -- the last byte of `before` completes a prefix, which announces `size` bytes
  pub record Completes (before : List ℕ) (after : S) (size : ℕ) : Type 0 where
    pub front : List ℕ
    pub last : ℕ
    pub parser : S
    pub first : Bool
    pub split : before ≡ front ++ last ∷ []
    pub completed : prefixes.parse parser last first ≡ (prefix_completed, after)
    pub announced : prefixes.packet_size after ≡ size

  -- What a call has made of the bytes that were not parsed, with a packet of `pending` bytes
  -- announced or none: nothing, where it drops line ends alone, and where a packet is waited for
  -- not even these; a prefix, with a packet that is not there yet; a line; or a packet. What
  -- follows is still to be parsed.
  pub data Ends (pending : ℕ) (orig : List ℕ) : TextMessage → TextParser S → Type 0 where
    nothing :
        {q : TextParser S} (ends rest : List ℕ)
        → orig ≡ ends ++ rest
        → All IsLineEnd ends
        → (pending ≡ 0) ⊎ ((ends ≡ []) × (length rest < pending))
        → q.bin_message_size ≡ pending
        → q.buffer_pos ≡ 0
        → unread q ≡ rest
        → Ends pending orig no_message q
    prefix_only :
        {q : TextParser S} (before rest : List ℕ)
        → orig ≡ before ++ rest
        → pending ≡ 0
        → Completes before q.parser q.bin_message_size
        → length rest < q.bin_message_size
        → q.buffer_pos ≡ 0
        → unread q ≡ rest
        → Ends pending orig no_message q
    line :
        {q : TextParser S} (a size : ℕ) (ends bytes : List ℕ) (c : ℕ) (rest : List ℕ)
        → orig ≡ ends ++ (bytes ++ c ∷ rest)
        → pending ≡ 0
        → All IsLineEnd ends
        → IsLineEnd c
        → 0 < size
        → length bytes ≡ size
        → seg q.buffer a size ≡ bytes
        → get_elem? q.buffer (a + size) ≡ some 0
        → a + size + 1 ≡ q.buffer_pos
        → q.bin_message_size ≡ 0
        → unread q ≡ rest
        → Ends pending orig (record { is_text = true; size = size; at = some a }) q
    packet :
        {q : TextParser S} (a size : ℕ) (before bytes rest : List ℕ)
        → orig ≡ before ++ (bytes ++ rest)
        → ((before ≡ []) × (size ≡ pending)) ⊎ (Completes before q.parser size × (pending ≡ 0))
        → length bytes ≡ size
        → seg q.buffer a size ≡ bytes
        → a + size ≡ q.buffer_pos
        → q.bin_message_size ≡ 0
        → unread q ≡ rest
        → Ends pending orig (record { is_text = false; size = size; at = some a }) q

seg-cons :
    (buf : List ℕ) (i m : ℕ) {c : ℕ}
    → get_elem? buf i ≡ some c
    → seg buf i (suc m) ≡ c ∷ seg buf (suc i) m
seg-cons [] i m e = cc
seg-cons (b ∷ buf) zero m e = ap (λ x. x ∷ seg buf 0 m) (some_inj e)
seg-cons (b ∷ buf) (suc i) m e = seg-cons buf i m e

module _ {S : Type 0} (r : TextParser S) where
  -- The bytes are cut in two at any place.
  pub bytes_from_cut :
      (i j : ℕ)
      → i ≤ j
      → j ≤ r.buffer_amount
      → bytes_from r i ≡ seg r.buffer i (j - i) ++ bytes_from r j
  bytes_from_cut i j hi hj =
      ap (seg r.buffer i) (omega arith)
      ∙ seg-add r.buffer i (j - i) (r.buffer_amount - j)
      ∙ ap (λ k. seg r.buffer i (j - i) ++ seg r.buffer k (r.buffer_amount - j)) (omega arith)

  pub bytes_from_next :
      (i : ℕ) {c : ℕ}
      → i < r.buffer_amount
      → get_elem? r.buffer i ≡ some c
      → bytes_from r i ≡ c ∷ bytes_from r (suc i)
  bytes_from_next i h e =
      let one_more : r.buffer_amount - i ≡ suc (r.buffer_amount - suc i) = omega arith in
      ap (seg r.buffer i) one_more ∙ seg-cons r.buffer i (r.buffer_amount - suc i) e

  pub length-bytes_from :
      (i : ℕ) → IsSound r → i ≤ r.buffer_amount → length (bytes_from r i) ≡ r.buffer_amount - i
  length-bytes_from i v h =
      length-seg r.buffer i (r.buffer_amount - i) (omega (arith, v.storage, v.amount_in))

  -- `compact` keeps the bytes from `start` on, at the start of the buffer.
  pub compact_lem :
      (start : ℕ)
      → IsSound r
      → start ≤ r.buffer_amount
      → (q : TextParser S) × (compact start r ≡ some (no_message, q))
        × IsSound q
        × (q.parser ≡ r.parser)
        × (q.bin_message_size ≡ r.bin_message_size)
        × (q.buffer_pos ≡ 0)
        × (unread q ≡ bytes_from r start)
  unfolding compact
  compact_lem start v h =
      let n : ℕ = sub32 r.buffer_amount start in
      let n_eq : n ≡ r.buffer_amount - start = omega (arith, v.small, v.amount_in) in
      let moved : List ℕ = seg r.buffer start n in
      let moved_length : length moved ≡ n =
        length-seg r.buffer start n (omega (arith, v.storage, v.amount_in)) in
      let kept : length (put r.buffer 0 moved) ≡ length r.buffer =
        length-put r.buffer 0 moved (omega (arith, v.storage, v.amount_in)) in
      let after : List ℕ → TextParser S =
        λ buf. record r { buffer = buf; buffer_amount = n; buffer_pos = 0 } in
      (
        after (put r.buffer 0 moved),
        ap (λ o. o >>= λ buf. some (no_message, after buf))
            (memcpy_lem r.buffer 0 r.buffer start n (omega (arith, v.storage, v.amount_in))
              (omega (arith, v.storage, v.amount_in))),
        record {
          storage = kept ∙ v.storage;
          small = v.small;
          pos_in = omega arith;
          amount_in = omega (arith, v.amount_in);
          packet_small = v.packet_small;
        },
        refl,
        refl,
        refl,
        ap (seg (put r.buffer 0 moved) 0) (omega (arith, moved_length))
            ∙ seg-put_self r.buffer 0 moved (omega arith)
            ∙ ap (seg r.buffer start) n_eq,
      )
