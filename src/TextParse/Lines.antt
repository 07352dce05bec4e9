-- ===== src/TextParse/Lines.antt =====
-- drivers/TBPipe/TBParse.cpp: TBParse::NextMessage on a line of text.
use kendryte_k210_base_proje.Prelude.{
  ℕ, zero, suc, ◌+◌, ◌-◌, ◌≤◌, ◌<◌, ◌≡◌, refl, sym, ap, ◌∙◌, Bool, true, false, ◌||◌, Option, some,
  List, [], ◌∷◌, ◌++◌, leb, ◌==◌, if◌then◌else◌, add32, sub32, get_elem?, length, drop, take,
  lt→ltb, ne→==_false, arith, ◌>>=◌, take-append, drop-drop, drop-append,
}
use kendryte_k210_base_proje.Memory.{store, put, seg, store_lem, seg-put_below, drop-put_above}
use kendryte_k210_base_proje.TextParse.{
  not_matched, PrefixParser, TextMessage, TextParser, Round, returns, leaves, continues, compact,
  binary_message, end_line, matched, round, scan, next_message,
}
use kendryte_k210_base_proje.TextParse.Inv.{IsSound, advanced, advanced-IsSound}

abbrev pub ends_line : ℕ → Bool
ends_line c = (c == 13) || (c == 10)

-- no carriage return or line feed
pub data IsLine : List ℕ → Type 0 where
  empty : IsLine []
  character : {c : ℕ} {cs : List ℕ} → ends_line c ≡ false → IsLine cs → IsLine (c ∷ cs)

get_elem?-drop :
    (buf : List ℕ) (i : ℕ) {c : ℕ} {cs : List ℕ} → drop i buf ≡ c ∷ cs → get_elem? buf i ≡ some c
get_elem?-drop [] zero h = ap (λ l. get_elem? l 0) h
get_elem?-drop [] (suc i) h = ap (λ l. get_elem? l 0) h
get_elem?-drop (b ∷ buf) zero h = ap (λ l. get_elem? l 0) h
get_elem?-drop (b ∷ buf) (suc i) h = get_elem?-drop buf i h

drop-suc :
    (buf : List ℕ) (i : ℕ) {c : ℕ} {cs : List ℕ} → drop i buf ≡ c ∷ cs → drop (suc i) buf ≡ cs
drop-suc [] zero h = ap (drop 1) h
drop-suc [] (suc i) h = ap (drop 1) h
drop-suc (b ∷ buf) zero h = ap (drop 1) h
drop-suc (b ∷ buf) (suc i) h = drop-suc buf i h

module _ {S : Type 0} (prefixes : PrefixParser S)
    (quiet : (s : S) (c : ℕ) (first : Bool) → (prefixes.parse s c first).0 ≡ not_matched) where
  -- a round up to the choice by the byte
  round_byte :
      (start : ℕ) (p : TextParser S) (c : ℕ) {cs : List ℕ}
      → drop p.buffer_pos p.buffer ≡ c ∷ cs
      → (s : S) × (round prefixes start p ≡ matched prefixes not_matched c start (advanced p s))
  unfolding round
  round_byte start p c h =
      let first : Bool = sub32 (add32 p.buffer_pos 1) 1 == start in
      let rest_of : ℕ → Option (Round S) = λ b.
        let (result, s) = prefixes.parse p.parser b (sub32 (add32 p.buffer_pos 1) 1 == start) in
        matched prefixes result b start (advanced p s) in
      let s : S = (prefixes.parse p.parser c first).1 in
      (
        s,
        ap (λ r. r >>= rest_of) (get_elem?-drop p.buffer p.buffer_pos h)
            ∙ ap (λ result. matched prefixes result c start (advanced p s))
                (quiet p.parser c first),
      )

  end_line_lem :
      (start : ℕ) (p : TextParser S) (s : S)
      → IsSound p
      → p.buffer_pos < p.buffer_amount
      → start < p.buffer_pos
      → end_line start (advanced p s)
        ≡ some (
            returns
              (record { is_text = true; size = p.buffer_pos - start; at = some start })
              (record p {
                buffer = put p.buffer p.buffer_pos (0 ∷ []);
                buffer_pos = suc p.buffer_pos;
                parser = s;
              }))
  unfolding end_line
  end_line_lem start p s v h hs =
      let pos : ℕ = p.buffer_pos in
      let pos_next : add32 pos 1 ≡ suc pos = omega (arith, v.small, v.amount_in) in
      let pos_back : sub32 (add32 pos 1) 1 ≡ pos = omega (arith, v.small, v.amount_in) in
      let size : ℕ = sub32 (sub32 (add32 pos 1) start) 1 in
      let size_eq : size ≡ pos - start = omega (arith, v.small, v.amount_in) in
      let nonzero : (size == 0) ≡ false = ne→==_false size 0 (omega (arith, size_eq)) in
      let state : ℕ → List ℕ → TextParser S =
        λ k l. record p { buffer = l; buffer_pos = k; parser = s } in
      let line : ℕ → TextMessage = λ k. record { is_text = true; size = k; at = some start } in
      let buf : List ℕ = put p.buffer pos (0 ∷ []) in
      let rest_of : List ℕ → Option (Round S) = λ l.
        if size == 0
        then some (continues (add32 pos 1) (state (add32 pos 1) l))
        else some (returns (line size) (state (add32 pos 1) l)) in
      ap (λ r. r >>= rest_of)
        (ap (λ i. store p.buffer i (0 ∷ [])) pos_back
          ∙ store_lem p.buffer pos (0 ∷ []) (omega (arith, v.storage, v.amount_in)))
      ∙ ap
          (λ b.
            if b
            then some (continues (add32 pos 1) (state (add32 pos 1) buf))
            else some (returns (line size) (state (add32 pos 1) buf)))
          nonzero
      ∙ ap (λ k. some (returns (line k) (state (add32 pos 1) buf))) size_eq
      ∙ ap (λ k. some (returns (line (pos - start)) (state k buf))) pos_next

  scan-round :
      (fuel start : ℕ) (p : TextParser S) (r : Round S)
      → p.buffer_pos < p.buffer_amount
      → round prefixes start p ≡ some r
      → scan prefixes (suc fuel) start p ≡ (elim r [
        | returns message q ↦ some (message, q)
        | leaves from q ↦ compact from q
        | continues from q ↦ scan prefixes fuel from q
      ])
  unfolding scan
  scan-round fuel start p r h e =
      let next : Round S → Option (TextMessage × TextParser S) = λ k. elim k [
        | returns message q ↦ some (message, q)
        | leaves from q ↦ compact from q
        | continues from q ↦ scan prefixes fuel from q
      ] in
      ap (λ b. if b then round prefixes start p >>= next else compact start p)
        (lt→ltb p.buffer_pos p.buffer_amount h)
      ∙ ap (λ o. o >>= next) e

  -- what NextMessage gives for a line from `start` on that ends at `end`
  abbrev pub IsLineOf : TextParser S → ℕ → ℕ → TextMessage → TextParser S → Type 0
  IsLineOf p start end m q =
      (m ≡ record { is_text = true; size = end - start; at = some start })
      × (q.buffer ≡ put p.buffer end (0 ∷ []))
      × (q.buffer_pos ≡ suc end)
      × (q.buffer_amount ≡ p.buffer_amount)

  scan_line :
      (fuel start : ℕ) (p : TextParser S) (line : List ℕ) (c : ℕ) (cs : List ℕ)
      → IsSound p
      → drop p.buffer_pos p.buffer ≡ line ++ c ∷ cs
      → IsLine line
      → ends_line c ≡ true
      → start ≤ p.buffer_pos
      → start < p.buffer_pos + length line
      → p.buffer_pos + length line < p.buffer_amount
      → length line < fuel
      → (m : TextMessage) × (q : TextParser S) × (scan prefixes fuel start p ≡ some (m, q))
        × IsLineOf p start (p.buffer_pos + length line) m q
  unfolding scan matched
  scan_line zero start p line c cs v h l e hs hn ha hf = absurd (omega arith)
  scan_line (suc fuel) start p [] c cs v h l e hs hn ha hf =
      let (s, byte) = round_byte start p c h in
      let end : p.buffer_pos ≡ p.buffer_pos + 0 = omega arith in
      let message : ℕ → TextMessage =
        λ k. record { is_text = true; size = k - start; at = some start } in
      let q : TextParser S = record p {
        buffer = put p.buffer p.buffer_pos (0 ∷ []);
        buffer_pos = suc p.buffer_pos;
        parser = s;
      } in
      let choose : Bool → Option (Round S) =
        λ b. if b then end_line start (advanced p s) else some (continues start (advanced p s)) in
      let gives : round prefixes start p ≡ some (returns (message p.buffer_pos) q) =
        byte ∙ ap choose e ∙ end_line_lem start p s v (omega arith) (omega arith) in
      (
        message p.buffer_pos,
        q,
        scan-round fuel start p (returns (message p.buffer_pos) q) (omega arith) gives,
        (ap message end, ap (λ i. put p.buffer i (0 ∷ [])) end, ap suc end, refl),
      )
  scan_line (suc fuel) start p (b ∷ bs) c cs v h (character nb l) e hs hn ha hf =
      let (s, byte) = round_byte start p b h in
      let q : TextParser S = advanced p s in
      let next_pos : q.buffer_pos ≡ suc p.buffer_pos = omega (arith, v.small, v.amount_in) in
      let choose : Bool → Option (Round S) =
        λ k. if k then end_line start q else some (continues start q) in
      let gives : round prefixes start p ≡ some (continues start q) = byte ∙ ap choose nb in
      let there : drop q.buffer_pos q.buffer ≡ bs ++ c ∷ cs =
        ap (λ k. drop k p.buffer) next_pos ∙ drop-suc p.buffer p.buffer_pos h in
      let end : q.buffer_pos + length bs ≡ p.buffer_pos + suc (length bs) =
        omega (arith, next_pos) in
      let (m, r, runs, (is_m, buf, pos, amount)) =
        scan_line fuel start q bs c cs (advanced-IsSound p s v (omega arith)) there l e
          (omega (arith, next_pos)) (omega (arith, next_pos)) (omega (arith, next_pos))
          (omega arith) in
      (
        m,
        r,
        scan-round fuel start p (continues start q) (omega arith) gives ∙ runs,
        (
          is_m ∙ ap (λ k. record { is_text = true; size = k - start; at = some start }) end,
          buf ∙ ap (λ i. put p.buffer i (0 ∷ [])) end,
          pos ∙ ap suc end,
          amount,
        ),
      )

  -- `NextMessage`, with a prefix parser that matches nothing and no packet pending, when a line
  -- that is not empty lies at the read position, with its `\r` or `\n` in the filled part: it
  -- returns that line as text, in place and unchanged, and goes on right behind the end of the
  -- line, where nothing has changed.
  pub next_message-line :
      (p : TextParser S) (line : List ℕ) (c : ℕ) (cs : List ℕ)
      → IsSound p
      → p.bin_message_size ≡ 0
      → drop p.buffer_pos p.buffer ≡ line ++ c ∷ cs
      → IsLine line
      → 0 < length line
      → ends_line c ≡ true
      → p.buffer_pos + length line < p.buffer_amount
      → (q : TextParser S) × (next_message prefixes p
          ≡ some (record { is_text = true; size = length line; at = some p.buffer_pos }, q))
        × (seg q.buffer p.buffer_pos (length line) ≡ line)
        × (q.buffer_pos ≡ p.buffer_pos + length line + 1)
        × (q.buffer_amount ≡ p.buffer_amount)
        × (drop q.buffer_pos q.buffer ≡ cs)
  unfolding next_message
  next_message-line p line c cs v none_pending h l hl e ha =
      let n : ℕ = length line in
      let start : ℕ = p.buffer_pos in
      let left : sub32 p.buffer_amount start ≡ p.buffer_amount - start =
        omega (arith, v.small, v.pos_in, v.amount_in) in
      let (m, q, runs, (is_m, buf, pos, amount)) =
        scan_line (suc (sub32 p.buffer_amount start)) start p line c cs v h l e (omega arith)
          (omega arith) ha (omega arith) in
      let size : start + n - start ≡ n = omega arith in
      let otherwise : Option (TextMessage × TextParser S) =
        if leb (add32 start p.bin_message_size) p.buffer_amount
        then some (binary_message p)
        else compact start p in
      let searching : (p.bin_message_size == 0) ≡ true = ap (λ k. k == 0) none_pending in
      let behind : drop (start + n) p.buffer ≡ c ∷ cs =
        sym (drop-drop n start p.buffer) ∙ ap (drop n) h ∙ drop-append line (c ∷ cs) in
      let there : start + n + 1 ≡ suc (start + n) = omega arith in
      (
        q,
        ap (λ b. if b then scan prefixes (suc (sub32 p.buffer_amount start)) start p else otherwise)
              searching
            ∙ runs
            ∙ ap (λ k. some (k, q))
                (is_m ∙ ap (λ k. record { is_text = true; size = k; at = some start }) size),
        ap (λ l. seg l start n) buf
            ∙ seg-put_below p.buffer (start + n) start n (0 ∷ []) (omega arith)
            ∙ ap (take n) h
            ∙ take-append line (c ∷ cs),
        pos ∙ sym there,
        amount,
        ap (λ k. drop k q.buffer) pos
            ∙ ap (drop (suc (start + n))) buf
            ∙ drop-put_above p.buffer (start + n) (suc (start + n)) (0 ∷ []) (omega arith)
            ∙ drop-suc p.buffer (start + n) behind,
      )
