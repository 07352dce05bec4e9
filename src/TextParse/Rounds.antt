-- ===== src/TextParse/Rounds.antt =====
-- drivers/TBPipe/TBParse.cpp: the rounds of the loop of TBParse::NextMessage.
use kendryte_k210_base_proje.Prelude.{
  ℕ, suc, ◌+◌, ◌-◌, ◌^◌, ◌≤◌, ◌<◌, ◌≡◌, refl, sym, ap, ◌∙◌, inl, inr, Bool, false, Option, some,
  List, [], ◌∷◌, ◌++◌, ◌||◌, leb, ◌==◌, if◌then◌else◌, add32, sub32, get_elem?, append_assoc, subst,
  arith, Returns, Returns_of_eq, Bool-cases, leb→le,
}
use kendryte_k210_base_proje.Memory.{seg, length-seg}
use kendryte_k210_base_proje.Prelude.{◌>>=◌}
use kendryte_k210_base_proje.Bytes.{All}
use kendryte_k210_base_proje.TextParse.{
  Result, not_matched, prefix_matched, prefix_completed, PrefixParser, TextMessage, TextParser,
  Round, returns, leaves, continues, end_line, matched, round,
}
use kendryte_k210_base_proje.TextParse.Inv.{Returns-if, get_elem?_in_range, advanced}
use kendryte_k210_base_proje.TextParse.Outcome.{
  bytes_from, Keeps, Completes, packet, bytes_from_cut,
}
use kendryte_k210_base_proje.TextParse.Scanned.{
  Scanned, RoundIsGood, cut_at, goes_on, end_line-IsGood,
}

All-behind : (P : ℕ → Type 0) (xs ys : List ℕ) → All P (xs ++ ys) → All P ys
All-behind P [] ys h = h
All-behind P (x ∷ xs) ys h = All-behind P xs ys h.1

All-at : (P : ℕ → Type 0) (xs : List ℕ) (c : ℕ) (ys : List ℕ) → All P (xs ++ c ∷ ys) → P c
All-at P [] c ys h = h.0
All-at P (x ∷ xs) c ys h = All-at P xs c ys h.1

module _ {S : Type 0} (prefixes : PrefixParser S) {Byte : ℕ → Type 0} {Valid : S → Type 0}
    (keeps : Keeps prefixes Byte Valid) (orig : List ℕ) where
  abbrev Good : TextParser S → Round S → Type 0
  Good = RoundIsGood prefixes Valid orig

  module _ (c start : ℕ) (p : TextParser S) (s : S) (first : Bool)
      (g : Scanned prefixes Valid orig start p) (h : p.buffer_pos < p.buffer_amount)
      (at : get_elem? p.buffer p.buffer_pos ≡ some c) (vs : Valid s) where
    abbrev until_here : List ℕ
    until_here = g.ends ++ (seg p.buffer start (p.buffer_pos - start) ++ c ∷ [])

    until_here_split : orig ≡ until_here ++ bytes_from p (suc p.buffer_pos)
    until_here_split =
        let seen = seg p.buffer start (p.buffer_pos - start) in
        cut_at prefixes Valid orig start p c g h at
        ∙ ap (◌++◌ g.ends) (sym (append_assoc seen (c ∷ []) (bytes_from p (suc p.buffer_pos))))
        ∙ sym (append_assoc g.ends (seen ++ c ∷ []) (bytes_from p (suc p.buffer_pos)))

    until_here-Completes :
        prefixes.parse p.parser c first ≡ (prefix_completed, s)
        → Completes prefixes until_here s (prefixes.packet_size s)
    until_here-Completes call = record {
      front = g.ends ++ seg p.buffer start (p.buffer_pos - start);
      last = c;
      parser = p.parser;
      first = first;
      split = sym (append_assoc g.ends (seg p.buffer start (p.buffer_pos - start)) (c ∷ []));
      completed = call;
      announced = refl;
    }

    completed-IsGood :
        prefixes.parse p.parser c first ≡ (prefix_completed, s)
        → Returns (matched prefixes prefix_completed c start (advanced p s)) (Good p)
    unfolding matched
    completed-IsGood call =
        let v = g.sound in
        let pos : ℕ = add32 p.buffer_pos 1 in
        let pos_next : pos ≡ suc p.buffer_pos = omega (arith, v.small, v.amount_in) in
        let size : ℕ = prefixes.packet_size s in
        let size_in : size < 2 ^ 31 = keeps.packet_small s vs in
        let q : TextParser S = record p { buffer_pos = pos; parser = s; bin_message_size = size } in
        let r : TextParser S = record p {
          buffer_pos = add32 pos size;
          parser = s;
          bin_message_size = 0;
        } in
        let message : TextMessage = record { is_text = false; size = size; at = some pos } in
        let choose : Bool → Option (Round S) =
          λ b. if b then some (returns message r) else some (leaves pos q) in
        let sum : add32 pos size ≡ pos + size = omega (arith, v.small, v.amount_in) in
        let split : orig ≡ until_here ++ bytes_from p pos =
          until_here_split ∙ ap (λ i. until_here ++ bytes_from p i) (sym pos_next) in
        elim (Bool-cases (leb (add32 pos size) p.buffer_amount)) [
          | inl fits ↦
              let inside : add32 pos size ≤ p.buffer_amount =
                leb→le (add32 pos size) p.buffer_amount fits in
              let length_of : add32 pos size - pos ≡ size = omega (arith, sum) in
              let body : bytes_from p pos ≡ seg p.buffer pos size ++ bytes_from p (add32 pos size) =
                bytes_from_cut p pos (add32 pos size) (omega (arith, sum)) inside
                ∙ ap (λ k. seg p.buffer pos k ++ bytes_from p (add32 pos size)) length_of in
              Returns_of_eq (Good p) (ap choose fits) (
                record {
                  storage = v.storage;
                  small = v.small;
                  pos_in = inside;
                  amount_in = v.amount_in;
                  packet_small = omega arith;
                },
                vs,
                packet pos size until_here (seg p.buffer pos size) (bytes_from p (add32 pos size))
                    (split ∙ ap (◌++◌ until_here) body) (inr (until_here-Completes call, refl))
                    (length-seg p.buffer pos size
                      (omega (arith, v.storage, v.amount_in, sum, inside)))
                    refl (sym sum) refl refl,
              )
          | inr waits ↦ Returns_of_eq (Good p) (ap choose waits) (record {
            sound = record {
              storage = v.storage;
              small = v.small;
              pos_in = omega arith;
              amount_in = v.amount_in;
              packet_small = size_in;
            };
            start_in = omega arith;
            valid = vs;
            before = until_here;
            split = split;
            completes = until_here-Completes call;
            short = ground (arith, waits, sum);
          })
        ]

    matched-IsGood :
        (result : Result)
        → prefixes.parse p.parser c first ≡ (result, s)
        → Returns (matched prefixes result c start (advanced p s)) (Good p)
    unfolding matched
    matched-IsGood prefix_completed call = completed-IsGood call
    matched-IsGood prefix_matched call = goes_on prefixes Valid orig start p s g vs h
    matched-IsGood not_matched call =
        Returns-if (Good p) (c == 13 || c == 10) (end_line start (advanced p s))
          (some (continues start (advanced p s)))
          (λ ends. end_line-IsGood prefixes Valid orig start p s c g vs h at ends)
          (λ goes. goes_on prefixes Valid orig start p s g vs h)

  pub round-IsGood :
      All Byte orig
      → (start : ℕ) (p : TextParser S) → Scanned prefixes Valid orig start p
      → p.buffer_pos < p.buffer_amount
      → Returns (round prefixes start p) (Good p)
  unfolding round
  round-IsGood all_bytes start p g h =
      let v = g.sound in
      let (c, read) =
        get_elem?_in_range p.buffer p.buffer_pos (omega (arith, v.storage, v.amount_in)) in
      let first : Bool = sub32 (add32 p.buffer_pos 1) 1 == start in
      let rest_of : ℕ → Option (Round S) = λ b.
        let (result, s) = prefixes.parse p.parser b first in
        matched prefixes result b start (advanced p s) in
      let call : Result × S = prefixes.parse p.parser c first in
      let seen = seg p.buffer start (p.buffer_pos - start) in
      let behind = c ∷ bytes_from p (suc p.buffer_pos) in
      let is_byte : Byte c = All-at Byte seen c (bytes_from p (suc p.buffer_pos)) (
        All-behind Byte g.ends (seen ++ behind)
          (subst (All Byte) (cut_at prefixes Valid orig start p c g h read) all_bytes)) in
      subst (λ o. Returns o (Good p)) (sym (ap (λ r. r >>= rest_of) read))
        (matched-IsGood c start p call.1 first g h read
          (keeps.kept p.parser c first is_byte g.valid) call.0 refl)
