-- ===== src/TextParse/Scanned.antt =====
-- drivers/TBPipe/TBParse.cpp: the state of the loop of TBParse::NextMessage, and the end of a line.
use kendryte_k210_base_proje.Prelude.{
  ℕ, suc, ◌-◌, ◌≤◌, ◌<◌, ◌≡◌, refl, sym, ap, ◌∙◌, inl, inr, Bool, true, Option, some, List, [], ◌∷◌,
  ◌++◌, ◌==◌, if◌then◌else◌, add32, sub32, get_elem?, append_assoc, arith, Returns, Returns_of_eq,
  Bool-cases,
}
use kendryte_k210_base_proje.Memory.{
  store, put, seg, store_lem, length-put, length-seg, seg-put_below, seg-put_above,
}
use kendryte_k210_base_proje.Prelude.{◌>>=◌}
use kendryte_k210_base_proje.Bytes.{All, All-append}
use kendryte_k210_base_proje.TextParse.{
  PrefixParser, TextMessage, TextParser, Round, returns, leaves, continues, end_line,
}
use kendryte_k210_base_proje.TextParse.Inv.{IsSound, get_elem?-put, advanced, advanced-IsSound}
use kendryte_k210_base_proje.TextParse.Outcome.{
  IsLineEnd, bytes_from, Completes, Ends, line, bytes_from_cut, bytes_from_next,
}

module _ {S : Type 0} (prefixes : PrefixParser S) (Valid : S → Type 0) (orig : List ℕ) where
  -- the loop has dropped line ends of `orig`, and looks at the bytes from `start` on
  pub record Scanned (start : ℕ) (r : TextParser S) : Type 0 where
    pub sound : IsSound r
    pub start_in : start ≤ r.buffer_pos
    pub valid : Valid r.parser
    pub no_packet : r.bin_message_size ≡ 0
    pub ends : List ℕ
    pub line_ends : All IsLineEnd ends
    pub split : orig ≡ ends ++ bytes_from r start

  -- a prefix is complete, and its packet is not there
  pub record Announced (start : ℕ) (q : TextParser S) : Type 0 where
    pub sound : IsSound q
    pub start_in : start ≤ q.buffer_amount
    pub valid : Valid q.parser
    pub before : List ℕ
    pub split : orig ≡ before ++ bytes_from q start
    pub completes : Completes prefixes before q.parser q.bin_message_size
    pub short : q.buffer_amount - start < q.bin_message_size

  abbrev pub IsGood : ℕ → TextMessage × TextParser S → Type 0
  IsGood pending (m, q) = IsSound q × Valid q.parser × Ends prefixes pending orig m q

  -- what a round leaves of `p`
  abbrev pub RoundIsGood : TextParser S → Round S → Type 0
  RoundIsGood p (returns m q) = IsGood 0 (m, q)
  RoundIsGood p (leaves start q) = Announced start q
  RoundIsGood p (continues start q) =
      Scanned start q × (q.buffer_pos ≡ suc p.buffer_pos) × (q.buffer_amount ≡ p.buffer_amount)

  -- The byte at the read position, between what the line has so far and what follows.
  pub cut_at :
      (start : ℕ) (p : TextParser S) (c : ℕ)
      → (g : Scanned start p) → p.buffer_pos < p.buffer_amount
      → get_elem? p.buffer p.buffer_pos ≡ some c
      → orig
        ≡ g.ends
          ++ (seg p.buffer start (p.buffer_pos - start) ++ c ∷ bytes_from p (suc p.buffer_pos))
  cut_at start p c g h at =
      g.split
      ∙ ap (◌++◌ g.ends) (
          bytes_from_cut p start p.buffer_pos g.start_in (omega arith)
          ∙ ap (◌++◌ (seg p.buffer start (p.buffer_pos - start)))
              (bytes_from_next p p.buffer_pos h at))

  -- A round that goes on with the same line.
  pub goes_on :
      (start : ℕ) (p : TextParser S) (s : S)
      → Scanned start p
      → Valid s
      → p.buffer_pos < p.buffer_amount
      → RoundIsGood p (continues start (advanced p s))
  goes_on start p s g vs h =
      let v = g.sound in
      let pos_next : add32 p.buffer_pos 1 ≡ suc p.buffer_pos =
        omega (arith, v.small, v.amount_in) in
      (
        record {
          sound = advanced-IsSound p s v h;
          start_in = omega (arith, g.start_in);
          valid = vs;
          no_packet = g.no_packet;
          ends = g.ends;
          line_ends = g.line_ends;
          split = g.split;
        },
        pos_next,
        refl,
      )

  pub end_line-IsGood :
      (start : ℕ) (p : TextParser S) (s : S) (c : ℕ)
      → Scanned start p
      → Valid s
      → p.buffer_pos < p.buffer_amount
      → get_elem? p.buffer p.buffer_pos ≡ some c
      → IsLineEnd c
      → Returns (end_line start (advanced p s)) (RoundIsGood p)
  unfolding end_line
  end_line-IsGood start p s c g vs h at is_end =
      let v = g.sound in
      let pos : ℕ = p.buffer_pos in
      let pos_next : add32 pos 1 ≡ suc pos = omega (arith, v.small, v.amount_in) in
      let pos_back : sub32 (add32 pos 1) 1 ≡ pos = omega (arith, v.small, v.amount_in) in
      let buf : List ℕ = put p.buffer pos (0 ∷ []) in
      let size : ℕ = sub32 (sub32 (add32 pos 1) start) 1 in
      let size_eq : size ≡ pos - start = omega (arith, v.small, v.amount_in, g.start_in) in
      let q : TextParser S = record p { buffer = buf; buffer_pos = add32 pos 1; parser = s } in
      let message : TextMessage = record { is_text = true; size = size; at = some start } in
      let stored : store p.buffer (sub32 (add32 pos 1) 1) (0 ∷ []) ≡ some buf =
        ap (λ i. store p.buffer i (0 ∷ [])) pos_back
        ∙ store_lem p.buffer pos (0 ∷ []) (omega (arith, v.storage, v.amount_in)) in
      let rest_of : List ℕ → Option (Round S) = λ l.
        let r : TextParser S = record p { buffer = l; buffer_pos = add32 pos 1; parser = s } in
        if size == 0 then some (continues r.buffer_pos r) else some (returns message r) in
      let runs : end_line start (advanced p s) ≡ rest_of buf = ap (λ r. r >>= rest_of) stored in
      let sound : IsSound q = record {
        storage =
            length-put p.buffer pos (0 ∷ []) (omega (arith, v.storage, v.amount_in)) ∙ v.storage;
        small = v.small;
        pos_in = omega arith;
        amount_in = v.amount_in;
        packet_small = v.packet_small;
      } in
      let seen = seg p.buffer start (pos - start) in
      let later : bytes_from q (add32 pos 1) ≡ bytes_from p (suc pos) =
        ap (bytes_from q) pos_next
        ∙ seg-put_above p.buffer pos (suc pos) (p.buffer_amount - suc pos) (0 ∷ []) (omega arith) in
      let cut : orig ≡ g.ends ++ (seen ++ c ∷ bytes_from q (add32 pos 1)) =
        cut_at start p c g h at ∙ ap (λ xs. g.ends ++ (seen ++ c ∷ xs)) (sym later) in
      let choose : Bool → Option (Round S) =
        λ b. if b then some (continues q.buffer_pos q) else some (returns message q) in
      elim (Bool-cases (size == 0)) [
        | inl none_seen ↦
            let here : pos - start ≡ 0 = ground (arith, none_seen, size_eq) in
            Returns_of_eq (RoundIsGood p) (runs ∙ ap choose none_seen) (
              record {
                sound = sound;
                start_in = omega arith;
                valid = vs;
                no_packet = g.no_packet;
                ends = g.ends ++ c ∷ [];
                line_ends = All-append _ g.ends (c ∷ []) g.line_ends (is_end, tt);
                split =
                    cut
                    ∙ ap (λ k. g.ends ++ (seg p.buffer start k ++ c ∷ bytes_from q (add32 pos 1)))
                        here
                    ∙ sym (append_assoc g.ends (c ∷ []) (bytes_from q (add32 pos 1)));
              },
              pos_next,
              refl,
            )
        | inr some_seen ↦
            let nonzero : 0 < size = ground (arith, some_seen) in
            Returns_of_eq (RoundIsGood p) (runs ∙ ap choose some_seen) (
              sound,
              vs,
              line start size g.ends seen c (bytes_from q (add32 pos 1)) cut refl g.line_ends is_end
                  nonzero
                  (length-seg p.buffer start (pos - start)
                      (omega (arith, v.storage, v.amount_in, g.start_in))
                    ∙ sym size_eq)
                  (seg-put_below p.buffer pos start size (0 ∷ [])
                      (omega (arith, size_eq, g.start_in))
                    ∙ ap (seg p.buffer start) size_eq)
                  (ap (get_elem? buf) (omega (arith, size_eq, g.start_in))
                    ∙ get_elem?-put p.buffer pos (omega (arith, v.storage, v.amount_in)))
                  (omega (arith, size_eq, g.start_in, pos_next)) g.no_packet refl,
            )
      ]
