-- ===== src/TextParse/Esp8266.antt =====
-- drivers/TBPipe/TBParse.cpp: the numbers of a "+IPD,<link ID>,<len>:" prefix.
use kendryte_k210_base_proje.Prelude.{
  ℕ, ◌+◌, ◌-◌, ◌*◌, ◌≤◌, ◌<◌, ◌≡◌, refl, sym, ap, ap₂, ◌∙◌, true, false, List, [], ◌∷◌, ◌++◌,
  append_assoc, append-nil, length, length-append, ne→==_false, lt→ltb, le→leb, lt→leb_false, arith,
}
use kendryte_k210_base_proje.Memory.{put, length-put}
use kendryte_k210_base_proje.TextParse.{Result, not_matched, prefix_matched, prefix_completed}
use kendryte_k210_base_proje.TextParse.Prefix.{
  EspState, link_number, len, ending, Esp8266, is_digit, digits_value, atoi, esp8266_parse,
  esp8266_prefix, follow, feed,
}

pub data AreDigits : List ℕ → Type 0 where
  no_digit : AreDigits []
  digit : {d : ℕ} {ds : List ℕ} → is_digit d ≡ true → AreDigits ds → AreDigits (d ∷ ds)

digit-range : (d : ℕ) → is_digit d ≡ true → (48 ≤ d) × (d ≤ 57)
digit-range d h = ground (arith, h)

-- the state of the parser in the middle of a number
abbrev in_number : EspState → Esp8266 → ℕ → List ℕ → Esp8266
in_number state s off buf = record s { state = state; offset = off; num_buf = buf }

put_middle :
    (xs : List ℕ) (r d : ℕ) (rs : List ℕ) → put (xs ++ r ∷ rs) (length xs) (d ∷ []) ≡ xs ++ d ∷ rs
put_middle [] r d rs = refl
put_middle (x ∷ xs) r d rs = ap (◌∷◌ x) (put_middle xs r d rs)

follow-append :
    (r : Result × Esp8266) (xs ys : List ℕ)
    → follow esp8266_prefix r (xs ++ ys) ≡ follow esp8266_prefix (follow esp8266_prefix r xs) ys
unfolding follow
follow-append r [] ys = refl
follow-append r (x ∷ xs) ys = follow-append (esp8266_prefix.parse r.1 x false) xs ys

-- a digit is stored behind those before it
link_digit :
    (s : Esp8266) (off d : ℕ) (buf : List ℕ)
    → is_digit d ≡ true
    → off + 1 < 8
    → esp8266_parse (in_number link_number s off buf) d false
      ≡ (prefix_matched, in_number link_number s (off + 1) (put buf off (d ∷ [])))
unfolding esp8266_parse
link_digit s off d buf h small =
    let range = digit-range d h in
    rw (ne→==_false d 44 (omega (arith, range)), lt→ltb (off + 1) 8 small)

len_digit :
    (s : Esp8266) (off d : ℕ) (buf : List ℕ)
    → is_digit d ≡ true
    → off + 1 < 8
    → esp8266_parse (in_number len s off buf) d false
      ≡ (prefix_matched, in_number len s (off + 1) (put buf off (d ∷ [])))
unfolding esp8266_parse
len_digit s off d buf h small =
    let range = digit-range d h in
    rw (
      ne→==_false d 44 (omega (arith, range)),
      ne→==_false d 58 (omega (arith, range)),
      lt→ltb (off + 1) 8 small,
    )

-- the value of the digits before the end of the string
digits_value-ended :
    (n : ℕ) (ds rs : List ℕ) → AreDigits ds → digits_value n (ds ++ 0 ∷ rs) ≡ digits_value n ds
unfolding digits_value
digits_value-ended n [] rs no_digit = refl
digits_value-ended n (d ∷ ds) rs (digit h hs) =
    rw h (digits_value-ended (n * 10 + (d - 48)) ds rs hs)

atoi-digits : (ds rs : List ℕ) → AreDigits ds → atoi (ds ++ 0 ∷ rs) ≡ digits_value 0 ds
unfolding atoi
atoi-digits [] rs no_digit = refl
atoi-digits (d ∷ ds) rs (digit h hs) =
    let range = digit-range d h in
    rw
      (
        ne→==_false d 32 (omega (arith, range)),
        le→leb 9 d (omega (arith, range)),
        lt→leb_false d 13 (omega (arith, range)),
        ne→==_false d 45 (omega (arith, range)),
        ne→==_false d 43 (omega (arith, range)),
        h,
      )
      (digits_value-ended (0 + (d - 48)) ds rs hs)

-- a number of digits, taken one after the other into the buffer
module _ (state : EspState) (s : Esp8266)
    (step : (off d : ℕ) (buf : List ℕ)
      → is_digit d ≡ true
      → off + 1 < 8
      → esp8266_parse (in_number state s off buf) d false
        ≡ (prefix_matched, in_number state s (off + 1) (put buf off (d ∷ [])))) where
  follow-digits :
      (r : Result) (xs ds rs : List ℕ)
      → AreDigits ds
      → length xs + length ds < 8
      → length xs + length rs ≡ 8
      → (r' : Result) × (rs' : List ℕ) × (follow esp8266_prefix
            (r, in_number state s (length xs) (xs ++ rs))
            ds
          ≡ (r', in_number state s (length (xs ++ ds)) ((xs ++ ds) ++ rs')))
        × (length (xs ++ ds) + length rs' ≡ 8)
  unfolding follow esp8266_prefix
  follow-digits r xs [] rs no_digit h e = (
    r,
    rs,
    ap (λ l. (r, in_number state s (length l) (l ++ rs))) (sym (append-nil xs)),
    ap (λ l. length l + length rs) (append-nil xs) ∙ e,
  )
  follow-digits r xs (d ∷ ds) [] (digit hd hs) h e = absurd (omega (arith, e))
  follow-digits r xs (d ∷ ds) (b ∷ rs) (digit hd hs) h e =
      let ys : List ℕ = xs ++ d ∷ [] in
      let ys_length : length ys ≡ length xs + 1 = length-append xs (d ∷ []) in
      let stored : put (xs ++ b ∷ rs) (length xs) (d ∷ []) ≡ ys ++ rs =
        put_middle xs b d rs ∙ sym (append_assoc xs (d ∷ []) rs) in
      let one : esp8266_parse (in_number state s (length xs) (xs ++ b ∷ rs)) d false
          ≡ (prefix_matched, in_number state s (length ys) (ys ++ rs)) =
        step (length xs) d (xs ++ b ∷ rs) hd (omega arith)
        ∙ ap₂ (λ k l. (prefix_matched, in_number state s k l)) (sym ys_length) stored in
      let joined : ys ++ ds ≡ xs ++ d ∷ ds = append_assoc xs (d ∷ []) ds in
      let (r', rs', runs, total) =
        follow-digits prefix_matched ys ds rs hs (omega (arith, ys_length))
          (omega (arith, ys_length, e)) in
      (
        r',
        rs',
        ap (λ z. follow esp8266_prefix z ds) one
            ∙ runs
            ∙ ap (λ l. (r', in_number state s (length l) (l ++ rs'))) joined,
        ap (λ l. length l + length rs') (sym joined) ∙ total,
      )

ended_value :
    (ds rs : List ℕ)
    → AreDigits ds
    → length ds < 8
    → length ds + length rs ≡ 8
    → atoi (put (ds ++ rs) (length ds) (0 ∷ [])) ≡ digits_value 0 ds
ended_value ds [] h small e = absurd (omega (arith, e))
ended_value ds (b ∷ rs) h small e = ap atoi (put_middle ds b 0 rs) ∙ atoi-digits ds rs h

-- "+IPD,"
abbrev pub opening : List ℕ
opening = 43 ∷ 73 ∷ 80 ∷ 68 ∷ 44 ∷ []

-- At the start of a line, and whatever the parser's state was, the bytes "+IPD,", up to 7 digits, a
-- comma, up to 7 digits and a colon complete the prefix, with the link id and the packet size that
-- the two rows of digits write.
pub feed-esp8266 :
    (s : Esp8266) (ds es : List ℕ)
    → length s.num_buf ≡ 8
    → AreDigits ds
    → AreDigits es
    → length ds < 8
    → length es < 8
    → (r : Esp8266) × (feed esp8266_prefix s (opening ++ (ds ++ 44 ∷ (es ++ 58 ∷ [])))
        ≡ (prefix_completed, r))
      × (r.link_id ≡ digits_value 0 ds)
      × (esp8266_prefix.packet_size r ≡ digits_value 0 es)
unfolding feed follow esp8266_prefix esp8266_parse
feed-esp8266 s ds es room hd he nd ne =
    let (r1, rs1, runs1, total1) =
      follow-digits link_number s (link_digit s) not_matched [] ds s.num_buf hd (omega arith)
        (omega (arith, room)) in
    let buf1 : List ℕ = put (ds ++ rs1) (length ds) (0 ∷ []) in
    let s1 : Esp8266 = record s { link_id = atoi buf1 } in
    let room1 : length buf1 ≡ 8 =
      length-put (ds ++ rs1) (length ds) (0 ∷ []) (omega (arith, length-append ds rs1, total1))
      ∙ length-append ds rs1
      ∙ total1 in
    let (r2, rs2, runs2, total2) =
      follow-digits len s1 (len_digit s1) prefix_matched [] es buf1 he (omega arith)
        (omega (arith, room1)) in
    let buf2 : List ℕ = put (es ++ rs2) (length es) (0 ∷ []) in
    let last : List ℕ = 58 ∷ [] in
    (
      record s1 { state = ending; offset = length es; num_buf = buf2; packet_size = atoi buf2 },
      follow-append (not_matched, in_number link_number s 0 s.num_buf) ds (44 ∷ (es ++ last))
          ∙ ap (λ z. follow esp8266_prefix z (44 ∷ (es ++ last))) runs1
          ∙ follow-append (prefix_matched, in_number len s1 0 buf1) es last
          ∙ ap (λ z. follow esp8266_prefix z last) runs2,
      ended_value ds rs1 hd nd total1,
      ended_value es rs2 he ne total2,
    )
