-- ===== src/TextParse/EspSize.antt =====
-- drivers/TBPipe/TBParse.cpp: the packet sizes of the prefix parser for the ESP8266.
use kendryte_k210_base_proje.Prelude.{
  ℕ, suc, ◌+◌, ◌-◌, ◌*◌, ◌^◌, ◌<◌, ◌≤◌, ◌≡◌, ◌≢◌, refl, sym, ap, subst, ◌∙◌, Bool, true, false,
  List, [], ◌∷◌, ◌==◌, ◌||◌, ◌&&◌, leb, ltb, if◌then◌else◌, length, ltb→lt, ==_iff, arith,
}
use kendryte_k210_base_proje.Memory.{put, length-put}
use kendryte_k210_base_proje.Bytes.{All, All-put}
use kendryte_k210_base_proje.TextParse.{Result}
use kendryte_k210_base_proje.TextParse.Prefix.{
  EspState, prefix, link_number, len, ending, not_passed, Esp8266, is_digit, digits_value, atoi,
  esp_state, at, prefix_text, esp8266_parse, esp8266_prefix,
}
use kendryte_k210_base_proje.TextParse.Outcome.{Keeps}
use kendryte_k210_base_proje.TextParse.Sizes.{by_test}
use native.Mathlib.Nat.{
  pow-suc, mul_comm, mul_assoc, mul-le-mul_left, mul-le-mul_right, one-le-pow, pow-le-pow_right,
}

-- a byte that is no minus sign
abbrev pub NoMinus : ℕ → Type 0
NoMinus c = c ≢ 45

-- A number of `length cs` digits, behind one of the value `n`.
digits_value_le : (n : ℕ) (cs : List ℕ) → suc (digits_value n cs) ≤ suc n * 10 ^ length cs
unfolding digits_value
digits_value_le n [] = omega arith
digits_value_le n (c ∷ cs) =
    let more = n * 10 + (c - 48) in
    let rest = 10 ^ length cs in
    let tenfold : suc n * 10 ^ length (c ∷ cs) ≡ suc n * 10 * rest =
      ap (λ x. suc n * x) (pow-suc 10 (length cs) ∙ mul_comm rest 10)
      ∙ sym (mul_assoc (suc n) 10 rest) in
    by_test (λ v. suc v ≤ suc n * 10 ^ length (c ∷ cs)) (is_digit c)
      (λ digit.
        let small : suc more ≤ suc n * 10 = ground (arith, digit) in
        let grown = mul-le-mul_right {m = suc more} {n = suc n * 10} rest small in
        omega (arith, digits_value_le more cs, grown, tenfold))
      (λ other.
        let some_rest = one-le-pow (length (c ∷ cs)) 10 (omega arith) in
        let grown = mul-le-mul_left {m = 1} {n = 10 ^ length (c ∷ cs)} (suc n) some_rest in
        omega (arith, grown))

-- up to eight digits
digits_small : (cs : List ℕ) → length cs ≤ 8 → digits_value 0 cs < 2 ^ 31
digits_small cs k =
    let wide = pow-le-pow_right {n = 10} (omega arith) k in
    omega (arith, digits_value_le 0 cs, wide)

atoi_small : (cs : List ℕ) → All NoMinus cs → length cs ≤ 8 → atoi cs < 2 ^ 31
unfolding atoi
atoi_small [] h k = omega arith
atoi_small (c ∷ cs) h k =
    let shorter : length cs ≤ 8 = omega (arith, k) in
    by_test (λ v. v < 2 ^ 31) (c == 32 || (leb 9 c && leb c 13)) (λ e. atoi_small cs h.1 shorter)
      (λ e.
        by_test (λ v. v < 2 ^ 31) (c == 45) (λ minus. absurd (h.0 ((==_iff c 45).0 minus)))
          (λ e.
            by_test (λ v. v < 2 ^ 31) (c == 43) (λ e. digits_small cs shorter)
              (λ e. digits_small (c ∷ cs) k)))

-- what is collected is inside `num_buf`
abbrev InNumber : EspState → ℕ → Type 0
InNumber link_number i = i < 8
InNumber len i = i < 8
InNumber _ i = Unit

pub record HasNumber (s : Esp8266) : Type 0 where
  pub wide : length s.num_buf ≡ 8
  pub no_minus : All NoMinus s.num_buf
  pub place : InNumber s.state s.offset
  pub size_in : s.packet_size < 2 ^ 31

module _ (s : Esp8266) (v : HasNumber s) (i_in : s.offset < 8) where
  ended : List ℕ
  ended = put s.num_buf s.offset (0 ∷ [])

  ended-wide : length ended ≡ 8
  unfolding ended
  ended-wide = length-put s.num_buf s.offset (0 ∷ []) (omega (arith, i_in, v.wide)) ∙ v.wide

  ended-NoMinus : All NoMinus ended
  unfolding ended
  ended-NoMinus =
      let zero_ne : 0 ≢ 45 = λ e. absurd (omega (arith, e)) in
      All-put NoMinus s.num_buf s.offset (0 ∷ []) v.no_minus (zero_ne, tt)

-- a byte is collected, or there is no room
collect-HasNumber :
    (s : Esp8266) (c : ℕ)
    → NoMinus c
    → HasNumber s
    → s.offset < 8
    → HasNumber (
        if ltb (s.offset + 1) 8
        then record s { num_buf = put s.num_buf s.offset (c ∷ []); offset = s.offset + 1 }
        else s)
collect-HasNumber s c b v i_in =
    by_test HasNumber (ltb (s.offset + 1) 8)
      (λ room. record {
        wide = length-put s.num_buf s.offset (c ∷ []) (omega (arith, i_in, v.wide)) ∙ v.wide;
        no_minus = All-put NoMinus s.num_buf s.offset (c ∷ []) v.no_minus (b, tt);
        place = in_number s.state (ltb→lt (s.offset + 1) 8 room);
        size_in = v.size_in;
      })
      (λ full. v)
  where
    in_number : (st : EspState) {i : ℕ} → i < 8 → InNumber st i
    in_number prefix h = tt
    in_number link_number h = h
    in_number len h = h
    in_number ending h = tt
    in_number not_passed h = tt

esp_state-HasNumber :
    (st : EspState) (s : Esp8266) (c : ℕ)
    → s.state ≡ st
    → NoMinus c
    → HasNumber s
    → HasNumber (esp_state st s c).1
unfolding esp_state ended
esp_state-HasNumber prefix s c e b v =
    let Kept : Result × Esp8266 → Type 0 = λ z. HasNumber z.1 in
    by_test Kept (at prefix_text s.offset == c)
      (λ same.
        by_test HasNumber (at prefix_text (s.offset + 1) == 0)
          (λ last. record {
            wide = v.wide;
            no_minus = v.no_minus;
            place = omega arith;
            size_in = v.size_in;
          })
          (λ more. record {
            wide = v.wide;
            no_minus = v.no_minus;
            place = subst (λ x. InNumber x (s.offset + 1)) (sym e) tt;
            size_in = v.size_in;
          }))
      (λ other. record { wide = v.wide; no_minus = v.no_minus; place = tt; size_in = v.size_in })
esp_state-HasNumber link_number s c e b v =
    let i_in : s.offset < 8 = subst (λ x. InNumber x s.offset) e v.place in
    by_test HasNumber (c == 44)
      (λ comma. record {
        wide = ended-wide s v i_in;
        no_minus = ended-NoMinus s v i_in;
        place = omega arith;
        size_in = v.size_in;
      })
      (λ other. collect-HasNumber s c b v i_in)
esp_state-HasNumber len s c e b v =
    let Kept : Result × Esp8266 → Type 0 = λ z. HasNumber z.1 in
    let i_in : s.offset < 8 = subst (λ x. InNumber x s.offset) e v.place in
    by_test Kept (c == 44 || c == 58)
      (λ comma. record {
        wide = ended-wide s v i_in;
        no_minus = ended-NoMinus s v i_in;
        place = tt;
        size_in =
            atoi_small (ended s v i_in) (ended-NoMinus s v i_in)
              (omega (arith, ended-wide s v i_in));
      })
      (λ other. collect-HasNumber s c b v i_in)
esp_state-HasNumber ending s c e b v = v
esp_state-HasNumber not_passed s c e b v = v

esp8266_parse-HasNumber :
    (s : Esp8266) (c : ℕ) (first : Bool)
    → NoMinus c
    → HasNumber s
    → HasNumber (esp8266_parse s c first).1
unfolding esp8266_parse
esp8266_parse-HasNumber s c true b v =
    esp_state-HasNumber prefix (record s { offset = 0; state = prefix }) c refl b
      (record { wide = v.wide; no_minus = v.no_minus; place = tt; size_in = v.size_in })
esp8266_parse-HasNumber s c false b v = esp_state-HasNumber s.state s c refl b v

-- Without a minus sign in the bytes the sizes that follow "+IPD" are below 2 ^ 31.
pub esp8266_prefix-Keeps : Keeps esp8266_prefix NoMinus HasNumber
unfolding esp8266_prefix
esp8266_prefix-Keeps = record { kept = esp8266_parse-HasNumber; packet_small = λ s v. v.size_in }
