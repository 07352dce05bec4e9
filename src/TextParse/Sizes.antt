-- ===== src/TextParse/Sizes.antt =====
-- drivers/TBPipe/TBParse.cpp: the sizes that the prefix parsers announce.
use kendryte_k210_base_proje.Prelude.{
  ℕ, ◌^◌, ◌<◌, ◌≡◌, refl, Bool, true, false, ◌==◌, if◌then◌else◌, add32, u32, shl, ==_iff, arith,
}
use kendryte_k210_base_proje.TextParse.{Result}
use kendryte_k210_base_proje.TextParse.Prefix.{
  null_prefix, Standart, standart_prefix, standart_parse,
}
use kendryte_k210_base_proje.TextParse.Outcome.{Keeps}

pub null_prefix-Keeps : Keeps null_prefix (λ c. Unit) (λ s. Unit)
null_prefix-Keeps = record { kept = λ s c first b v. tt; packet_small = λ s v. omega arith }

-- a size of 16 bits, and one of 8 before its second byte
pub record HasSize (s : Standart) : Type 0 where
  pub size_in : s.data_size < 2 ^ 16
  pub half_in : s.found_idx ≡ 3 → s.data_size < 2 ^ 8

pub by_test :
    {A : Type 0} (P : A → Type 0) (b : Bool) {x y : A}
    → (b ≡ true → P x)
    → (b ≡ false → P y)
    → P (if b then x else y)
by_test P true h k = h refl
by_test P false h k = k refl

-- a size with another search state than that for its second byte
searching :
    (size idx : ℕ)
    → size < 2 ^ 16
    → idx < 3
    → HasSize (record { data_size = size; found_idx = idx })
searching size idx h k = record { size_in = h; half_in = λ e. absurd (omega (arith, e, k)) }

standart_parse-HasSize :
    (s : Standart) (c : ℕ) (first : Bool)
    → c < 256
    → HasSize s
    → HasSize (standart_parse s c first).1
unfolding standart_parse
standart_parse-HasSize s c true b v =
    by_test HasSize (c == 0) (λ e. searching s.data_size 1 v.size_in (omega arith))
      (λ e. searching s.data_size 0 v.size_in (omega arith))
standart_parse-HasSize s c false b v =
    let Kept : Result × Standart → Type 0 = λ z. HasSize z.1 in
    let after_start : (if c == 1 then 2 else 0) < 3 = ground arith in
    by_test Kept (s.found_idx == 1)
      (λ e. searching s.data_size (if c == 1 then 2 else 0) v.size_in after_start)
      (λ e.
        by_test Kept (s.found_idx == 2)
          (λ e. record { size_in = omega arith; half_in = λ e. omega arith })
          (λ e.
            by_test Kept (s.found_idx == 3)
              (λ at_3.
                let small : s.data_size < 2 ^ 8 = v.half_in ((==_iff s.found_idx 3).0 at_3) in
                searching (add32 s.data_size (u32 (shl c 8))) 0 (omega (arith, small))
                  (omega arith))
              (λ e.
                by_test HasSize (c == 0) (λ e. searching s.data_size 1 v.size_in (omega arith))
                  (λ e. v))))

pub standart_prefix-Keeps : Keeps standart_prefix (λ c. c < 256) HasSize
unfolding standart_prefix
standart_prefix-Keeps = record {
  kept = standart_parse-HasSize;
  packet_small = λ s v. omega (arith, v.size_in);
}
