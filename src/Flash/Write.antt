-- ===== src/Flash/Write.antt =====
-- drivers/flash/flash.c: flash_write_data and the calls of the page program function.
use kendryte_k210_base_proje.Prelude.{
  ℕ, zero, suc, ◌+◌, ◌-◌, ◌%◌, ◌^◌, ◌≤◌, ◌<◌, ◌≡◌, refl, sym, ap, ap₂, ◌∙◌, fun_ext, Option, none,
  some, List, [], ◌∷◌, ◌++◌, ltb, if◌then◌else◌, add32, sub32, length, take, drop, arith,
  ne→==_false, length-take, length-drop, append_assoc, drop-drop, subst,
}
use kendryte_k210_base_proje.Memory.{take-add}
use kendryte_k210_base_proje.FlashBus.{Status, flash_ok, Flash, M, pure, ◌>>=◌, ◌>>◌}
use kendryte_k210_base_proje.Flash.{page_program_fun}
use kendryte_k210_base_proje.Flash.Data.{write_page, write_loop, write_data}

bind_assoc :
    {A B C : Type 0} (m : M A) (k : A → M B) (h : B → M C)
    → ((m >>= k) >>= h) ≡ (m >>= λ a. (k a >>= h))
bind_assoc {A} {B} {C} m k h = fun_ext (λ f. cases (m f))
  where
    cases :
        (r : Option (A × Flash))
        → (elim (let x : Option (B × Flash) = elim r [ none ↦ none | some (a, g) ↦ k a g ] in x) [
          | none ↦ none
          | some (b, g) ↦ h b g
        ])
          ≡ (let y : Option (C × Flash) = elim r [ none ↦ none | some (a, g) ↦ (k a >>= h) g ] in y)
    cases none = refl
    cases (some (a, g)) = refl

-- calls of the program function in order, each an address and its bytes
abbrev pub Calls : Type 0
Calls = List (ℕ × List ℕ)

-- The calls write `bytes` from `addr` on without a gap, each inside one page of 256 bytes and with
-- 1 to 32 bytes.
pub data Covers : ℕ → List ℕ → Calls → Type 0 where
  finished : {addr : ℕ} → Covers addr [] []
  call :
      {addr : ℕ} {bytes : List ℕ} (now : List ℕ) {later : List ℕ} {cs : Calls}
      → bytes ≡ now ++ later
      → 0 < length now
      → length now ≤ 32
      → addr % 256 + length now ≤ 256
      → Covers (add32 addr (length now)) later cs
      → Covers addr bytes ((addr, now) ∷ cs)

module _ (program : ℕ → List ℕ → M Status) where
  -- the calls made one after the other, and then the rest
  pub run_calls : {B : Type 0} → Calls → M B → M B
  run_calls [] k = k
  run_calls ((addr, bytes) ∷ cs) k = program addr bytes >> run_calls cs k

  run_calls-append :
      {B : Type 0} (xs ys : Calls) (k : M B)
      → run_calls (xs ++ ys) k ≡ run_calls xs (run_calls ys k)
  unfolding run_calls
  run_calls-append [] ys k = refl
  run_calls-append ((a, bytes) ∷ xs) ys k =
      ap (λ r. program a bytes >> r) (run_calls-append xs ys k)

  -- one round of the inner loop
  abbrev round_len : ℕ → ℕ
  round_len n = if ltb 32 n then 32 else n

  write_page_round :
      (fuel addr : ℕ) (bytes : List ℕ) (n : ℕ)
      → 0 < n
      → n ≤ 256
      → write_page program (suc fuel) addr bytes n ≡ (
          program addr (take (round_len n) bytes)
          >> write_page program fuel
              (add32 addr (round_len n))
              (drop (round_len n) bytes)
              (n - round_len n))
  unfolding write_page
  write_page_round fuel addr bytes n h hn =
      let left : sub32 n (round_len n) ≡ n - round_len n = ground arith in
      rw (ne→==_false n 0 (omega arith), left)

  -- one round of the outer loop
  abbrev round_size : ℕ → ℕ → ℕ
  round_size addr n = if ltb n (sub32 256 (addr % 256)) then n else sub32 256 (addr % 256)

  write_loop_round :
      (fuel addr : ℕ) (bytes : List ℕ) (n : ℕ)
      → 0 < n
      → n < 2 ^ 32
      → write_loop program (suc fuel) addr bytes n ≡ (
          write_page program (suc (round_size addr n)) addr bytes (round_size addr n) >>= λ (a, l).
          write_loop program fuel a l (n - round_size addr n))
  unfolding write_loop
  write_loop_round fuel addr bytes n h hn =
      let left : sub32 n (round_size addr n) ≡ n - round_size addr n = ground arith in
      rw (ne→==_false n 0 (omega arith), left)

  -- One page: the calls of the inner loop, whatever follows them.
  page_calls :
      {B : Type 0} (fuel addr : ℕ) (bytes : List ℕ) (n : ℕ) (k : ℕ × List ℕ → M B) (later : List ℕ)
      (rest : Calls)
      → n < fuel
      → n ≤ length bytes
      → addr < 2 ^ 32
      → addr % 256 + n ≤ 256
      → Covers ((addr + n) % 2 ^ 32) later rest
      → (cs : Calls) × ((write_page program fuel addr bytes n >>= k)
          ≡ run_calls cs (k ((addr + n) % 2 ^ 32, drop n bytes)))
        × Covers addr (take n bytes ++ later) (cs ++ rest)
  unfolding write_page run_calls
  page_calls zero addr bytes n k later rest h hb ha hp c = absurd (omega arith)
  page_calls (suc fuel) addr bytes zero k later rest h hb ha hp c =
      let same : (addr + 0) % 2 ^ 32 ≡ addr = omega arith in
      ([], ap (λ a. k (a, bytes)) (sym same), rw same at c)
  page_calls (suc fuel) addr bytes (suc n) k later rest h hb ha hp c =
      let m : ℕ = suc n in
      let len : ℕ = round_len m in
      let len_in : (0 < len) × (len ≤ 32) × (len ≤ m) = ground arith in
      let end : (add32 addr len + (m - len)) % 2 ^ 32 ≡ (addr + m) % 2 ^ 32 = omega arith in
      let sum : len + (m - len) ≡ m = omega arith in
      let tail : drop (m - len) (drop len bytes) ≡ drop m bytes =
        drop-drop (m - len) len bytes ∙ ap (λ j. drop j bytes) sum in
      let (cs, runs, covers) =
        page_calls fuel (add32 addr len) (drop len bytes) (m - len) k later rest (omega arith)
          (omega (arith, length-drop len bytes)) (omega arith) (omega arith) (rw end c) in
      let now_length : length (take len bytes) ≡ len = omega (arith, length-take len bytes) in
      (
        (addr, take len bytes) ∷ cs,
        ap (λ (r : M (ℕ × List ℕ)). r >>= k)
              (write_page_round fuel addr bytes m (omega arith) (omega arith))
            ∙ bind_assoc (program addr (take len bytes))
                (λ _. write_page program fuel (add32 addr len) (drop len bytes) (m - len)) k
            ∙ ap (λ r. program addr (take len bytes) >> r)
                (runs ∙ ap₂ (λ a l. run_calls cs (k (a, l))) end tail),
        call (take len bytes)
            (ap (λ j. take j bytes ++ later) (sym sum)
              ∙ ap (λ l. l ++ later) (take-add len (m - len) bytes)
              ∙ append_assoc (take len bytes) (take (m - len) (drop len bytes)) later)
            (omega (arith, now_length)) (omega (arith, now_length)) (omega (arith, now_length))
            (rw now_length covers),
      )

  -- The outer loop.
  loop_calls :
      (fuel addr : ℕ) (bytes : List ℕ) (size : ℕ)
      → size < fuel
      → size ≤ length bytes
      → addr < 2 ^ 32
      → size < 2 ^ 32
      → (cs : Calls) × (write_loop program fuel addr bytes size ≡ run_calls cs (pure flash_ok))
        × Covers addr (take size bytes) cs
  unfolding write_loop run_calls
  loop_calls zero addr bytes size h hb ha hs = absurd (omega arith)
  loop_calls (suc fuel) addr bytes zero h hb ha hs = ([], refl, finished)
  loop_calls (suc fuel) addr bytes (suc n) h hb ha hs =
      let size : ℕ = suc n in
      let m : ℕ = round_size addr size in
      let m_in : (0 < m) × (m ≤ size) × (addr % 256 + m ≤ 256) = ground arith in
      let (rest, runs, covers) =
        loop_calls fuel ((addr + m) % 2 ^ 32) (drop m bytes) (size - m) (omega arith)
          (omega (arith, length-drop m bytes)) (omega arith) (omega arith) in
      let (cs, page_runs, page_covers) =
        page_calls (suc m) addr bytes m (λ (a, l). write_loop program fuel a l (size - m))
          (take (size - m) (drop m bytes)) rest (omega arith) (omega arith) ha (omega arith)
          covers in
      let sum : m + (size - m) ≡ size = omega arith in
      (
        cs ++ rest,
        write_loop_round fuel addr bytes size (omega arith) hs
            ∙ page_runs
            ∙ ap (run_calls cs) runs
            ∙ sym (run_calls-append cs rest (pure flash_ok)),
        subst (λ l. Covers addr l (cs ++ rest))
            (sym (take-add m (size - m) bytes) ∙ ap (λ j. take j bytes) sum) page_covers,
      )

-- `flash_write_data`, with any function behind the pointer, does the same as a row of calls of that
-- function in which each call stays in one page of 256 bytes and has 1 to 32 bytes, and which
-- together write exactly the `size` bytes, in order and from `addr` on without a gap; then it
-- returns FLASH_OK. A call that does not return ends it.
pub write_data_lem :
    (addr : ℕ) (bytes : List ℕ) (size : ℕ)
    → size ≤ length bytes
    → addr < 2 ^ 32
    → size < 2 ^ 32
    → (cs : Calls) × (write_data addr bytes size ≡ run_calls page_program_fun cs (pure flash_ok))
      × Covers addr (take size bytes) cs
unfolding write_data
write_data_lem addr bytes size h ha hs =
    loop_calls page_program_fun (suc size) addr bytes size (omega arith) h ha hs
