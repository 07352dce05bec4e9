-- ===== src/Flash/Read.antt =====
-- drivers/flash/flash.c: flash_read_data in the modes that flash_read has no case for.
use kendryte_k210_base_proje.Prelude.{
  ℕ, zero, suc, ◌≤◌, ◌<◌, ◌≡◌, refl, ap, ◌∙◌, some, List, [], ◌∷◌, ◌++◌, ltb, if◌then◌else◌, length,
  take, drop, take-append-drop, length-drop, ne→==_false, add32, arith,
}
use kendryte_k210_base_proje.FlashBus.{Flash, M, pure, ◌>>=◌}
use kendryte_k210_base_proje.FlashBus.Receive.{after}
use kendryte_k210_base_proje.Flash.{
  ReadMode, flash_standard, flash_standard_fast, flash_dual, flash_dual_single,
}
use kendryte_k210_base_proje.Flash.Data.{read, read_loop, read_data}

-- the modes without a case
pub data HasNoCase : ReadMode → Type 0 where
  no_standard : HasNoCase flash_standard
  no_fast : HasNoCase flash_standard_fast
  no_dual : HasNoCase flash_dual
  no_dual_single : HasNoCase flash_dual_single

read-HasNoCase :
    {mode : ReadMode} (addr : ℕ) (buf : List ℕ) (f : Flash)
    → HasNoCase mode
    → read addr buf mode f ≡ some (buf, f)
unfolding read
read-HasNoCase addr buf f no_standard = refl
read-HasNoCase addr buf f no_fast = refl
read-HasNoCase addr buf f no_dual = refl
read-HasNoCase addr buf f no_dual_single = refl

read_loop-HasNoCase :
    {mode : ReadMode} (fuel addr : ℕ) (buf : List ℕ) (f : Flash)
    → HasNoCase mode
    → length buf < fuel
    → read_loop fuel addr buf mode f ≡ some (buf, f)
unfolding read_loop
read_loop-HasNoCase zero addr buf f h hf = absurd (omega arith)
read_loop-HasNoCase (suc fuel) addr [] f h hf = refl
read_loop-HasNoCase {mode} (suc fuel) addr (b ∷ bs) f h hf =
    let buf : List ℕ = b ∷ bs in
    let len : ℕ = if ltb 32 (length buf) then 32 else length buf in
    let len_in : (0 < len) × (len ≤ length buf) = ground arith in
    let rest_of : List ℕ → M (List ℕ) =
      λ now. read_loop fuel (add32 addr len) (drop len buf) mode >>= λ later. pure (now ++ later) in
    rw (ne→==_false (suc (length bs)) 0 (omega arith)) (
      ap (after rest_of) (read-HasNoCase addr (take len buf) f h)
      ∙ ap (after (λ later. pure (take len buf ++ later))) (
          read_loop-HasNoCase fuel (add32 addr len) (drop len buf) f h
            (omega (arith, length-drop len buf)))
      ∙ ap (λ l. some (l, f)) (take-append-drop len buf))

-- `flash_read_data` in a mode for which `flash_read` has no case (all but the two quad modes, so
-- also what the function pointer of the standard read calls) returns with the buffer as it was, and
-- does nothing on the bus.
pub read_data-HasNoCase :
    {mode : ReadMode} (addr : ℕ) (buf : List ℕ) (f : Flash)
    → HasNoCase mode
    → read_data addr buf mode f ≡ some (buf, f)
unfolding read_data
read_data-HasNoCase addr buf f h = read_loop-HasNoCase (suc (length buf)) addr buf f h (omega arith)
