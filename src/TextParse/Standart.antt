-- ===== src/TextParse/Standart.antt =====
-- drivers/TBPipe/TBParse.cpp: the header that StandartPrefixParser takes.
use kendryte_k210_base_proje.Prelude.{ℕ, ◌+◌, ◌*◌, ◌<◌, ◌≡◌, refl, [], ◌∷◌, add32, u32, shl, arith}
use kendryte_k210_base_proje.TextParse.{prefix_completed, prefix_matched}
use kendryte_k210_base_proje.TextParse.Prefix.{Standart, standart_prefix, feed}

-- At the start of a line, and whatever the parser's state was, the bytes 0 and 1 and any byte `low`
-- are matched but not complete, and a fourth byte `high` completes the prefix with the packet size
-- `low + 256 * high`: the low byte is the first one.
pub feed-standart :
    (s : Standart) (low high : ℕ)
    → low < 256
    → high < 256
    → ((feed standart_prefix s (0 ∷ 1 ∷ low ∷ [])).0 ≡ prefix_matched)
      × (r : Standart) × (feed standart_prefix s (0 ∷ 1 ∷ low ∷ high ∷ []) ≡ (prefix_completed, r))
      × (standart_prefix.packet_size r ≡ low + 256 * high)
unfolding feed standart_prefix
feed-standart s low high hl hh =
    (refl, record { data_size = add32 low (u32 (shl high 8)); found_idx = 0 }, refl, omega arith)
