-- ===== src/TextParse/Next.antt =====
-- drivers/TBPipe/TBParse.cpp: TBParse::NextMessage as a whole.
use kendryte_k210_base_proje.Prelude.{ℕ, List}
use kendryte_k210_base_proje.Bytes.{All}
use kendryte_k210_base_proje.TextParse.{PrefixParser, TextMessage, TextParser}
use kendryte_k210_base_proje.TextParse.Outcome.{Keeps}
use kendryte_k210_base_proje.TextParse.Scanned.{Scanned, IsGood}

module _ {S : Type 0} (prefixes : PrefixParser S) {Byte : ℕ → Type 0} {Valid : S → Type 0}
    (keeps : Keeps prefixes Byte Valid) where
  module _ (orig : List ℕ) (all_bytes : All Byte orig) where
    abbrev Good : ℕ → TextMessage × TextParser S → Type 0
    Good = IsGood prefixes Valid orig
