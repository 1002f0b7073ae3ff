-- ===== src/Branch/Filters.antt =====
-- The four filters of internal/bra whose instructions are words, behind one name for Convert.
pub mod RoundTrip
pub mod Parts
use sevenzip.Branch.Arm.{arm_convert}
use sevenzip.Branch.Arm64.{arm64_word}
use sevenzip.Branch.Ppc.{ppc_word}
use sevenzip.Branch.Sparc.{sparc_word}
use sevenzip.Branch.{Converted, word_convert}
use sevenzip.Prelude.{ℕ, Bool}
use sevenzip.Stream.{Bytes}

pub data Filter : Type 0 where
  arm arm64 ppc sparc : Filter

-- The converter's method: `convert_with f encoding ip b`.
unfoldable pub convert_with : Filter → Bool → ℕ → Bytes → Converted
convert_with arm = arm_convert
convert_with arm64 = word_convert arm64_word
convert_with ppc = word_convert ppc_word
convert_with sparc = word_convert sparc_word
