-- ===== src/Text.antt =====
-- src/text.c: what the codecs of the `text` module share. Bytes and UTF-16 units are numbers, and
-- a shift or a mask of an unsigned is a quotient, a product or a remainder by a power of two.
pub mod Base64
pub mod Hex
pub mod Trim
pub mod Wide
pub mod Encoding
mod Examples
use kuu.Prelude.{ℕ, Bool, ◌==◌, ◌||◌}

-- The white space that `l_text_frombase64` and `l_text_fromhex` skip: \r, \n, ' ' and \t.
unfoldable pub is_skipped : ℕ → Bool
is_skipped c = c == 13 || c == 10 || c == 32 || c == 9
