-- ===== src/Debug/Hex.antt =====
-- src/debug.c, `qhexoutput`: one line of a hex dump. `Value` is the function that reads a byte, and `k`
-- is `i+j`.
pub mod Digits
pub mod RoundTrip
pub mod Printable
use haa_s_libssh.Common.{
  ℕ, zero, suc, ◌+◌, ◌-◌, Bool, ◌||◌, List, [], ◌∷◌, ◌++◌, length, ltb, leb, if◌then◌else◌,
}
use haa_s_libssh.Common.Format.{digits_on}
use haa_s_libssh.Config.{Bytes, codes}

abbrev pub hex_debug_size : ℕ
hex_debug_size = 16

abbrev pub zeros : ℕ → Bytes
zeros zero = []
zeros (suc n) = b'0' ∷ zeros n

-- `%0*x`, for a number below 2 ^ 32.
unfoldable pub padded_hex : ℕ → ℕ → Bytes
unfolding digits_on
padded_hex width n = let s = digits_on 16 8 n [] in zeros (width - length s) ++ s

-- The column of a byte in the first part of a line, and in the second.
unfoldable pub hex_column : (ℕ → ℕ) → ℕ → ℕ → Bytes
unfolding padded_hex
hex_column value size k =
    if ltb k size then b' ' ∷ padded_hex 2 (value k) else b' ' ∷ b' ' ∷ b' ' ∷ []

unfoldable pub text_column : (ℕ → ℕ) → ℕ → ℕ → ℕ
text_column value size k =
    if ltb k size then if ltb (value k) b' ' || leb 127 (value k) then b'.' else value k else b' '

-- The two loops over `j`, with the number of columns that are left.
unfoldable pub hex_columns : (ℕ → ℕ) → ℕ → ℕ → ℕ → Bytes
unfolding hex_column
hex_columns value size k zero = []
hex_columns value size k (suc n) = hex_column value size k ++ hex_columns value size (suc k) n

unfoldable pub text_columns : (ℕ → ℕ) → ℕ → ℕ → ℕ → Bytes
unfolding text_column
text_columns value size k zero = []
text_columns value size k (suc n) = text_column value size k ∷ text_columns value size (suc k) n

-- What is in `Buffer` at the end of a round of the loop, up to `Pos`: the offset and the two parts.
abbrev pub whole_line : Bytes → Bytes → Bytes → Bytes
whole_line offset columns text =
    codes "  0x" ++ (offset ++ b':' ∷ (columns ++ (codes " = '" ++ (text ++ codes "'"))))

unfoldable pub hex_line : (ℕ → ℕ) → ℕ → ℕ → Bytes
unfolding padded_hex hex_columns text_columns
hex_line value size i =
    whole_line (padded_hex 4 i) (hex_columns value size i hex_debug_size)
      (text_columns value size i hex_debug_size)
