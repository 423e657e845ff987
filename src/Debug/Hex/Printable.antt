-- ===== src/Debug/Hex/Printable.antt =====
-- src/debug.c: a line of a hex dump fits into `Buffer` and has printable characters only.
use haa_s_libssh.Common.{
  ℕ, zero, suc, ◌+◌, ◌*◌, ◌≤◌, ◌<◌, ◌≡◌, refl, ap, [], ◌∷◌, ◌++◌, All, length, ltb, Bool-cases, inl,
  inr, length-append, arith,
}
use haa_s_libssh.Config.{Bytes, codes}
use haa_s_libssh.Debug.Hex.{
  padded_hex, hex_column, text_column, hex_columns, text_columns, whole_line, hex_line,
}
use haa_s_libssh.Debug.Hex.Digits.{
  IsHexDigit, All-append, padded_hex-All, padded_hex_byte, length-padded_hex,
}

-- Between the space and the tilde.
abbrev pub IsPrintable : ℕ → Type 0
IsPrintable c = (b' ' ≤ c) × (c ≤ b'~')

printable : (s : Bytes) → All IsHexDigit s → All IsPrintable s
printable [] h = tt
printable (c ∷ s) (d, h) = (ground arith, printable s h)

padded_hex-IsPrintable : (width n : ℕ) → All IsPrintable (padded_hex width n)
padded_hex-IsPrintable width n = printable (padded_hex width n) (padded_hex-All width n)

hex_column-IsPrintable : (value : ℕ → ℕ) (size k : ℕ) → All IsPrintable (hex_column value size k)
unfolding hex_column
hex_column-IsPrintable value size k = elim (Bool-cases (ltb k size)) [
  | inl inside ↦ rw inside ((omega arith, omega arith), padded_hex-IsPrintable 2 (value k))
  | inr outside ↦ rw outside (blank, (blank, (blank, tt)))
]
  where
    blank : IsPrintable b' '
    blank = (omega arith, omega arith)

hex_columns-IsPrintable :
    (value : ℕ → ℕ) (size k n : ℕ) → All IsPrintable (hex_columns value size k n)
unfolding hex_columns
hex_columns-IsPrintable value size k zero = tt
hex_columns-IsPrintable value size k (suc n) =
    All-append IsPrintable (hex_column value size k) (hex_columns value size (suc k) n)
      (hex_column-IsPrintable value size k) (hex_columns-IsPrintable value size (suc k) n)

text_column-IsPrintable : (value : ℕ → ℕ) (size k : ℕ) → IsPrintable (text_column value size k)
unfolding text_column
text_column-IsPrintable value size k = ground arith

text_columns-IsPrintable :
    (value : ℕ → ℕ) (size k n : ℕ) → All IsPrintable (text_columns value size k n)
unfolding text_columns
text_columns-IsPrintable value size k zero = tt
text_columns-IsPrintable value size k (suc n) =
    (text_column-IsPrintable value size k, text_columns-IsPrintable value size (suc k) n)

whole_line-IsPrintable :
    (offset columns text : Bytes)
    → All IsPrintable offset
    → All IsPrintable columns
    → All IsPrintable text
    → All IsPrintable (whole_line offset columns text)
whole_line-IsPrintable offset columns text h k l =
    let close = All-append IsPrintable text (codes "'") l (ground arith) in
    let quoted = All-append IsPrintable (codes " = '") (text ++ codes "'") (ground arith) close in
    let rest = codes " = '" ++ (text ++ codes "'") in
    let parts = All-append IsPrintable columns rest k quoted in
    let line =
      All-append IsPrintable offset (b':' ∷ (columns ++ rest)) h
        ((omega arith, omega arith), parts) in
    All-append IsPrintable (codes "  0x") (offset ++ b':' ∷ (columns ++ rest)) (ground arith) line

hex_line-All : (value : ℕ → ℕ) (size i : ℕ) → All IsPrintable (hex_line value size i)
unfolding hex_line
hex_line-All value size i =
    whole_line-IsPrintable (padded_hex 4 i) (hex_columns value size i 16)
      (text_columns value size i 16) (padded_hex-IsPrintable 4 i)
      (hex_columns-IsPrintable value size i 16) (text_columns-IsPrintable value size i 16)

length-hex_column :
    (value : ℕ → ℕ) (size k : ℕ) → value k < 256 → length (hex_column value size k) ≡ 3
unfolding hex_column
length-hex_column value size k h = elim (Bool-cases (ltb k size)) [
  | inl inside ↦ rw (inside, padded_hex_byte (value k) h) refl
  | inr outside ↦ rw outside refl
]

length-hex_columns :
    (value : ℕ → ℕ) (size k n : ℕ)
    → ((j : ℕ) → value j < 256)
    → length (hex_columns value size k n) ≡ 3 * n
unfolding hex_columns
length-hex_columns value size k zero h = refl
length-hex_columns value size k (suc n) h =
    rw (length-append (hex_column value size k) (hex_columns value size (suc k) n)) (
      omega
        (arith, length-hex_column value size k (h k), length-hex_columns value size (suc k) n h))

length-text_columns : (value : ℕ → ℕ) (size k n : ℕ) → length (text_columns value size k n) ≡ n
unfolding text_columns
length-text_columns value size k zero = refl
length-text_columns value size k (suc n) = ap suc (length-text_columns value size (suc k) n)

length-whole_line :
    (offset columns text : Bytes)
    → length (whole_line offset columns text) ≡ length offset + length columns + length text + 10
length-whole_line offset columns text =
    let rest = columns ++ (codes " = '" ++ (text ++ codes "'")) in
    omega (
      arith,
      length-append offset (b':' ∷ rest),
      length-append columns (codes " = '" ++ (text ++ codes "'")),
      length-append text (codes "'"),
    )

pub length-hex_line :
    (value : ℕ → ℕ) (size i : ℕ) → ((j : ℕ) → value j < 256) → length (hex_line value size i) ≤ 82
unfolding hex_line
length-hex_line value size i h =
    rw
      (length-whole_line (padded_hex 4 i) (hex_columns value size i 16)
        (text_columns value size i 16))
      (omega (
        arith,
        length-padded_hex 4 i (omega arith),
        length-hex_columns value size i 16 h,
        length-text_columns value size i 16,
      ))

-- Whatever the bytes are, a line of a dump has at most 82 characters, so that it fits into its buffer of
-- 256 with room for the final zero, and all of them are printable: they cannot break up or control
-- the log.
pub hex_line-IsPrintable :
    (value : ℕ → ℕ) (size i : ℕ)
    → ((j : ℕ) → value j < 256)
    → (length (hex_line value size i) ≤ 82) × All IsPrintable (hex_line value size i)
hex_line-IsPrintable value size i byte =
    (length-hex_line value size i byte, hex_line-All value size i)
