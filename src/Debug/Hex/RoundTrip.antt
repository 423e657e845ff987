-- ===== src/Debug/Hex/RoundTrip.antt =====
-- src/debug.c: the bytes can be read back from the lines of a hex dump.
use haa_s_libssh.Common.{
  ℕ, zero, suc, ◌+◌, ◌*◌, ◌-◌, ◌≤◌, ◌<◌, ◌/◌, ◌%◌, ◌≡◌, refl, ap, sym, ◌∙◌, true, false, ◌&&◌,
  Option, none, some, [], ◌∷◌, ◌++◌, All, tabulate, ltb, leb, ◌==◌, if◌then◌else◌, Bool-cases, inl,
  inr, arith, lt→ltb,
}
use mathlib.Core.List.{append_assoc}
use haa_s_libssh.Common.Format.{digit}
use haa_s_libssh.Config.{Bytes, codes}
use haa_s_libssh.Debug.Hex.{
  padded_hex, hex_column, hex_columns, text_columns, whole_line, hex_line, hex_debug_size,
}
use haa_s_libssh.Debug.Hex.Digits.{IsHexDigit, padded_hex-All, padded_hex_byte}

-- The value of a digit, in lower case.
abbrev pub hex_value : ℕ → Option ℕ
hex_value c =
    if leb b'0' c && leb c b'9'
    then some (c - b'0')
    else if leb b'a' c && leb c b'f'
    then some (c - b'a' + 10)
    else none

abbrev read_byte : Option ℕ → Option ℕ → Option ℕ
read_byte (some a) (some b) = some (16 * a + b)
read_byte _ _ = none

abbrev put_byte : Option ℕ → Bytes → Bytes
put_byte none rest = []
put_byte (some c) rest = c ∷ rest

-- At most `n` columns, up to the first that has no byte.
unfoldable pub read_columns : ℕ → Bytes → Bytes
read_columns zero s = []
read_columns (suc n) (space ∷ a ∷ b ∷ rest) =
    put_byte (read_byte (hex_value a) (hex_value b)) (read_columns n rest)
read_columns (suc n) s = []

unfoldable pub behind_colon : Bytes → Bytes
behind_colon [] = []
behind_colon (c ∷ s) = if c == b':' then s else behind_colon s

-- The bytes of a line; a line of the log that starts with no blank is no line of a dump.
unfoldable pub read_line : Bytes → Bytes
unfolding read_columns behind_colon
read_line [] = []
read_line (c ∷ s) = if c == b' ' then read_columns hex_debug_size (behind_colon s) else []

-- The bytes that a line shows.
abbrev pub bytes_from : (ℕ → ℕ) → ℕ → ℕ → ℕ → Bytes
bytes_from value size k zero = []
bytes_from value size k (suc n) =
    if ltb k size then value k ∷ bytes_from value size (suc k) n else []

hex_value-digit : (d : ℕ) → d < 16 → hex_value (digit d) ≡ some d
hex_value-digit d h = ground arith

read_byte-digit :
    (c : ℕ) → c < 256 → read_byte (hex_value (digit (c / 16))) (hex_value (digit (c % 16))) ≡ some c
read_byte-digit c h =
    rw (hex_value-digit (c / 16) (omega arith), hex_value-digit (c % 16) (omega arith))
      (ap some (omega arith))

read_columns-hex_columns :
    (value : ℕ → ℕ) (size k n : ℕ) (rest : Bytes)
    → ((j : ℕ) → value j < 256)
    → read_columns n (hex_columns value size k n ++ rest) ≡ bytes_from value size k n
unfolding read_columns hex_columns hex_column
read_columns-hex_columns value size k zero rest h = refl
read_columns-hex_columns value size k (suc n) rest h = elim (Bool-cases (ltb k size)) [
  | inl inside ↦
      rw
        (
          inside,
          padded_hex_byte (value k) (h k),
          read_byte-digit (value k) (h k),
          read_columns-hex_columns value size (suc k) n rest h,
        )
        refl
  | inr outside ↦ rw outside refl
]

behind_colon-digits : (s rest : Bytes) → All IsHexDigit s → behind_colon (s ++ b':' ∷ rest) ≡ rest
unfolding behind_colon
behind_colon-digits [] rest h = refl
behind_colon-digits (c ∷ s) rest (d, h) = rw (differs d, behind_colon-digits s rest h) refl
  where
    differs : IsHexDigit c → (c == b':') ≡ false
    differs e = ground arith

read_line-whole_line :
    (offset columns text rest : Bytes)
    → All IsHexDigit offset
    → (tail : Bytes) × (read_line (whole_line offset columns text ++ rest)
        ≡ read_columns hex_debug_size (columns ++ tail))
unfolding read_line behind_colon
read_line-whole_line offset columns text rest h =
    let closing = codes " = '" ++ (text ++ codes "'") in
    (
      closing ++ rest,
      ap (λ s. read_columns hex_debug_size (behind_colon s))
            (append_assoc offset (b':' ∷ (columns ++ closing)) rest)
          ∙ ap (read_columns hex_debug_size)
              (behind_colon-digits offset (columns ++ closing ++ rest) h)
          ∙ ap (read_columns hex_debug_size) (append_assoc columns closing rest),
    )

pub read_line-hex_line :
    (value : ℕ → ℕ) (size i : ℕ) (rest : Bytes)
    → ((j : ℕ) → value j < 256)
    → read_line (hex_line value size i ++ rest) ≡ bytes_from value size i hex_debug_size
unfolding hex_line
read_line-hex_line value size i rest h =
    let (tail, e) =
      read_line-whole_line (padded_hex 4 i) (hex_columns value size i 16)
        (text_columns value size i 16) rest (padded_hex-All 4 i) in
    e ∙ read_columns-hex_columns value size i 16 tail h

add_zero : (k : ℕ) → k + 0 ≡ k
add_zero k = omega arith

zero_add : (m : ℕ) → 0 + m ≡ m
zero_add m = omega arith

add_suc : (k n : ℕ) → k + suc n ≡ suc k + n
add_suc k n = omega arith

suc_add : (n m : ℕ) → suc n + m ≡ suc (n + m)
suc_add n m = omega arith

pub bytes_from_past : (value : ℕ → ℕ) (size k m : ℕ) → size ≤ k → bytes_from value size k m ≡ []
bytes_from_past value size k zero h = refl
bytes_from_past value size k (suc m) h = ground arith

-- The bytes of a line and of the lines behind it.
pub bytes_from-append :
    (value : ℕ → ℕ) (size k n m : ℕ)
    → bytes_from value size k n ++ bytes_from value size (k + n) m ≡ bytes_from value size k (n + m)
bytes_from-append value size k zero m = rw (add_zero k, zero_add m) refl
bytes_from-append value size k (suc n) m =
    rw (add_suc k n, suc_add n m)
      (elim (Bool-cases (ltb k size)) [
        | inl inside ↦ rw inside (ap (◌∷◌ (value k)) (bytes_from-append value size (suc k) n m))
        | inr outside ↦ rw (outside, bytes_from_past value size (suc k + n) m (ground arith)) refl
      ])

-- All the bytes.
pub bytes_from-tabulate :
    (n : ℕ) (value g : ℕ → ℕ) (size k : ℕ)
    → size ≡ k + n
    → ((j : ℕ) → value (k + j) ≡ g j)
    → bytes_from value size k n ≡ tabulate n g
bytes_from-tabulate zero value g size k e h = refl
bytes_from-tabulate (suc n) value g size k e h =
    let first : ltb k size ≡ true = lt→ltb k size (omega arith) in
    let here : value k ≡ g 0 = ap value (sym (add_zero k)) ∙ h 0 in
    rw (first, here)
      (ap (◌∷◌ (g 0)) (
        bytes_from-tabulate n value (λ j. g (suc j)) size (suc k) (omega arith)
          (λ j. ap value (sym (add_suc k j)) ∙ h (suc j))))
