-- ===== src/Config/Number.antt =====
-- src/config.c, `ParseInt` and `ParsePort`, with the `strtol` of C for base 0 that they use. A long has
-- 64 bits.
pub mod RoundTrip
use haa_s_libssh.Common.{
  ℕ, ◌+◌, ◌-◌, ◌*◌, ◌^◌, Bool, true, false, not, ◌&&◌, ◌||◌, Option, none, some, [], ◌∷◌, leb, ltb,
  ◌==◌, if◌then◌else◌,
}
use haa_s_libssh.Common.Int.{ℤ, pos, minus_one, ◌-ℤ◌, eqb_ℤ, leb_ℤ, int32}
use haa_s_libssh.Config.{Bytes}

abbrev pub is_space : ℕ → Bool
is_space b = (leb 9 b && leb b 13) || b == 32

-- The value of a digit or a letter; 36 for other characters.
abbrev pub digit_value : ℕ → ℕ
digit_value b =
    if leb 48 b && leb b 57
    then b - 48
    else if leb 97 b && leb b 122
    then b - 87
    else if leb 65 b && leb b 90
    then b - 55
    else 36

-- The digits in front, after the number `acc`: the number and the rest.
unfoldable pub digits : ℕ → ℕ → Bytes → ℕ × Bytes
digits base acc [] = (acc, [])
digits base acc (b ∷ bs) =
    let rest = digits base (acc * base + digit_value b) bs in
    if ltb (digit_value b) base then rest else (acc, b ∷ bs)

unfoldable pub skip_spaces : Bytes → Bytes
skip_spaces [] = []
skip_spaces (b ∷ bs) = let rest = skip_spaces bs in if is_space b then rest else b ∷ bs

abbrev pub starts_hex : Bytes → Bool
starts_hex [] = false
starts_hex (b ∷ bs) = ltb (digit_value b) 16

-- After `0`: an `x` with a hexadecimal digit behind it means base 16, all else base 8.
unfoldable pub after_zero : Bytes → ℕ × Bytes
unfolding digits
after_zero [] = (0, [])
after_zero (b ∷ bs) =
    if (b == 120 || b == 88) && starts_hex bs then digits 16 0 bs else digits 8 0 (b ∷ bs)

-- The number in front; with no digits the whole string is left over.
unfoldable pub magnitude : Bytes → Bytes → ℕ × Bytes
unfolding digits after_zero
magnitude whole [] = (0, whole)
magnitude whole (b ∷ bs) =
    if b == 48
    then after_zero bs
    else if ltb (digit_value b) 10
    then digits 10 0 (b ∷ bs)
    else (0, whole)

-- The range of a long.
abbrev pub to_long : Bool → ℕ → ℤ
to_long false n = if ltb n (2 ^ 63) then pos n else pos (2 ^ 63 - 1)
to_long true n = pos 0 -ℤ pos (if leb n (2 ^ 63) then n else 2 ^ 63)

abbrev pub with_sign : Bool → ℕ × Bytes → ℤ × Bytes
with_sign negative r = (to_long negative r.0, r.1)

unfoldable pub signed : Bytes → Bytes → ℤ × Bytes
unfolding magnitude
signed whole [] = (pos 0, whole)
signed whole (b ∷ bs) =
    if b == 45
    then with_sign true (magnitude whole bs)
    else if b == 43
    then with_sign false (magnitude whole bs)
    else with_sign false (magnitude whole (b ∷ bs))

-- `strtol(s, &p, 0)`: the number, and the string at `p`.
unfoldable pub strtol : Bytes → ℤ × Bytes
unfolding skip_spaces signed
strtol s = signed s (skip_spaces s)

abbrev pub is_empty : Bytes → Bool
is_empty [] = true
is_empty (b ∷ bs) = false

-- `ParseInt`, from the old value: the new one, or an error.
unfoldable pub parse_int : ℤ → Bytes → Option ℤ
unfolding strtol
parse_int value optarg =
    let r = strtol optarg in
    let i = int32 r.0 in
    if not (eqb_ℤ value minus_one)
    then none
    else if not (is_empty r.1)
    then none
    else if leb_ℤ i (pos 0)
    then none
    else some i

-- `ParsePort`.
unfoldable pub parse_port : ℤ → Bytes → Option ℤ
unfolding parse_int
parse_port value optarg = elim (parse_int value optarg) [
  | none ↦ none
  | some i ↦ if leb_ℤ (pos 65535) i then none else some i
]
