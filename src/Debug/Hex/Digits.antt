-- ===== src/Debug/Hex/Digits.antt =====
-- src/debug.c: what `%x` writes.
use haa_s_libssh.Common.{
  ℕ, zero, suc, ◌+◌, ◌-◌, ◌/◌, ◌%◌, ◌≤◌, ◌<◌, ◌≡◌, refl, [], ◌∷◌, ◌++◌, All, length, ◌==◌,
  Bool-cases, inl, inr, length-append, arith, ◌⊎◌,
}
use haa_s_libssh.Common.Format.{digit, digits_on}
use haa_s_libssh.Config.{Bytes}
use haa_s_libssh.Debug.Hex.{zeros, padded_hex}

abbrev pub IsHexDigit : ℕ → Type 0
IsHexDigit c = ((b'0' ≤ c) × (c ≤ b'9')) ⊎ ((b'a' ≤ c) × (c ≤ b'f'))

digit-IsHexDigit : (d : ℕ) → d < 16 → IsHexDigit (digit d)
digit-IsHexDigit d h = ground arith

pub All-append : (P : ℕ → Type 0) (xs ys : Bytes) → All P xs → All P ys → All P (xs ++ ys)
All-append P [] ys h k = k
All-append P (x ∷ xs) ys (px, h) k = (px, All-append P xs ys h k)

digits_on-All :
    (fuel n : ℕ) (acc : Bytes) → All IsHexDigit acc → All IsHexDigit (digits_on 16 fuel n acc)
unfolding digits_on
digits_on-All zero n acc h = h
digits_on-All (suc fuel) n acc h = elim (Bool-cases (n / 16 == 0)) [
  | inl last ↦ rw last (digit-IsHexDigit (n % 16) (omega arith), h)
  | inr more ↦ rw more (
      digits_on-All fuel (n / 16) (digit (n % 16) ∷ acc)
        (digit-IsHexDigit (n % 16) (omega arith), h))
]

zeros-All : (n : ℕ) → All IsHexDigit (zeros n)
zeros-All zero = tt
zeros-All (suc n) = (inl (omega arith, omega arith), zeros-All n)

pub padded_hex-All : (width n : ℕ) → All IsHexDigit (padded_hex width n)
unfolding padded_hex
padded_hex-All width n =
    All-append IsHexDigit (zeros (width - length (digits_on 16 8 n []))) (digits_on 16 8 n [])
      (zeros-All (width - length (digits_on 16 8 n []))) (digits_on-All 8 n [] tt)

digits_on-length : (fuel n : ℕ) (acc : Bytes) → length (digits_on 16 fuel n acc) ≤ fuel + length acc
unfolding digits_on
digits_on-length zero n acc = omega arith
digits_on-length (suc fuel) n acc =
    let rest = digits_on-length fuel (n / 16) (digit (n % 16) ∷ acc) in ground arith

length-zeros : (n : ℕ) → length (zeros n) ≡ n
length-zeros zero = refl
length-zeros (suc n) = omega (arith, length-zeros n)

-- At most eight digits, where the width is no more.
pub length-padded_hex : (width n : ℕ) → width ≤ 8 → length (padded_hex width n) ≤ 8
unfolding padded_hex
length-padded_hex width n h =
    let s = digits_on 16 8 n [] in
    rw (length-append (zeros (width - length s)) s)
      (omega (arith, length-zeros (width - length s), digits_on-length 8 n []))

-- The two digits of a byte.
pub padded_hex_byte : (c : ℕ) → c < 256 → padded_hex 2 c ≡ digit (c / 16) ∷ digit (c % 16) ∷ []
unfolding padded_hex digits_on
padded_hex_byte c h = ground arith
