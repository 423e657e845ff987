-- ===== src/Config/Number/RoundTrip.antt =====
-- src/config.c, `ParseInt` and `ParsePort`: a number is read back from its decimal digits.
use haa_s_libssh.Common.{
  ℕ, zero, suc, ◌+◌, ◌*◌, ◌/◌, ◌%◌, ◌^◌, ◌≤◌, ◌<◌, ◌≡◌, refl, ap, sym, ◌∙◌, true, false, Option,
  none, some, [], ◌∷◌, ltb, ◌==◌, if◌then◌else◌, Bool-cases, inl, inr, arith,
}
use native.Mathlib.Numerals.{unary_clauses}
use haa_s_libssh.Common.Int.{ℤ, pos, minus_one, leb_ℤ, int32, int32_pos}
use haa_s_libssh.Common.Format.{digit, digits_on, decimal}
use haa_s_libssh.Config.{Bytes}
use haa_s_libssh.Config.Number.{
  is_space, digit_value, digits, skip_spaces, magnitude, with_sign, signed, strtol, parse_int,
  parse_port,
}

digit_value-digit : (d : ℕ) → d < 10 → digit_value (digit d) ≡ d
digit_value-digit d h = ground arith

-- Digits in front of a string are read before the rest of it.
digits-digit :
    (acc d : ℕ) (s : Bytes) → d < 10 → digits 10 acc (digit d ∷ s) ≡ digits 10 (acc * 10 + d) s
unfolding digits
digits-digit acc d s h = rw (digit_value-digit d h, ltb_lem d h) refl
  where
    ltb_lem : (d : ℕ) → d < 10 → ltb d 10 ≡ true
    ltb_lem d h = ground arith

shorter : (n m : ℕ) → n < m * 10 → n / 10 < m
shorter n m h = omega arith

digits-digits_on :
    (fuel n : ℕ) (s : Bytes) → n < 10 ^ fuel → digits 10 0 (digits_on 10 fuel n s) ≡ digits 10 n s
unfolding digits_on
digits-digits_on zero n s h = ap (λ k. digits 10 k s) (omega arith)
digits-digits_on (suc fuel) n s h =
    let d = n % 10 in
    elim (Bool-cases (n / 10 == 0)) [
      | inl last ↦
          rw last (digits-digit 0 d s (omega arith) ∙ ap (λ k. digits 10 k s) (small n last))
      | inr more ↦ rw more (
          digits-digits_on fuel (n / 10) (digit d ∷ s)
            (shorter n (10 ^ fuel) (simp unary_clauses at h))
          ∙ digits-digit (n / 10) d s (omega arith)
          ∙ ap (λ k. digits 10 k s) (omega arith))
    ]
  where
    small : (n : ℕ) → (n / 10 == 0) ≡ true → 0 * 10 + n % 10 ≡ n
    small n e = ground arith

-- The first digit of a number that is not 0.
digits_on-head :
    (fuel n : ℕ) (s : Bytes)
    → 0 < n
    → n < 10 ^ fuel
    → (d : ℕ) × (rest : Bytes) × (0 < d) × (d < 10) × (digits_on 10 fuel n s ≡ digit d ∷ rest)
unfolding digits_on
digits_on-head zero n s some_unit h = absurd (omega arith)
digits_on-head (suc fuel) n s some_unit h =
    let d = n % 10 in
    elim (Bool-cases (n / 10 == 0)) [
      | inl last ↦ (d, s, unit n some_unit last, omega arith, rw last refl)
      | inr more ↦
          let (c, rest, above, below, e) =
            digits_on-head fuel (n / 10) (digit d ∷ s) (tens n more)
              (shorter n (10 ^ fuel) (simp unary_clauses at h)) in
          (c, rest, above, below, rw more e)
    ]
  where
    unit : (n : ℕ) → 0 < n → (n / 10 == 0) ≡ true → 0 < n % 10
    unit n h e = ground arith

    tens : (n : ℕ) → (n / 10 == 0) ≡ false → 0 < n / 10
    tens n e = ground arith

-- A digit that is not 0 begins the number at once, and its base is 10.
skip_spaces-digit : (c : ℕ) (s : Bytes) → 49 ≤ c → c ≤ 57 → skip_spaces (c ∷ s) ≡ c ∷ s
unfolding skip_spaces
skip_spaces-digit c s h k = rw (not_space c h) refl
  where
    not_space : (c : ℕ) → 49 ≤ c → is_space c ≡ false
    not_space c h = ground arith

magnitude-digit :
    (c : ℕ) (whole s : Bytes) → 49 ≤ c → c ≤ 57 → magnitude whole (c ∷ s) ≡ digits 10 0 (c ∷ s)
unfolding magnitude
magnitude-digit c whole s h k = rw (not_zero c h, is_digit c h k) refl
  where
    not_zero : (c : ℕ) → 49 ≤ c → (c == 48) ≡ false
    not_zero c h = ground arith

    is_digit : (c : ℕ) → 49 ≤ c → c ≤ 57 → ltb (digit_value c) 10 ≡ true
    is_digit c h k = ground arith

signed-digit :
    (c : ℕ) (whole s : Bytes)
    → 49 ≤ c
    → c ≤ 57
    → signed whole (c ∷ s) ≡ with_sign false (digits 10 0 (c ∷ s))
unfolding signed
signed-digit c whole s h k =
    rw (no_minus c h, no_plus c h) (ap (with_sign false) (magnitude-digit c whole s h k))
  where
    no_minus : (c : ℕ) → 49 ≤ c → (c == 45) ≡ false
    no_minus c h = ground arith

    no_plus : (c : ℕ) → 49 ≤ c → (c == 43) ≡ false
    no_plus c h = ground arith

strtol-digit :
    (c n : ℕ) (s : Bytes)
    → 49 ≤ c
    → c ≤ 57
    → n < 2 ^ 63
    → digits 10 0 (c ∷ s) ≡ (n, [])
    → strtol (c ∷ s) ≡ (pos n, [])
unfolding strtol
strtol-digit c n s h k fits e =
    ap (signed (c ∷ s)) (skip_spaces-digit c s h k)
    ∙ signed-digit c (c ∷ s) s h k
    ∙ ap (with_sign false) e
    ∙ rw (short n fits) refl
  where
    short : (n : ℕ) → n < 2 ^ 63 → ltb n (2 ^ 63) ≡ true
    short n h = ground arith

strtol-decimal : (n : ℕ) → 0 < n → n < 2 ^ 63 → strtol (decimal n) ≡ (pos n, [])
unfolding decimal digits
strtol-decimal n some_unit fits =
    let (d, rest, above, below, e) = digits_on-head 20 n [] some_unit (omega arith) in
    ap strtol e
    ∙ strtol-digit (digit d) n rest (low d above below) (high d below) fits
        (ap (digits 10 0) (sym e) ∙ digits-digits_on 20 n [] (omega arith) ∙ end_of n)
  where
    low : (d : ℕ) → 0 < d → d < 10 → 49 ≤ digit d
    low d h k = ground arith

    high : (d : ℕ) → d < 10 → digit d ≤ 57
    high d h = ground arith

    end_of : (n : ℕ) → digits 10 n [] ≡ (n, [])
    end_of n = refl

parse_int_read : (n : ℕ) → 0 < n → n < 2 ^ 31 → parse_int minus_one (decimal n) ≡ some (pos n)
unfolding parse_int
parse_int_read n h k = rw (strtol-decimal n h (omega arith), int32_pos n k) (positive n h)
  where
    positive :
        (n : ℕ) → 0 < n → (if leb_ℤ (pos n) (pos 0) then none else some (pos n)) ≡ some (pos n)
    positive n h = ground arith

parse_int_wraps :
    (n : ℕ) → 0 < n → n < 2 ^ 31 → parse_int minus_one (decimal (2 ^ 32 + n)) ≡ some (pos n)
unfolding parse_int int32
parse_int_wraps n h k =
    rw (strtol-decimal (2 ^ 32 + n) (omega arith) (omega arith), wrapped n k) (positive n h)
  where
    wrapped : (n : ℕ) → n < 2 ^ 31 → int32 (pos (2 ^ 32 + n)) ≡ pos n
    wrapped n h = ground arith

    positive :
        (n : ℕ) → 0 < n → (if leb_ℤ (pos n) (pos 0) then none else some (pos n)) ≡ some (pos n)
    positive n h = ground arith

-- The decimal digits of a number from 1 to 2147483647 are read back as that number by `ParseInt`, where
-- the option is set for the first time, and by `ParsePort` where it is below 65535; from there on
-- `ParsePort` refuses it. With 4294967296 added to the number, `ParseInt` reads the same.
pub parse_int-decimal :
    (n : ℕ)
    → 0 < n
    → n < 2 ^ 31
    → (parse_int minus_one (decimal n) ≡ some (pos n))
      × (parse_port minus_one (decimal n) ≡ (if ltb n 65535 then some (pos n) else none))
      × (parse_int minus_one (decimal (2 ^ 32 + n)) ≡ some (pos n))
unfolding parse_port
parse_int-decimal n some_unit fits =
    let read = parse_int_read n some_unit fits in
    (
      read,
      ap
            (λ o. elim o as (λ _. Option ℤ) [
              | none ↦ none
              | some i ↦ if leb_ℤ (pos 65535) i then none else some i
            ])
            read
          ∙ port n,
      parse_int_wraps n some_unit fits,
    )
  where
    port :
        (n : ℕ)
        → (if leb_ℤ (pos 65535) (pos n) then none else some (pos n))
          ≡ (if ltb n 65535 then some (pos n) else none)
    port n = ground arith
