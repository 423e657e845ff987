-- ===== src/Common/Format.antt =====
-- What `sprintf` writes: `%d` of a number that is not negative, and `%x` padded to a width.
use haa_s_libssh.Common.Tests.{ltb, if◌then◌else◌, ◌==◌}
use Prim.Native.Nat.{ℕ, zero, suc, ◌+◌, ◌-◌, ◌/◌, ◌%◌}
use mathlib.Core.List.{List, [], ◌∷◌}

-- The character of a digit, in lower case.
abbrev pub digit : ℕ → ℕ
digit d = if ltb d 10 then b'0' + d else b'a' + (d - 10)

-- The digits of a number, the last one first computed; `fuel` bounds their number.
unfoldable pub digits_on : ℕ → ℕ → ℕ → List ℕ → List ℕ
digits_on base zero n acc = acc
digits_on base (suc fuel) n acc =
    let rest = digits_on base fuel (n / base) (digit (n % base) ∷ acc) in
    if n / base == 0 then digit (n % base) ∷ acc else rest

-- `%d`, for a number below 2 ^ 64.
unfoldable pub decimal : ℕ → List ℕ
unfolding digits_on
decimal n = digits_on 10 20 n []
