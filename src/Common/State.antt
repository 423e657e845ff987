-- ===== src/Common/State.antt =====
-- Pieces of a program with state `S`. What `none` stands for is said where `S` is declared.
use mathlib.Core.Bool.{Bool, true, false}
use mathlib.Core.Option.{Option, none, some}

infixl 5 ◌>>=◌ ◌>>◌
module _ {S : Type 0} where
  abbrev pub ◌>>=◌ :
      {A B : Type 0} → (S → Option (A × S)) → (A → S → Option (B × S)) → S → Option (B × S)
  ◌>>=◌ m f s = elim (m s) [ none ↦ none | some (a, s') ↦ f a s' ]

  abbrev pub ◌>>◌ :
      {B : Type 0} → (S → Option (Unit {0} × S)) → (S → Option (B × S)) → S → Option (B × S)
  ◌>>◌ m k s = elim (m s) [ none ↦ none | some (a, s') ↦ k s' ]

  abbrev pub pure : {A : Type 0} → A → S → Option (A × S)
  pure a s = some (a, s)

  abbrev pub skip : S → Option (Unit {0} × S)
  skip s = some (tt, s)

  abbrev pub fault : {A : Type 0} → S → Option (A × S)
  fault s = none

  -- `if (b) …` with nothing in the other branch.
  abbrev pub when : Bool → (S → Option (Unit {0} × S)) → S → Option (Unit {0} × S)
  when true m = m
  when false m = skip
