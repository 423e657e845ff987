-- ===== src/Common/Ends.antt =====
-- Rules for pieces of a program. Total correctness: a piece of a program with state `S` ends, with no
-- fault, and its result meets a condition. `none` is a fault.
use mathlib.Core.Path.{◌≡◌, refl, ap}
use haa_s_libssh.Common.Tests.{if◌then◌else◌}
use haa_s_libssh.Common.State.{◌>>=◌, ◌>>◌, when}
use mathlib.Core.Bool.{Bool, true, false}
use mathlib.Core.Option.{Option, none, some}

module _ {S : Type 0} where
  abbrev pub Ends : {A : Type 0} → Option (A × S) → (A → S → Type 0) → Type 0
  Ends none Q = ⊥
  Ends (some (a, s)) Q = Q a s

  -- The rule for a sequence.
  pub go_on :
      {A B : Type 0} (f : A → S → Option (B × S)) (P : A → S → Type 0) (Q : B → S → Type 0)
      (r : Option (A × S))
      → Ends r P
      → ((a : A) (s : S) → P a s → Ends (f a s) Q)
      → Ends (elim r [ none ↦ none | some (a, s) ↦ f a s ]) Q
  go_on f P Q none h k = absurd h
  go_on f P Q (some (a, s)) h k = k a s h

  -- The rules for sequences.
  pub >>=-Ends :
      {A B : Type 0} (m : S → Option (A × S)) (f : A → S → Option (B × S)) (w : S)
      (P : A → S → Type 0) (Q : B → S → Type 0)
      → Ends (m w) P
      → ((a : A) (w' : S) → P a w' → Ends (f a w') Q)
      → Ends ((m >>= f) w) Q
  >>=-Ends m f w P Q h k = go_on f P Q (m w) h k

  pub >>-Ends :
      {B : Type 0} (m : S → Option (Unit {0} × S)) (k : S → Option (B × S)) (w : S) (P : S → Type 0)
      (Q : B → S → Type 0)
      → Ends (m w) (λ _ w'. P w')
      → ((w' : S) → P w' → Ends (k w') Q)
      → Ends ((m >> k) w) Q
  >>-Ends m k w P Q h g = go_on (λ _. k) (λ _ w'. P w') Q (m w) h (λ _ w' p. g w' p)

  -- A fault is the end of a sequence.
  fault_first :
      {A B : Type 0} (f : A → S → Option (B × S)) (r : Option (A × S))
      → r ≡ none
      → elim r as (λ _. Option (B × S)) [ none ↦ none | some (a, s) ↦ f a s ] ≡ none
  fault_first {B = B} f r e =
      ap (λ o. elim o as (λ _. Option (B × S)) [ none ↦ none | some (a, s) ↦ f a s ]) e

  pub >>=-none :
      {A B : Type 0} (m : S → Option (A × S)) (f : A → S → Option (B × S)) (w : S)
      → m w ≡ none
      → (m >>= f) w ≡ none
  >>=-none m f w e = fault_first f (m w) e

  pub >>-none :
      {B : Type 0} (m : S → Option (Unit {0} × S)) (k : S → Option (B × S)) (w : S)
      → m w ≡ none
      → (m >> k) w ≡ none
  >>-none m k w e = fault_first (λ _. k) (m w) e

  -- The rule for a test, with what each branch knows.
  pub if-Ends :
      {A : Type 0} (b : Bool) (m n : S → Option (A × S)) (w : S) (Q : A → S → Type 0)
      → (b ≡ true → Ends (m w) Q)
      → (b ≡ false → Ends (n w) Q)
      → Ends ((if b then m else n) w) Q
  if-Ends true m n w Q h k = h refl
  if-Ends false m n w Q h k = k refl

  -- The rule for a test with nothing in the other branch.
  pub when-Ends :
      (b : Bool) (m : S → Option (Unit {0} × S)) (w : S) (Q : S → Type 0)
      → (b ≡ true → Ends (m w) (λ _ w'. Q w'))
      → (b ≡ false → Q w)
      → Ends (when b m w) (λ _ w'. Q w')
  when-Ends true m w Q h k = h refl
  when-Ends false m w Q h k = k refl

  -- A weaker condition.
  pub Ends-mono :
      {A : Type 0} (r : Option (A × S)) (P Q : A → S → Type 0)
      → Ends r P
      → ((a : A) (s : S) → P a s → Q a s)
      → Ends r Q
  Ends-mono none P Q h k = h
  Ends-mono (some (a, s)) P Q h k = k a s h

  -- The result itself.
  pub Ends-some :
      {A : Type 0} (r : Option (A × S)) (Q : A → S → Type 0)
      → Ends r Q
      → (a : A) × (s : S) × (r ≡ some (a, s)) × Q a s
  Ends-some none Q h = absurd h
  Ends-some (some (a, s)) Q h = (a, s, refl, h)

  -- Frames: what a piece of a program leaves alone, if it ends with no fault.
  abbrev pub Leaves : {A : Type 0} → Option (A × S) → (S → Type 0) → Type 0
  Leaves none Q = Unit {0}
  Leaves (some (a, s)) Q = Q s

  pub leave_on :
      {A B : Type 0} (f : A → S → Option (B × S)) (P Q : S → Type 0) (r : Option (A × S))
      → Leaves r P
      → ((a : A) (s : S) → P s → Leaves (f a s) Q)
      → Leaves (elim r [ none ↦ none | some (a, s) ↦ f a s ]) Q
  leave_on f P Q none h k = tt
  leave_on f P Q (some (a, s)) h k = k a s h

  pub >>=-Leaves :
      {A B : Type 0} (m : S → Option (A × S)) (f : A → S → Option (B × S)) (w : S)
      (P Q : S → Type 0)
      → Leaves (m w) P
      → ((a : A) (w' : S) → P w' → Leaves (f a w') Q)
      → Leaves ((m >>= f) w) Q
  >>=-Leaves m f w P Q h k = leave_on f P Q (m w) h k

  pub >>-Leaves :
      {B : Type 0} (m : S → Option (Unit {0} × S)) (k : S → Option (B × S)) (w : S)
      (P Q : S → Type 0)
      → Leaves (m w) P
      → ((w' : S) → P w' → Leaves (k w') Q)
      → Leaves ((m >> k) w) Q
  >>-Leaves m k w P Q h g = leave_on (λ _. k) P Q (m w) h (λ _ w' p. g w' p)

  pub if-Leaves :
      {A : Type 0} (b : Bool) (m n : S → Option (A × S)) (w : S) (Q : S → Type 0)
      → Leaves (m w) Q
      → Leaves (n w) Q
      → Leaves ((if b then m else n) w) Q
  if-Leaves true m n w Q h k = h
  if-Leaves false m n w Q h k = k

  -- A run that ends, and what it leaves alone.
  pub Ends-leaves :
      {A : Type 0} (r : Option (A × S)) (P : A → S → Type 0) (Q : S → Type 0)
      → Ends r P
      → Leaves r Q
      → Ends r (λ a s. P a s × Q s)
  Ends-leaves none P Q h k = h
  Ends-leaves (some (a, s)) P Q h k = (h, k)

  -- What a piece of a program gives, if it ends with no fault.
  abbrev pub Gives : {A : Type 0} → Option (A × S) → (A → S → Type 0) → Type 0
  Gives none Q = Unit {0}
  Gives (some (a, s)) Q = Q a s

  pub give_on :
      {A B : Type 0} (f : A → S → Option (B × S)) (P : A → S → Type 0) (Q : B → S → Type 0)
      (r : Option (A × S))
      → Gives r P
      → ((a : A) (s : S) → P a s → Gives (f a s) Q)
      → Gives (elim r [ none ↦ none | some (a, s) ↦ f a s ]) Q
  give_on f P Q none h k = tt
  give_on f P Q (some (a, s)) h k = k a s h

  pub if-Gives :
      {A : Type 0} (b : Bool) (m n : S → Option (A × S)) (w : S) (Q : A → S → Type 0)
      → (b ≡ true → Gives (m w) Q)
      → (b ≡ false → Gives (n w) Q)
      → Gives ((if b then m else n) w) Q
  if-Gives true m n w Q h k = h refl
  if-Gives false m n w Q h k = k refl

  pub Leaves-Gives :
      {A : Type 0} (r : Option (A × S)) (Q : S → Type 0) → Leaves r Q → Gives r (λ _ s. Q s)
  Leaves-Gives none Q h = tt
  Leaves-Gives (some (a, s)) Q h = h

  pub Ends-Gives :
      {A : Type 0} (r : Option (A × S)) (P Q : A → S → Type 0)
      → Ends r P
      → Gives r Q
      → Ends r (λ a s. P a s × Q a s)
  Ends-Gives none P Q h k = h
  Ends-Gives (some (a, s)) P Q h k = (h, k)
