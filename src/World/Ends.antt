-- ===== src/World/Ends.antt =====
-- Total correctness: a piece of the program ends, with no fault, and its result meets a condition.
use haa_s_libssh.Common.{ℕ, ◌≡◌, refl, sym, subst, Option, none, some}
pub use haa_s_libssh.Common.Ends.{Ends, Ends-mono, Ends-some, >>=-Ends, >>-Ends, if-Ends, when-Ends}
use haa_s_libssh.World.{World, M, ◌>>=◌, ◌>>◌, load, store, update_pair}
use haa_s_libssh.FwPair.{FwPair}

-- The rule for a pointer that may be NULL.
pub option-Ends :
    {A B : Type 0} (o : Option A) (m : M B) (f : A → M B) (w : World) (Q : B → World → Type 0)
    → (o ≡ none → Ends (m w) Q)
    → ((a : A) → o ≡ some a → Ends (f a w) Q)
    → Ends ((elim o as (λ _. M B) [ none ↦ m | some a ↦ f a ]) w) Q
option-Ends none m f w Q h k = h refl
option-Ends (some a) m f w Q h k = k a refl

faults_on :
    {A B : Type 0} (f : A → M B) (P : A → World → Type 0) (r : Option (A × World))
    → Ends r P
    → ((a : A) (w' : World) → P a w' → f a w' ≡ none)
    → ◌≡◌ {A = Option (B × World)} (elim r [ none ↦ none | some (a, w') ↦ f a w' ]) none
faults_on f P none h k = refl
faults_on f P (some (a, w')) h k = k a w' h

-- A run that ends well and goes on to a fault is a fault.
pub >>-none :
    {B : Type 0} (m : M (Unit {0})) (k : M B) (w : World) (P : World → Type 0)
    → Ends (m w) (λ _ w'. P w')
    → ((w' : World) → P w' → k w' ≡ none)
    → (m >> k) w ≡ none
>>-none m k w P h g = faults_on (λ _. k) (λ _ w'. P w') (m w) h (λ _ w' p. g w' p)

pub bind-none : {A B : Type 0} (m : M A) (f : A → M B) (w : World) → m w ≡ none → (m >>= f) w ≡ none
bind-none m f w h = rw (h, ◌>>=◌) refl

-- The rule for reading a pair that is allocated.
pub load-Ends :
    {A : Type 0} (a : ℕ) (pair : FwPair) (f : FwPair → M A) (w : World) (Q : A → World → Type 0)
    → w.heap a ≡ some pair
    → Ends (f pair w) Q
    → Ends ((load a >>= f) w) Q
load-Ends a pair f w Q h k =
    >>=-Ends (load a) f w (λ p w'. (p ≡ pair) × (w' ≡ w)) Q (rw (h, load) (refl, refl))
      (λ p w' (e, d). rw (e, d) k)

some_inj : {a b : FwPair} → some a ≡ some b → a ≡ b
some_inj h = cc

pub update_pair-Ends :
    (a : ℕ) (pair : FwPair) (f : FwPair → FwPair) (w : World) (Q : World → Type 0)
    → w.heap a ≡ some pair
    → Q (store a (some (f pair)) w)
    → Ends (update_pair a f w) (λ _ w'. Q w')
update_pair-Ends a pair f w Q h k = step (w.heap a) h
  where
    step :
        (r : Option FwPair)
        → r ≡ some pair
        → Ends {A = Unit {0}}
            (elim r [ none ↦ none | some p ↦ some (tt, store a (some (f p)) w) ])
            (λ _ w'. Q w')
    step none e = cc
    step (some p) e = subst (λ p. Q (store a (some (f p)) w)) (some_inj (sym e)) k
