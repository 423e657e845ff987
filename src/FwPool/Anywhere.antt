-- ===== src/FwPool/Anywhere.antt =====
-- src/fw_pool.c, `FwPoolGet` and `FwPoolRemove`: what they do for any index and any pool, NULL included.
use mathlib.Core.List.{Perm}
use haa_s_libssh.Common.{
  ℕ, zero, suc, ◌≤◌, ◌<◌, ◌≡◌, refl, ap, sym, subst, ◌∙◌, true, false, Bool-cases, inl, inr, Option,
  none, some, List, [], ◌∷◌, arith, ltb, ltb→lt, length, get_elem?, length-take_le,
}
use haa_s_libssh.Common.Int.{ℤ, pos, negsuc}
use haa_s_libssh.FwPool.{FwPool, get, remove}
use haa_s_libssh.FwPool.Contents.{IsPool, contents, contents-remove, get-contents, remove_outside}

-- The pairs that a pointer to a pool names.
abbrev pub pairs : Option FwPool → List (Option ℕ)
pairs none = []
pairs (some p) = contents p

abbrev pub IsPoolOrNull : Option FwPool → Type 0
IsPoolOrNull none = Unit {0}
IsPoolOrNull (some p) = IsPool p

-- The item of a list at an index that may be negative.
abbrev pub at : List (Option ℕ) → ℤ → Option (Option ℕ)
at items (pos i) = get_elem? items i
at items (negsuc n) = none

-- What is promised for an index with no item, and for one with an item.
abbrev pub Refused : Option FwPool → ℤ → Type 0
Refused o index = (get o index ≡ none) × (remove o index ≡ (false, o))

abbrev pub Removed : Option FwPool → ℤ → Option ℕ → Type 0
Removed o index item =
    (get o index ≡ item)
    × ((remove o index).0 ≡ true)
    × IsPoolOrNull (remove o index).1
    × Perm (pairs o) (item ∷ pairs (remove o index).1)

clash : {A : Type 0} {x : Option (Option ℕ)} {i : Option ℕ} → x ≡ some i → x ≡ none → A
clash e f = absurd (impossible e f)
  where
    impossible : {x : Option (Option ℕ)} {i : Option ℕ} → x ≡ some i → x ≡ none → ⊥
    impossible e f = cc

same_item : {a b : Option ℕ} → some a ≡ some b → a ≡ b
same_item h = cc

removed :
    (p : FwPool) (i : ℕ) (item : Option ℕ)
    → IsPool p
    → i < p.used
    → get (some p) (pos i) ≡ item
    → Removed (some p) (pos i) item
removed p i item v h e =
    let (q, f, w, _, perm) = contents-remove p i v h in
    (
      e,
      ap (λ r. r.0) f,
      subst (λ r. IsPoolOrNull r.1) (sym f) w,
      subst (λ r. Perm (contents p) (item ∷ pairs r.1)) (sym f)
          (subst (λ a. Perm (contents p) (a ∷ contents q)) e perm),
    )

no_item : (items : List (Option ℕ)) (i : ℕ) → length items ≤ i → get_elem? items i ≡ none
no_item [] i h = refl
no_item (x ∷ items) zero h = absurd (omega arith)
no_item (x ∷ items) (suc i) h = no_item items i (omega arith)

-- For any index, negative ones included, and for a well-formed pool or NULL: where the list of the pairs
-- has no item at the index, `FwPoolGet` gives NULL, and `FwPoolRemove` refuses and leaves everything as
-- it is. Where it has one, `FwPoolGet` gives that item, and `FwPoolRemove` succeeds: it takes exactly
-- that item out of the pairs, and the pool stays well formed.
pub remove-at :
    (o : Option FwPool) (index : ℤ)
    → IsPoolOrNull o
    → (at (pairs o) index ≡ none → Refused o index)
      × ((item : Option ℕ) → at (pairs o) index ≡ some item → Removed o index item)
unfolding get remove
remove-at none (pos i) v = (λ e. (refl, refl), λ item e. clash e refl)
remove-at none (negsuc n) v = (λ e. (refl, refl), λ item e. clash e refl)
remove-at (some p) (negsuc n) v =
    let refused = remove_outside p (negsuc n) (λ i e. absurd (ground arith)) in
    (λ e. (refused.1, refused.0), λ item e. clash e refl)
remove-at (some p) (pos i) v = elim (Bool-cases (ltb i p.used)) [
  | inl inside ↦
      let h = ltb→lt i p.used inside in
      let there = get-contents p i v h in
      (λ e. clash (sym there) e, λ item e. removed p i item v h (same_item (there ∙ e)))
  | inr outside ↦
      let most = length-take_le p.used p.items (omega arith) in
      let none_there = no_item (contents p) i (beyond i p.used outside most) in
      let refused = remove_outside p (pos i) (λ j e. behind i j p.used outside e) in
      (λ e. (refused.1, refused.0), λ item e. clash e none_there)
]
  where
    beyond : (i n : ℕ) → {l : ℕ} → ltb i n ≡ false → l ≡ n → l ≤ i
    beyond i n h e = ground arith

    behind : (i j n : ℕ) → ltb i n ≡ false → pos i ≡ pos j → n ≤ j
    behind i j n h e = ground arith
