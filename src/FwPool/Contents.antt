-- ===== src/FwPool/Contents.antt =====
-- src/fw_pool.c: the pool refines a bag of pair pointers. The items in use are its contents.
use mathlib.Core.List.{Perm, perm_middle, append-nil}
use mathlib.Core.List.Perm
use native.Mathlib.Numerals.{add-one}
use haa_s_libssh.Common.{
  ◌≢◌, ℕ, zero, suc, ◌+◌, ◌-◌, ◌≤◌, ◌<◌, ◌≡◌, refl, sym, ap, ◌∙◌, subst, ◌⊎◌, inl, inr, true, false,
  Option, none, some, List, [], ◌∷◌, ◌++◌, arith, Bool-cases, ltb, leb, ltb→lt, length, get_elem?,
  set, take, tabulate, length-append, length-set, length-tabulate, get_elem?-take, get_elem?_lt,
  take-append, take-suc-set, take-suc, take-set,
}
use haa_s_libssh.Common.Int.{ℤ, pos, negsuc}
use haa_s_libssh.FwPool.{FwPool, slot, grow, append, drop_at, get, add, remove}

pub record IsPool (p : FwPool) : Type 0 where
  pub fits : p.used ≤ p.alloc
  pub block : p.alloc ≡ length p.items

abbrev pub contents : FwPool → List (Option ℕ)
contents p = take p.used p.items

pub slot_lem :
    (items : List (Option ℕ)) (i : ℕ) {v : Option ℕ} → get_elem? items i ≡ some v → slot items i ≡ v
unfolding slot
slot_lem items i h = ground arith

grow-IsPool : (left : ℕ → Option ℕ) (p : FwPool) → IsPool p → IsPool (grow (some left) p)
unfolding grow
grow-IsPool left p v =
    omega (arith, length-append p.items (tabulate 10 left), length-tabulate 10 left)

contents-grow :
    (left : ℕ → Option ℕ) (p : FwPool) → IsPool p → contents (grow (some left) p) ≡ contents p
unfolding grow
contents-grow left p v = take-append p.used p.items _ (omega arith)

grow_room :
    (left : ℕ → Option ℕ) (p : FwPool)
    → IsPool p
    → (grow (some left) p).used < (grow (some left) p).alloc
unfolding grow
grow_room left p v = omega arith

append_room :
    (p : FwPool) (item : Option ℕ)
    → IsPool p
    → p.used < p.alloc
    → (q : FwPool) × (append p item ≡ some (pos p.used, some q))
      × IsPool q
      × (q.used ≡ suc p.used)
      × (contents q ≡ contents p ++ item ∷ [])
unfolding append
append_room p item v h = (
  record p { used = p.used + 1; items = set p.items p.used item },
  ground arith,
  omega (arith, length-set p.items p.used item),
  omega arith,
  rw add-one (take-suc-set p.used p.items item (omega arith)),
)

-- While a slot of a well-formed pool is free, or `realloc` succeeds, `FwPoolAdd` puts the pair
-- behind the others and returns its index; the pool stays well formed.
pub contents-add :
    (grown : Option (ℕ → Option ℕ)) (p : FwPool) (item : Option ℕ)
    → IsPool p
    → (p.used < p.alloc) ⊎ (grown ≢ none)
    → (q : FwPool) × (add grown (some p) item ≡ some (pos p.used, some q))
      × IsPool q
      × (q.used ≡ suc p.used)
      × (contents q ≡ contents p ++ item ∷ [])
unfolding add
contents-add none p item v room =
    let h : p.used < p.alloc = ground arith in
    let (q, e, w, n, c) = append_room p item v h in (q, ground arith, w, n, c)
contents-add (some left) p item v room = elim (Bool-cases (leb p.alloc p.used)) [
  | inl full ↦
      let (q, e, w, n, c) =
        append_room (grow (some left) p) item (grow-IsPool left p v) (grow_room left p v) in
      (
        q,
        rw full (unfold grow in e),
        w,
        unfold grow in n,
        c ∙ ap (λ xs. xs ++ item ∷ []) (contents-grow left p v),
      )
  | inr free ↦ let (q, e, w, n, c) = append_room p item v (ground arith) in (q, rw free e, w, n, c)
]

-- On a well-formed pool whose block is full, when `realloc` fails, `FwPoolAdd` writes behind the
-- block.
pub add_full :
    (p : FwPool) (item : Option ℕ) → IsPool p → p.used ≡ p.alloc → add none (some p) item ≡ none
unfolding add grow append
add_full p item v h = ground arith

to_front : (xs : List (Option ℕ)) (a : Option ℕ) → Perm (xs ++ a ∷ []) (a ∷ xs)
to_front xs a =
    subst (λ ys. Perm (xs ++ a ∷ []) (a ∷ ys)) (append-nil xs) (perm_middle {a = a} xs [])

set-perm :
    (xs : List (Option ℕ)) (i : ℕ) (v a : Option ℕ)
    → get_elem? xs i ≡ some a
    → Perm (xs ++ v ∷ []) (a ∷ set xs i v)
set-perm [] i v a h = cc
set-perm (x ∷ xs) zero v a h =
    let e : x ≡ a = ground arith in rw (← e) (Perm.cons x (to_front xs v))
set-perm (x ∷ xs) (suc i) v a h = Perm.trans (Perm.cons x (set-perm xs i v a h)) (Perm.swap a x _)

drop_at_parts :
    (p : FwPool) (i last : ℕ)
    → IsPool p
    → p.used ≡ suc last
    → i < p.used
    → (a : Option ℕ) × (get_elem? p.items i ≡ some a)
      × Perm (contents p) (a ∷ contents (drop_at p i last))
unfolding drop_at
drop_at_parts p i last v e h =
    let (a, ea) = get_elem?_lt p.items i (omega arith) in
    let (z, ez) = get_elem?_lt p.items last (omega arith) in
    let split : contents p ≡ take last p.items ++ z ∷ [] =
      ap (λ n. take n p.items) e ∙ take-suc last p.items ez in
    (
      a,
      ea,
      rw split elim (Bool-cases (ltb i last)) [
        | inl inner ↦
            rw (inner, slot_lem p.items last ez, take-set last p.items i z)
              (set-perm (take last p.items) i z a
                (get_elem?-take last p.items i (ltb→lt i last inner) ∙ ea))
        | inr outer ↦
            let same : i ≡ last = ground arith in
            let ends : a ≡ z = ground arith in rw (outer, ends) (to_front (take last p.items) z)
      ],
    )

pub drop_at-IsPool :
    (p : FwPool) (i last : ℕ) → IsPool p → last ≤ p.used → IsPool (drop_at p i last)
unfolding drop_at
drop_at-IsPool p i last v h = ground (arith, length-set p.items i (slot p.items last))

pub get_lem : (p : FwPool) (i : ℕ) → i < p.used → get (some p) (pos i) ≡ slot p.items i
unfolding get
get_lem p i h = ground arith

-- `FwPoolRemove` at an index in use of a well-formed pool takes exactly the pair that `FwPoolGet`
-- gives there out of the bag of pairs: the others stay, in some order. The pool stays well formed.
pub contents-remove :
    (p : FwPool) (i : ℕ)
    → IsPool p
    → i < p.used
    → (q : FwPool) × (remove (some p) (pos i) ≡ (true, some q))
      × IsPool q
      × (suc q.used ≡ p.used)
      × Perm (contents p) (get (some p) (pos i) ∷ contents q)
unfolding remove get
contents-remove p i v h =
    let (a, e, perm) = drop_at_parts p i (p.used - 1) v (omega arith) h in
    (
      drop_at p i (p.used - 1),
      ground arith,
      drop_at-IsPool p i (p.used - 1) v (omega arith),
      unfold drop_at in omega arith,
      subst (λ b. Perm (contents p) (b ∷ contents (drop_at p i (p.used - 1))))
          (sym (get_lem p i h ∙ slot_lem p.items i e)) perm,
    )

-- An index that is negative or not below the number of items is refused by `FwPoolRemove`, which
-- leaves the pool as it is, and read as NULL by `FwPoolGet`.
pub remove_outside :
    (p : FwPool) (index : ℤ)
    → ((i : ℕ) → index ≡ pos i → p.used ≤ i)
    → (remove (some p) index ≡ (false, some p)) × (get (some p) index ≡ none)
unfolding remove get
remove_outside p (pos i) h = let k = h i refl in ground arith
remove_outside p (negsuc n) h = ground arith

pub get-contents :
    (p : FwPool) (i : ℕ)
    → IsPool p
    → i < p.used
    → some (get (some p) (pos i)) ≡ get_elem? (contents p) i
get-contents p i v h =
    let (a, e) = get_elem?_lt p.items i (omega arith) in
    ap some (get_lem p i h ∙ slot_lem p.items i e) ∙ sym (get_elem?-take p.used p.items i h ∙ e)

-- What is read from a pool stands in it.
pub get_inside : (p : FwPool) (j a : ℕ) → get (some p) (pos j) ≡ some a → j < p.used
unfolding get
get_inside p j a h = ground arith
