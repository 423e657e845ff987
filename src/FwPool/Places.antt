-- ===== src/FwPool/Places.antt =====
-- src/fw_pool.c: what `FwPoolAdd` and `FwPoolRemove` do to each place of the pool.
use haa_s_libssh.Common.{
  ℕ, suc, ◌-◌, ◌<◌, ◌≡◌, ◌≢◌, refl, sym, subst, ap, ◌∙◌, ◌⊎◌, inl, inr, true, Option, none, some,
  List, [], ◌∷◌, ◌++◌, arith, Bool-cases, ltb, lt→ltb, length, get_elem?, set, length-take_le,
  get_elem?-set_self, get_elem?-set_other, get_elem?-append_left, get_elem?-append_end,
}
use haa_s_libssh.Common.Int.{pos}
use haa_s_libssh.FwPool.{FwPool, slot, drop_at, get, add, remove}
use haa_s_libssh.FwPool.Contents.{
  IsPool, contents, contents-add, get-contents, get_lem, drop_at-IsPool, slot_lem,
}

some_inj : {a b : Option ℕ} → some a ≡ some b → a ≡ b
some_inj h = cc

module _ (p q : FwPool) (item : Option ℕ) (pv : IsPool p) (qv : IsPool q)
    (longer : q.used ≡ suc p.used) (same : contents q ≡ contents p ++ item ∷ []) where
  in_use : length (contents p) ≡ p.used
  in_use = length-take_le p.used p.items (omega arith)

  get-kept : (j : ℕ) → j < p.used → get (some q) (pos j) ≡ get (some p) (pos j)
  get-kept j h = some_inj (
      get-contents q j qv (omega arith)
      ∙ ap (λ xs. get_elem? xs j) same
      ∙ get_elem?-append_left (contents p) _ j (omega (arith, in_use))
      ∙ sym (get-contents p j pv h))

  get-new : get (some q) (pos p.used) ≡ item
  get-new = some_inj (
      get-contents q p.used qv (omega arith)
      ∙ ap (λ xs. get_elem? xs p.used) same
      ∙ subst (λ n. get_elem? (contents p ++ item ∷ []) n ≡ some item) in_use
          (get_elem?-append_end (contents p) item))

-- Adding keeps every place and puts the item behind them.
pub add-get :
    (grown : Option (ℕ → Option ℕ)) (p : FwPool) (item : Option ℕ)
    → IsPool p
    → (p.used < p.alloc) ⊎ (grown ≢ none)
    → (q : FwPool) × (add grown (some p) item ≡ some (pos p.used, some q))
      × IsPool q
      × (q.used ≡ suc p.used)
      × ((j : ℕ) → j < p.used → get (some q) (pos j) ≡ get (some p) (pos j))
      × (get (some q) (pos p.used) ≡ item)
add-get grown p item v room =
    let (q, e, w, n, c) = contents-add grown p item v room in
    (q, e, w, n, get-kept p q item v w n c, get-new p q item v w n c)

slot-set_self :
    (items : List (Option ℕ)) (i : ℕ) (v : Option ℕ) → i < length items → slot (set items i v) i ≡ v
slot-set_self items i v h = slot_lem _ i (get_elem?-set_self items i v h)

slot-set_other :
    (items : List (Option ℕ)) (i j : ℕ) (v : Option ℕ)
    → ¬ (j ≡ i)
    → slot (set items i v) j ≡ slot items j
unfolding slot
slot-set_other items i j v h = rw (get_elem?-set_other items i j v h, slot) refl

module _ (p : FwPool) (i last : ℕ) (pv : IsPool p) (e : p.used ≡ suc last) (h : i < p.used) where
  slot-drop_at_other :
      (j : ℕ) → j < last → ¬ (j ≡ i) → slot (drop_at p i last).items j ≡ slot p.items j
  unfolding drop_at
  slot-drop_at_other j k ne = elim (Bool-cases (ltb i last)) [
    | inl inner ↦ rw inner (slot-set_other p.items i j (slot p.items last) ne)
    | inr outer ↦ rw outer refl
  ]

  slot-drop_at_self : i < last → slot (drop_at p i last).items i ≡ slot p.items last
  unfolding drop_at
  slot-drop_at_self inner =
      rw (lt→ltb i last inner) (slot-set_self p.items i (slot p.items last) (omega arith))

-- Removing moves the last item to the free place and keeps every other one.
pub remove-get :
    (p : FwPool) (i : ℕ)
    → IsPool p
    → i < p.used
    → (q : FwPool) × (remove (some p) (pos i) ≡ (true, some q))
      × IsPool q
      × (suc q.used ≡ p.used)
      × ((j : ℕ) → j < q.used → j ≢ i → get (some q) (pos j) ≡ get (some p) (pos j))
      × (i < q.used → get (some q) (pos i) ≡ get (some p) (pos q.used))
unfolding remove
remove-get p i v h =
    let last = p.used - 1 in
    let e : p.used ≡ suc last = omega arith in
    let q : FwPool = drop_at p i last in
    let n : q.used ≡ last = unfold drop_at in refl in
    (
      q,
      ground arith,
      drop_at-IsPool p i last v (omega arith),
      omega arith,
      λ j k ne.
          get_lem q j k
          ∙ slot-drop_at_other p i last v e h j (omega arith) ne
          ∙ sym (get_lem p j (omega arith)),
      λ k.
          get_lem q i k
          ∙ slot-drop_at_self p i last v e h (omega arith)
          ∙ sym (rw n (get_lem p last (omega arith))),
    )
