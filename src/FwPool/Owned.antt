-- ===== src/FwPool/Owned.antt =====
-- src/fw_pool.c with src/fw_pair.c: the pool owns its pairs. Every item is an allocated pair, and no
-- pair stands in it twice.
use native.Mathlib.Decide.{ℕ_discrete, dec_le}
use haa_s_libssh.Common.{
  ℕ, suc, ◌≤◌, ◌<◌, ◌≡◌, ◌≢◌, refl, sym, ap, ◌∙◌, subst, ◌⊎◌, inl, inr, true, false, Option, none,
  some, arith,
}
use haa_s_libssh.Common.Int.{pos}
use haa_s_libssh.FwPair.{FwPair}
use haa_s_libssh.FwPool.{FwPool, Heap, get, remove}
use haa_s_libssh.FwPool.Contents.{IsPool, get_inside}
use haa_s_libssh.FwPool.Closed.{is_dangling}
use haa_s_libssh.FwPool.Places.{remove-get}

-- The item is a pair that is allocated below `next`.
abbrev pub Allocated : Heap → ℕ → Option ℕ → Type 0
Allocated heap next item =
    (a : ℕ) × (item ≡ some a) × (a < next) × (pair : FwPair) × (heap a ≡ some pair)

pub record Owned (heap : Heap) (next : ℕ) (p : FwPool) : Type 0 where
  pub wf : IsPool p
  pub fresh : (b : ℕ) → next ≤ b → heap b ≡ none
  pub items : (j : ℕ) → j < p.used → Allocated heap next (get (some p) (pos j))
  pub distinct :
      (i j : ℕ) → i < p.used → j < p.used → get (some p) (pos i) ≡ get (some p) (pos j) → i ≡ j

pub not-dangling :
    (heap : Heap) (next : ℕ) (item : Option ℕ)
    → Allocated heap next item
    → is_dangling heap item ≡ false
not-dangling heap next item (a, e, lt, pair, h) = ground arith

-- Where an item of the smaller pool stood before `FwPoolRemove` at `k`.
Moved : FwPool → FwPool → ℕ → ℕ → Type 0
Moved p q k j =
    (s : ℕ) × (s < p.used)
    × (s ≢ k)
    × (get (some q) (pos j) ≡ get (some p) (pos s))
    × ((s ≡ j) ⊎ ((j ≡ k) × (s ≡ q.used)))

moved :
    (p q : FwPool) (k : ℕ)
    → suc q.used ≡ p.used
    → ((j : ℕ) → j < q.used → j ≢ k → get (some q) (pos j) ≡ get (some p) (pos j))
    → (k < q.used → get (some q) (pos k) ≡ get (some p) (pos q.used))
    → (j : ℕ) → j < q.used
    → Moved p q k j
unfolding Moved
moved p q k n others self j h = elim (ℕ_discrete j k) [
  | yes e ↦ (
    q.used,
    omega arith,
    omega arith,
    subst (λ m. get (some q) (pos m) ≡ get (some p) (pos q.used)) (sym e) (self (omega arith)),
    inr (e, refl),
  )
  | no ne ↦ (j, omega arith, ne, others j h ne, inl refl)
]

-- A pair is freed, or stands in the pool.
abbrev pub Accounted : Heap → FwPool → ℕ → Type 0
Accounted heap q b = (heap b ≡ none) ⊎ ((i : ℕ) × (i < q.used) × (get (some q) (pos i) ≡ some b))

accounted :
    (heap' : Heap) (p q : FwPool) (k a : ℕ)
    → suc q.used ≡ p.used
    → k < p.used
    → get (some p) (pos k) ≡ some a
    → heap' a ≡ none
    → ((j : ℕ) → j < q.used → j ≢ k → get (some q) (pos j) ≡ get (some p) (pos j))
    → (k < q.used → get (some q) (pos k) ≡ get (some p) (pos q.used))
    → (j b : ℕ) → get (some p) (pos j) ≡ some b
    → Accounted heap' q b
accounted heap' p q k a n h e freed others self j b eb = elim (ℕ_discrete j k) [
  | yes same ↦
      let both : some b ≡ some a = sym eb ∙ ap (λ m. get (some p) (pos m)) same ∙ e in
      let ba : b ≡ a = cc in inl (ap heap' ba ∙ freed)
  | no ne ↦ elim (dec_le (suc j) q.used) [
    | yes lt ↦ inr (j, lt, others j lt ne ∙ eb)
    | no ge ↦
        let inside = get_inside p j b eb in
        let last : q.used ≡ j = omega arith in
        inr (k, omega arith, self (omega arith) ∙ ap (λ m. get (some p) (pos m)) last ∙ eb)
  ]
]

-- Taking the pair at `k` out of the pool and freeing it leaves a pool that owns the others.
pub remove-Owned :
    (heap heap' : Heap) (next : ℕ) (p : FwPool) (k a : ℕ)
    → Owned heap next p
    → k < p.used
    → get (some p) (pos k) ≡ some a
    → heap' a ≡ none
    → ((b : ℕ) → b ≢ a → heap' b ≡ heap b)
    → (q : FwPool) × (remove (some p) (pos k) ≡ (true, some q))
      × (suc q.used ≡ p.used)
      × Owned heap' next q
      × ((j b : ℕ) → get (some p) (pos j) ≡ some b → Accounted heap' q b)
unfolding Moved
remove-Owned heap heap' next p k a o h e freed rest =
    let (q, r, w, n, others, self) = remove-get p k o.wf h in
    (
      q,
      r,
      n,
      record {
        wf = w;
        fresh = λ b hb. elim (ℕ_discrete b a) [
          | yes same ↦ subst (λ m. heap' m ≡ none) (sym same) freed
          | no ne ↦ rest b ne ∙ o.fresh b hb
        ];
        items = λ j hj.
            let (s, hs, ne, g, _) = moved p q k n others self j hj in
            let (b, eb, lt, pair, hb) = o.items s hs in
            (
              b,
              g ∙ eb,
              lt,
              pair,
              rest b (λ same. ne (o.distinct s k hs h (eb ∙ ap some same ∙ sym e))) ∙ hb,
            );
        distinct = λ i j hi hj same.
            let (s, hs, _, gs, cs) = moved p q k n others self i hi in
            let (t, ht, _, gt, ct) = moved p q k n others self j hj in
            let st = o.distinct s t hs ht (sym gs ∙ same ∙ gt) in omega arith;
      },
      accounted heap' p q k a n h e freed others self,
    )

old-ne-new :
    (heap : Heap) (next : ℕ) (item : Option ℕ) → Allocated heap next item → item ≢ some next
old-ne-new heap next item (a, e, lt, pair, h) same = ground arith

-- A new pair, allocated at `next`, goes into the pool.
pub add-Owned :
    (heap heap' : Heap) (next : ℕ) (p q : FwPool) (pair : FwPair)
    → Owned heap next p
    → IsPool q
    → q.used ≡ suc p.used
    → ((j : ℕ) → j < p.used → get (some q) (pos j) ≡ get (some p) (pos j))
    → get (some q) (pos p.used) ≡ some next
    → heap' next ≡ some pair
    → ((b : ℕ) → b ≢ next → heap' b ≡ heap b)
    → Owned heap' (suc next) q
add-Owned heap heap' next p q pair o w n kept new made rest = record {
  wf = w;
  fresh = λ b hb. rest b (omega arith) ∙ o.fresh b (omega arith);
  items = λ j hj. elim (ℕ_discrete j p.used) [
    | yes e ↦
        (next, subst (λ m. get (some q) (pos m) ≡ some next) (sym e) new, omega arith, pair, made)
    | no ne ↦
        let (a, ea, lt, pr, ha) = o.items j (omega arith) in
        (a, kept j (omega arith) ∙ ea, omega arith, pr, rest a (omega arith) ∙ ha)
  ];
  distinct = λ i j hi hj same. elim (ℕ_discrete i p.used) [
    | yes ei ↦ elim (ℕ_discrete j p.used) [
      | yes ej ↦ omega arith
      | no nj ↦ absurd (
          old-ne-new heap next _ (o.items j (omega arith)) (
            sym (kept j (omega arith))
            ∙ sym same
            ∙ subst (λ m. get (some q) (pos m) ≡ some next) (sym ei) new))
    ]
    | no ni ↦ elim (ℕ_discrete j p.used) [
      | yes ej ↦ absurd (
          old-ne-new heap next _ (o.items i (omega arith)) (
            sym (kept i (omega arith))
            ∙ same
            ∙ subst (λ m. get (some q) (pos m) ≡ some next) (sym ej) new))
      | no nj ↦
          o.distinct i j (omega arith) (omega arith)
            (sym (kept i (omega arith)) ∙ same ∙ kept j (omega arith))
    ]
  ];
}
