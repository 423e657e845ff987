-- ===== src/FwPool/Closed.antt =====
-- src/fw_pool.c, `FwPoolFindClosed`: the first closed pair of the pool.
use native.Mathlib.Decide.{dec_le}
use haa_s_libssh.Common.{
  ℕ, zero, suc, ◌+◌, ◌≤◌, ◌<◌, ◌≡◌, refl, ◌∙◌, ◌⊎◌, inl, inr, Bool, true, false, Option, none, some,
  List, arith, Bool-cases, if◌then◌else◌, subst,
}
use haa_s_libssh.Common.Int.{ℤ, pos, minus_one}
use haa_s_libssh.FwPool.{FwPool, Heap, slot, get, find_from, find_closed}
use haa_s_libssh.FwPool.Contents.{get_lem}

-- A pointer to a closed pair.
abbrev pub is_closed : Heap → Option ℕ → Bool
is_closed heap none = false
is_closed heap (some a) = elim (heap a) [ none ↦ false | some pair ↦ pair.closed ]

-- A pointer to memory that is not allocated.
abbrev pub is_dangling : Heap → Option ℕ → Bool
is_dangling heap none = false
is_dangling heap (some a) = elim (heap a) [ none ↦ true | some pair ↦ false ]

abbrev Found : Heap → List (Option ℕ) → ℕ → ℕ → Option ℤ → Type 0
Found heap items i n r =
    ((r ≡ some minus_one) × ((j : ℕ) → i ≤ j → j < i + n → is_closed heap (slot items j) ≡ false))
    ⊎ ((k : ℕ) × (r ≡ some (pos k))
        × (i ≤ k)
        × (k < i + n)
        × (is_closed heap (slot items k) ≡ true)
        × ((j : ℕ) → i ≤ j → j < k → is_closed heap (slot items j) ≡ false))

find_from_round :
    (heap : Heap) (items : List (Option ℕ)) (i n : ℕ)
    → is_dangling heap (slot items i) ≡ false
    → find_from heap items i (suc n)
      ≡ (if is_closed heap (slot items i) then some (pos i) else find_from heap items (suc i) n)
unfolding find_from
find_from_round heap items i n h = ground arith

-- A later index, unless it is the first one.
after_first : (P : ℕ → Type 0) (i j : ℕ) → P i → ((k : ℕ) → suc i ≤ k → k ≡ j → P k) → i ≤ j → P j
after_first P i j first later h = elim (dec_le (suc i) j) [
  | yes lt ↦ later j lt refl
  | no ge ↦ subst P (omega arith) first
]

find_from-Found :
    (heap : Heap) (items : List (Option ℕ)) (n i : ℕ)
    → ((j : ℕ) → i ≤ j → j < i + n → is_dangling heap (slot items j) ≡ false)
    → Found heap items i n (find_from heap items i n)
unfolding find_from
find_from-Found heap items zero i ok = inl (refl, λ j lo hi. absurd (omega arith))
find_from-Found heap items (suc n) i ok =
    let here = ok i (omega arith) (omega arith) in
    elim (Bool-cases (is_closed heap (slot items i))) [
      | inl hit ↦ inr (
        i,
        find_from_round heap items i n here ∙ rw hit refl,
        omega arith,
        omega arith,
        hit,
        λ j lo hi. absurd (omega arith),
      )
      | inr miss ↦
          elim (find_from-Found heap items n (suc i)
            (λ j lo hi. ok j (omega arith) (omega arith))) [
              | inl (e, rest) ↦ inl (
                find_from_round heap items i n here ∙ rw miss e,
                λ j lo hi.
                    after_first (λ k. is_closed heap (slot items k) ≡ false) i j miss
                      (λ k lt same. rest k lt (omega arith)) lo,
              )
              | inr (k, e, lo, hi, hit, rest) ↦ inr (
                k,
                find_from_round heap items i n here ∙ rw miss e,
                omega arith,
                omega arith,
                hit,
                λ j lo hi.
                    after_first (λ k. is_closed heap (slot items k) ≡ false) i j miss
                      (λ k lt same. rest k lt (omega arith)) lo,
              )
            ]
    ]

-- Where no pair of the pool was freed, `FwPoolFindClosed` reads no freed memory and returns the
-- index of the first closed pair, or -1 where no pair is closed.
pub find_closed-first :
    (heap : Heap) (p : FwPool)
    → ((j : ℕ) → j < p.used → is_dangling heap (get (some p) (pos j)) ≡ false)
    → ((find_closed heap (some p) ≡ some minus_one)
        × ((j : ℕ) → j < p.used → is_closed heap (get (some p) (pos j)) ≡ false))
      ⊎ ((k : ℕ) × (find_closed heap (some p) ≡ some (pos k))
          × (k < p.used)
          × (is_closed heap (get (some p) (pos k)) ≡ true)
          × ((j : ℕ) → j < k → is_closed heap (get (some p) (pos j)) ≡ false))
unfolding find_closed
find_closed-first heap p ok =
    elim (find_from-Found heap p.items p.used 0
      (λ j lo hi. rw (get_lem p j (omega arith)) at (ok j (omega arith)))) [
        | inl (e, none_closed) ↦
            inl (e, λ j h. rw (get_lem p j h) (none_closed j (omega arith) (omega arith)))
        | inr (k, e, lo, hi, hit, rest) ↦ inr (
          k,
          e,
          omega arith,
          rw (get_lem p k (omega arith)) hit,
          λ j h. rw (get_lem p j (omega arith)) (rest j (omega arith) h),
        )
      ]
