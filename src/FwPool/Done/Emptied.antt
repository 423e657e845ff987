-- ===== src/FwPool/Done/Emptied.antt =====
-- src/fw_pool.c, `FwPoolDone`: every pair is released, and each once.
use native.Mathlib.Decide.{ℕ_discrete}
use haa_s_libssh.Common.{
  ℕ, zero, suc, ◌+◌, ◌≤◌, ◌<◌, ◌≡◌, ◌≢◌, refl, ◌∙◌, ap, sym, subst, Option, none, some, List, arith,
}
use haa_s_libssh.Common.Int.{pos}
use haa_s_libssh.FwPair.{FwPair}
use haa_s_libssh.FwPair.Life.{fw_pair_release}
use haa_s_libssh.FwPair.Released.{fw_pair_release-frees}
use haa_s_libssh.FwPool.{FwPool, slot, get}
use haa_s_libssh.FwPool.Contents.{get_lem}
use haa_s_libssh.FwPool.Owned.{Owned}
use haa_s_libssh.FwPool.Done.{release_from, fw_pool_done}
use haa_s_libssh.World.{Env, World}
use haa_s_libssh.World.Ends.{Ends, >>-Ends, Ends-mono}

abbrev Freed : World → ℕ → World → Type 0
Freed w a w' = (w'.ctx ≡ w.ctx) × (w'.heap a ≡ none) × ((b : ℕ) → b ≢ a → w'.heap b ≡ w.heap b)

release_item :
    (env : Env) (item : Option ℕ) (a : ℕ) (pair : FwPair) (w : World)
    → item ≡ some a
    → w.heap a ≡ some pair
    → Ends (fw_pair_release env item w) (λ _ w'. Freed w a w')
release_item env item a pair w e h =
    subst (λ c. Ends (fw_pair_release env c w) (λ _ w'. Freed w a w')) (sym e)
      (Ends-mono (fw_pair_release env (some a) w) _ _ (fw_pair_release-frees env a pair w h)
        λ _ w' (c, n, f, r, _). (c, f, r))

-- The pairs of the slots from `i` on are gone and no others.
abbrev Emptied : List (Option ℕ) → ℕ → ℕ → World → World → Type 0
Emptied items i n w w' =
    (w'.ctx ≡ w.ctx)
    × ((j a : ℕ) → i ≤ j → j < i + n → slot items j ≡ some a → w'.heap a ≡ none)
    × ((b : ℕ) → ((j : ℕ) → i ≤ j → j < i + n → slot items j ≢ some b) → w'.heap b ≡ w.heap b)

module _ (env : Env) (items : List (Option ℕ)) (used : ℕ)
    (distinct : (j k : ℕ) → j < used → k < used → slot items j ≡ slot items k → j ≡ k) where
  later_differs :
      (i j a b : ℕ) → i < j → j < used → slot items i ≡ some a → slot items j ≡ some b → b ≢ a
  later_differs i j a b lt h ei ej same =
      let k : i ≡ j = distinct i j (omega arith) h (ei ∙ ap some (sym same) ∙ sym ej) in omega arith

  release_from-Emptied :
      (n i : ℕ) (w : World)
      → i + n ≤ used
      → ((j : ℕ)
          → i ≤ j
          → j < i + n
          → (a : ℕ) × (slot items j ≡ some a) × (pair : FwPair) × (w.heap a ≡ some pair))
      → Ends (release_from env items i n w) (λ _ w'. Emptied items i n w w')
  unfolding release_from
  release_from-Emptied zero i w le live = (refl, λ j a lo hi e. absurd (omega arith), λ b h. refl)
  release_from-Emptied (suc n) i w le live =
      let (a, ea, pair, ha) = live i (omega arith) (omega arith) in
      >>-Ends (fw_pair_release env (slot items i)) (release_from env items (suc i) n) w _ _
        (release_item env (slot items i) a pair w ea ha)
        λ w1 (c1, f1, r1).
          Ends-mono (release_from env items (suc i) n w1) _ _
            (release_from-Emptied n (suc i) w1 (omega arith) λ j lo hi.
              let (b, eb, p, hb) = live j (omega arith) (omega arith) in
              (b, eb, p, r1 b (later_differs i j a b (omega arith) (omega arith) ea eb) ∙ hb))
            λ _ w2 (c2, f2, r2). (
              c2 ∙ c1,
              λ j b lo hi e. elim (ℕ_discrete j i) [
                | yes first ↦
                    let same : some b ≡ some a = sym e ∙ ap (slot items) first ∙ ea in
                    let eq : b ≡ a = cc in
                    ap w2.heap eq
                    ∙ r2 a (λ k lo' hi' ek.
                      later_differs i k a a (omega arith) (omega arith) ea ek refl)
                    ∙ f1
                | no ne ↦ f2 j b (omega arith) (omega arith) e
              ],
              λ b other.
                  r2 b (λ k lo' hi' ek. other k (omega arith) (omega arith) ek)
                  ∙ r1 b (λ same. other i (omega arith) (omega arith) (ea ∙ ap some (sym same))),
            )

-- Where the pool owns its pairs, `FwPoolDone` ends with no fault, so it frees no pair twice. No pair
-- of the pool is left on the heap, all others are as before, and so is the context.
pub fw_pool_done-Owned :
    (env : Env) (p : FwPool) (w : World)
    → Owned w.heap w.next p
    → Ends (fw_pool_done env (some p) w) (λ _ w'.
      (w'.ctx ≡ w.ctx)
      × ((j a : ℕ) → j < p.used → get (some p) (pos j) ≡ some a → w'.heap a ≡ none)
      × ((b : ℕ) → ((j : ℕ) → j < p.used → get (some p) (pos j) ≢ some b) → w'.heap b ≡ w.heap b))
unfolding fw_pool_done
fw_pool_done-Owned env p w o =
    Ends-mono (release_from env p.items 0 p.used w) _ _
      (release_from-Emptied env p.items p.used
        (λ j k hj hk e. o.distinct j k hj hk (get_lem p j hj ∙ e ∙ sym (get_lem p k hk))) p.used 0 w
        (omega arith)
        λ j lo hi.
          let (a, ea, lt, pair, h) = o.items j (omega arith) in
          (a, sym (get_lem p j (omega arith)) ∙ ea, pair, h))
      λ _ w' (c, gone, rest). (
        c,
        λ j a h e. gone j a (omega arith) (omega arith) (sym (get_lem p j h) ∙ e),
        λ b other. rest b (λ j lo hi e. other j (omega arith) (get_lem p j (omega arith) ∙ e)),
      )
