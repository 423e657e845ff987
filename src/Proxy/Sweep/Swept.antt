-- ===== src/Proxy/Sweep/Swept.antt =====
-- src/proxy.c, `HandleForwards`: the second loop takes the closed pairs out of the pool.
use native.Mathlib.Decide.{ℕ_discrete}
use haa_s_libssh.Common.{
  ℕ, zero, suc, ◌<◌, ◌≡◌, ◌≢◌, refl, ◌∙◌, ap, subst, sym, ◌⊎◌, inl, inr, Bool, true, false, Option,
  none, some, arith,
}
use haa_s_libssh.Common.Int.{ℤ, pos, minus_one, ltb_ℤ}
use haa_s_libssh.FwPair.{FwPair}
use haa_s_libssh.FwPair.Life.{fw_pair_release}
use haa_s_libssh.FwPair.Released.{fw_pair_release-frees}
use haa_s_libssh.FwPool.{FwPool, Heap, get, remove}
use haa_s_libssh.FwPool
use haa_s_libssh.FwPool.Contents.{get_inside}
use haa_s_libssh.FwPool.Closed.{is_closed, find_closed-first}
use haa_s_libssh.FwPool.Owned.{Owned, Accounted, not-dangling, remove-Owned}
use haa_s_libssh.World.{Env, Context, World}
use haa_s_libssh.World.Ends.{Ends, >>-Ends, >>=-Ends, if-Ends, Ends-mono}
use haa_s_libssh.Proxy.Sweep.{find_closed, drop_pair, sweep}

-- What the second loop does: the pairs that go are closed ones.
pub record Swept (w : World) (w' : World) (q : FwPool) : Type 0 where
  pub only_pool : w'.ctx ≡ record w.ctx { forward_pool = some q }
  pub owned : Owned w'.heap w'.next q
  pub none_closed : (j : ℕ) → j < q.used → is_closed w'.heap (get (some q) (pos j)) ≡ false
  pub only_closed :
      (b : ℕ) → (w'.heap b ≡ w.heap b) ⊎ ((is_closed w.heap (some b) ≡ true) × (w'.heap b ≡ none))
  pub all_there : (j b : ℕ) → get w.ctx.forward_pool (pos j) ≡ some b → Accounted w'.heap q b

abbrev Freed : World → ℕ → World → Type 0
Freed w a w' =
    (w'.ctx ≡ w.ctx)
    × (w'.next ≡ w.next)
    × (w'.heap a ≡ none)
    × ((b : ℕ) → b ≢ a → w'.heap b ≡ w.heap b)

release_lem :
    (env : Env) (item : Option ℕ) (a : ℕ) (pair : FwPair) (w : World)
    → item ≡ some a
    → w.heap a ≡ some pair
    → Ends (fw_pair_release env item w) (λ _ w'. Freed w a w')
release_lem env none a pair w e h = cc
release_lem env (some b) a pair w e h =
    subst (λ c. Ends (fw_pair_release env c w) (λ _ w'. Freed w a w')) (sym e)
      (Ends-mono (fw_pair_release env (some a) w) _ _ (fw_pair_release-frees env a pair w h)
        λ _ w' (c, n, f, r, _). (c, n, f, r))

-- One pair less, and that one closed.
abbrev Dropped : World → FwPool → World → Type 0
Dropped w p w' =
    (q : FwPool) × (w'.ctx ≡ record w.ctx { forward_pool = some q })
    × (suc q.used ≡ p.used)
    × Owned w'.heap w'.next q
    × ((b : ℕ) → (w'.heap b ≡ w.heap b) ⊎ ((is_closed w.heap (some b) ≡ true) × (w'.heap b ≡ none)))
    × ((j b : ℕ) → get w.ctx.forward_pool (pos j) ≡ some b → Accounted w'.heap q b)

drop_pair_lem :
    (env : Env) (p : FwPool) (k : ℕ) (w : World)
    → w.ctx.forward_pool ≡ some p
    → Owned w.heap w.next p
    → k < p.used
    → is_closed w.heap (get (some p) (pos k)) ≡ true
    → Ends (drop_pair env (pos k) w) (λ _ w'. Dropped w p w')
unfolding drop_pair
drop_pair_lem env p k w e o h hit =
    let (a, ea, lt, pair, ha) = o.items k h in
    let pool' = (remove w.ctx.forward_pool (pos k)).1 in
    let w1 = record w { ctx = record w.ctx { forward_pool = pool' } } in
    Ends-mono (fw_pair_release env (get w.ctx.forward_pool (pos k)) w1) _ _
      (release_lem env _ a pair w1 (ap (λ o. get o (pos k)) e ∙ ea) ha)
      λ _ w' (c, n, f, rest).
        let (q, r, less, own, there) = remove-Owned w.heap w'.heap w.next p k a o h ea f rest in
        (
          q,
          c
              ∙ ap (λ o. record w.ctx { forward_pool = o })
                  (ap (λ o. (remove o (pos k)).1) e ∙ ap (λ (r : Bool × Option FwPool). r.1) r),
          less,
          subst (λ m. Owned w'.heap m q) (sym n) own,
          λ b. elim (ℕ_discrete b a) [
            | yes same ↦
                inr (ap (is_closed w.heap) (ap some same ∙ sym ea) ∙ hit, ap w'.heap same ∙ f)
            | no ne ↦ inl (rest b ne)
          ],
          λ j b eb. there j b (ap (λ o. get o (pos j)) (sym e) ∙ eb),
        )

find_lem :
    (env : Env) (w : World) (index : ℤ)
    → FwPool.find_closed w.heap w.ctx.forward_pool ≡ some index
    → Ends (find_closed env w) (λ i w'. (i ≡ index) × (w' ≡ w))
unfolding find_closed
find_lem env w index h = rw (h, find_closed) (refl, refl)

-- The test of `is_closed` on what the heap holds.
abbrev closed_item : Option FwPair → Bool
closed_item none = false
closed_item (some pair) = pair.closed

-- One round and the rounds after it.
first_then :
    (x y z : Option FwPair)
    → (y ≡ x) ⊎ ((closed_item x ≡ true) × (y ≡ none))
    → (z ≡ y) ⊎ ((closed_item y ≡ true) × (z ≡ none))
    → (z ≡ x) ⊎ ((closed_item x ≡ true) × (z ≡ none))
first_then x y z p q = ground arith

still_none :
    (y z : Option FwPair) → (z ≡ y) ⊎ ((closed_item y ≡ true) × (z ≡ none)) → y ≡ none → z ≡ none
still_none y z h e = ground arith

Swept-step :
    (w w1 w2 : World) (p q : FwPool)
    → w1.ctx ≡ record w.ctx { forward_pool = some p }
    → ((b : ℕ) → (w1.heap b ≡ w.heap b) ⊎ ((is_closed w.heap (some b) ≡ true) × (w1.heap b ≡ none)))
    → ((j b : ℕ) → get w.ctx.forward_pool (pos j) ≡ some b → Accounted w1.heap p b)
    → Swept w1 w2 q
    → Swept w w2 q
Swept-step w w1 w2 p q c drops there s = record {
  only_pool = s.only_pool ∙ ap (λ (c : Context). record c { forward_pool = some q }) c;
  owned = s.owned;
  none_closed = s.none_closed;
  only_closed = λ b. first_then (w.heap b) (w1.heap b) (w2.heap b) (drops b) (s.only_closed b);
  all_there = λ j b eb. elim (there j b eb) [
    | inl gone ↦ inl (still_none (w1.heap b) (w2.heap b) (s.only_closed b) gone)
    | inr (i, hi, g) ↦ s.all_there i b (ap (λ (c : Context). get c.forward_pool (pos i)) c ∙ g)
  ];
}

pub sweep_lem :
    (env : Env) (fuel : ℕ) (p : FwPool) (w : World)
    → w.ctx.forward_pool ≡ some p
    → Owned w.heap w.next p
    → p.used < fuel
    → Ends (sweep env fuel w) (λ _ w'. (q : FwPool) × Swept w w' q)
unfolding sweep
sweep_lem env zero p w e o lt = absurd (omega arith)
sweep_lem env (suc fuel) p w e o lt =
    elim (find_closed-first w.heap p (λ j h. not-dangling w.heap w.next _ (o.items j h))) [
      | inl (found, open_) ↦
          >>=-Ends (find_closed env) _ w _ _
            (find_lem env w minus_one (ap (FwPool.find_closed w.heap) e ∙ found))
            λ i w' (ei, ew).
              rw (ei, ew)
                (
                  p,
                  record {
                    only_pool = ap (λ o. record w.ctx { forward_pool = o }) e;
                    owned = o;
                    none_closed = open_;
                    only_closed = λ b. inl refl;
                    all_there = λ j b eb.
                        let g : get (some p) (pos j) ≡ some b =
                          ap (λ o. get o (pos j)) (sym e) ∙ eb in
                        inr (j, get_inside p j b g, g);
                  },
                )
      | inr (k, found, lo, hit, _) ↦
          >>=-Ends (find_closed env) _ w _ _
            (find_lem env w (pos k) (ap (FwPool.find_closed w.heap) e ∙ found))
            λ i w' (ei, ew).
              rw (ei, ew)
                (if-Ends (ltb_ℤ (pos k) (pos 0)) _ _ w _ (λ t. absurd (ground arith))
                  λ _.
                    >>-Ends (drop_pair env (pos k)) (sweep env fuel) w (Dropped w p) _
                      (drop_pair_lem env p k w e o lo hit)
                      λ w1 (q, c, less, own, drops, there).
                        Ends-mono (sweep env fuel w1) _ _
                          (sweep_lem env fuel q w1 (ap (λ (c : Context). c.forward_pool) c) own
                            (omega arith))
                          λ _ w2 (r, s). (r, Swept-step w w1 w2 q r c drops there s))
    ]
