-- ===== src/Proxy/Sweep/Safe.antt =====
-- src/proxy.c, `HandleForwards`: the loops end, release the closed pairs and no others, and use no
-- freed memory.
use haa_s_libssh.Common.{
  ℕ, suc, ◌<◌, ◌≡◌, refl, ◌∙◌, ap, subst, sym, ◌⊎◌, inl, true, false, none, some, arith,
}
use haa_s_libssh.Common.Int.{ℤ, pos, pos_part, ltb_ℤ}
use haa_s_libssh.FwPair.{FwPair}
use haa_s_libssh.FwPool.{FwPool, Heap, get, remove}
use haa_s_libssh.FwPool
use haa_s_libssh.FwPool.Contents.{get_inside}
use haa_s_libssh.FwPool.Closed.{is_closed}
use haa_s_libssh.FwPool.Owned.{Owned, Accounted, Allocated}
use haa_s_libssh.World.{Env, Context, World}
use haa_s_libssh.World.Ends.{Ends, >>-Ends, when-Ends, Ends-mono}
use haa_s_libssh.Proxy.Sweep.{set_closed, poll_from, sweep, sweep_all, handle_forwards}
use haa_s_libssh.Proxy.Sweep.Polled.{Polled, PolledWorld, Polled-live, poll_from_lem}
use haa_s_libssh.Proxy.Sweep.Swept.{sweep_lem}

-- After `HandleForwards`: `mid` is the heap between the two loops.
abbrev pub Handled : World → World → Type 0
Handled w w' =
    (q : FwPool) × (mid : Heap) × (w'.ctx ≡ record w.ctx { forward_pool = some q })
    × Owned w'.heap w'.next q
    × ((j : ℕ) → j < q.used → is_closed w'.heap (get (some q) (pos j)) ≡ false)
    × Polled w.heap mid
    × ((b : ℕ) → (w'.heap b ≡ mid b) ⊎ ((is_closed mid (some b) ≡ true) × (w'.heap b ≡ none)))
    × ((j b : ℕ) → get w.ctx.forward_pool (pos j) ≡ some b → Accounted w'.heap q b)

still_free :
    (heap heap' : Heap) (b : ℕ)
    → (heap' b ≡ heap b)
      ⊎ ((pair : FwPair) × (heap b ≡ some pair) × (heap' b ≡ some (set_closed pair)))
    → heap b ≡ none
    → heap' b ≡ none
still_free heap heap' b p h = ground arith

pub Owned-polled :
    (w w1 : World) (p : FwPool) → PolledWorld w w1 → Owned w.heap w.next p → Owned w1.heap w1.next p
Owned-polled w w1 p (c, n, polled) o = record {
  wf = o.wf;
  fresh = λ b hb. still_free w.heap w1.heap b (polled b) (o.fresh b (omega (arith, n)));
  items = λ j hj.
      let (a, ea, lt, pair, h) = o.items j hj in
      let (pair', h') = Polled-live w.heap w1.heap a pair polled h in
      (a, ea, omega (arith, n), pair', h');
  distinct = o.distinct;
}

count_lem : (p : FwPool) → FwPool.count (some p) ≡ pos p.used
unfolding FwPool.count
count_lem p = refl

no_pairs : (n : ℤ) (used j : ℕ) → n ≡ pos used → ltb_ℤ (pos 0) n ≡ false → j < used → ⊥
no_pairs n used j e empty h = ground arith

sweep_all_lem :
    (env : Env) (p : FwPool) (w : World)
    → w.ctx.forward_pool ≡ some p
    → Owned w.heap w.next p
    → Ends (sweep_all env p.used w) (λ _ w'. Handled w w')
unfolding sweep_all
sweep_all_lem env p w e o =
    >>-Ends (poll_from env 0 p.used) (sweep env (suc p.used)) w (PolledWorld w) _
      (poll_from_lem env p.used 0 w λ j lo hi.
        subst (λ f. Allocated w.heap w.next (get f (pos j))) (sym e) (o.items j (omega arith)))
      λ w1 (c, n, polled).
        Ends-mono (sweep env (suc p.used) w1) _ _
          (sweep_lem env (suc p.used) p w1 (ap (λ (c : Context). c.forward_pool) c ∙ e)
            (Owned-polled w w1 p (c, n, polled) o) (omega arith))
          λ _ w2 (q, s). (
            q,
            w1.heap,
            s.only_pool ∙ ap (λ (c : Context). record c { forward_pool = some q }) c,
            s.owned,
            s.none_closed,
            polled,
            s.only_closed,
            λ j b eb. s.all_there j b (ap (λ (c : Context). get c.forward_pool (pos j)) c ∙ eb),
          )

-- Where the pool owns its pairs, `HandleForwards` ends with no fault, so its second loop does too
-- and no freed pair is read. It closes some pairs and then releases closed ones only: no closed
-- pair is left in the pool, which owns its pairs as before, and each pair that was in the pool is
-- in it still or was released. The rest of the context is kept.
pub handle_forwards-Handled :
    (env : Env) (p : FwPool) (w : World)
    → w.ctx.forward_pool ≡ some p
    → Owned w.heap w.next p
    → Ends (handle_forwards env w) (λ _ w'. Handled w w')
unfolding handle_forwards
handle_forwards-Handled env p w e o =
    let n = FwPool.count w.ctx.forward_pool in
    let en : n ≡ pos p.used = ap FwPool.count e ∙ count_lem p in
    when-Ends (ltb_ℤ (pos 0) n) (sweep_all env (pos_part n)) w (Handled w)
      (λ _.
        subst (λ m. Ends (sweep_all env (pos_part m) w) (λ _ w'. Handled w w')) (sym en)
          (sweep_all_lem env p w e o))
      λ empty. (
        p,
        w.heap,
        ap (λ o. record w.ctx { forward_pool = o }) e,
        o,
        λ j h. absurd (no_pairs n p.used j en empty h),
        λ b. inl refl,
        λ b. inl refl,
        λ j b eb.
            let g : get (some p) (pos j) ≡ some b = ap (λ o. get o (pos j)) (sym e) ∙ eb in
            absurd (no_pairs n p.used j en empty (get_inside p j b g)),
      )
