-- ===== src/Proxy/Sweep/Polled.antt =====
-- src/proxy.c, `HandleForwards`: the first loop closes pairs and changes nothing else of them.
use native.Mathlib.Decide.{ℕ_discrete}
use haa_s_libssh.Common.{
  if◌then◌else◌, ◌==◌, ℕ, zero, suc, ◌+◌, ◌≤◌, ◌<◌, ◌≡◌, refl, ◌∙◌, ap, sym, ◌⊎◌, inl, inr, ◌&&◌,
  Option, none, some, arith,
}
use haa_s_libssh.Common.Int.{pos, ltb_ℤ, eqb_ℤ}
use haa_s_libssh.FwPair.{FwPair}
use haa_s_libssh.FwPool.{Heap, get}
use haa_s_libssh.FwPool.Owned.{Allocated}
use haa_s_libssh.World.{Call, Env, Context, World, called, update_pair}
use haa_s_libssh.World.Ends.{Ends, >>-Ends, when-Ends, load-Ends, update_pair-Ends, Ends-mono}
use haa_s_libssh.Proxy.Sweep.{set_closed, poll_end, poll_pair, poll_item, poll_from}

-- The heap after closing some of its pairs.
abbrev pub Polled : Heap → Heap → Type 0
Polled heap heap' =
    (b : ℕ)
    → (heap' b ≡ heap b)
      ⊎ ((pair : FwPair) × (heap b ≡ some pair) × (heap' b ≡ some (set_closed pair)))

Polled-trans : (f g h : Heap) → Polled f g → Polled g h → Polled f h
Polled-trans f g h p q b = step (f b) (g b) (h b) (p b) (q b)
  where
    step :
        (x y z : Option FwPair)
        → (y ≡ x) ⊎ ((pair : FwPair) × (x ≡ some pair) × (y ≡ some (set_closed pair)))
        → (z ≡ y) ⊎ ((pair : FwPair) × (y ≡ some pair) × (z ≡ some (set_closed pair)))
        → (z ≡ x) ⊎ ((pair : FwPair) × (x ≡ some pair) × (z ≡ some (set_closed pair)))
    step x y z (inl e) (inl d) = inl (d ∙ e)
    step x y z (inl e) (inr (pair, d, c)) = inr (pair, sym e ∙ d, c)
    step x y z (inr (pair, e, d)) (inl c) = inr (pair, e, c ∙ d)
    step x y z (inr (pair, e, d)) (inr (other, c, b)) = inr (pair, e, ground arith)

-- A pair that is allocated stays so.
pub Polled-live :
    (heap heap' : Heap) (b : ℕ) (pair : FwPair)
    → Polled heap heap'
    → heap b ≡ some pair
    → (pair' : FwPair) × (heap' b ≡ some pair')
Polled-live heap heap' b pair p h = elim (p b) [
  | inl e ↦ (pair, e ∙ h)
  | inr (old, _, e) ↦ (set_closed old, e)
]

abbrev pub PolledWorld : World → World → Type 0
PolledWorld w w' = (w'.ctx ≡ w.ctx) × (w'.next ≡ w.next) × Polled w.heap w'.heap

stored :
    (heap : Heap) (a b : ℕ) (pair : FwPair)
    → heap a ≡ some pair
    → ((if b == a then some (set_closed pair) else heap b) ≡ heap b)
      ⊎ ((p : FwPair) × (heap b ≡ some p)
          × ((if b == a then some (set_closed pair) else heap b) ≡ some (set_closed p)))
stored heap a b pair h = elim (ℕ_discrete b a) [
  | yes e ↦ inr (pair, ground arith, ground arith)
  | no ne ↦ inl (ground arith)
]

pub set_closed_lem :
    (a : ℕ) (pair : FwPair) (w : World)
    → w.heap a ≡ some pair
    → Ends (update_pair a set_closed w) (λ _ w'. PolledWorld w w')
set_closed_lem a pair w h =
    update_pair-Ends a pair set_closed w (PolledWorld w) h
      (refl, refl, λ b. stored w.heap a b pair h)

poll_end_lem :
    (env : Env) (a : ℕ) (channel : Option ℕ) (pair : FwPair) (w : World)
    → w.heap a ≡ some pair
    → Ends (poll_end env a channel w) (λ _ w'. PolledWorld w w')
unfolding poll_end
poll_end_lem env a none pair w h = (refl, refl, λ b. inl refl)
poll_end_lem env a (some c) pair w h =
    let len = env.int w.tick (Call.ssh_channel_poll (some c)) in
    let w1 = called (Call.ssh_channel_poll (some c)) w in
    when-Ends (ltb_ℤ len (pos 0) && eqb_ℤ len env.ssh_eof) (update_pair a set_closed) w1
      (PolledWorld w) (λ _. set_closed_lem a pair w1 h) (λ _. (refl, refl, λ b. inl refl))

PolledWorld-trans : (w w1 w2 : World) → PolledWorld w w1 → PolledWorld w1 w2 → PolledWorld w w2
PolledWorld-trans w w1 w2 (c, n, p) (d, m, q) =
    (d ∙ c, m ∙ n, Polled-trans w.heap w1.heap w2.heap p q)

poll_pair_lem :
    (env : Env) (a : ℕ) (pair : FwPair) (w : World)
    → w.heap a ≡ some pair
    → Ends (poll_pair env a w) (λ _ w'. PolledWorld w w')
unfolding poll_pair
poll_pair_lem env a pair w h = load-Ends a pair _ w _ h (
    >>-Ends (poll_end env a pair.source.channel) _ w (PolledWorld w) _
      (poll_end_lem env a pair.source.channel pair w h)
      λ w1 r.
        let (again, h1) = Polled-live w.heap w1.heap a pair r.2 h in
        load-Ends a again _ w1 _ h1 (
          Ends-mono (poll_end env a again.destiny.channel w1) _ _
            (poll_end_lem env a again.destiny.channel again w1 h1)
            λ _ w2 s. PolledWorld-trans w w1 w2 r s))

poll_item_lem :
    (env : Env) (item : Option ℕ) (w : World)
    → Allocated w.heap w.next item
    → Ends (poll_item env item w) (λ _ w'. PolledWorld w w')
unfolding poll_item
poll_item_lem env none w (a, e, lt, pair, h) = cc
poll_item_lem env (some b) w (a, e, lt, pair, h) = poll_pair_lem env b pair w (ground arith)

-- The first loop reads no freed memory, and only closes pairs.
pub poll_from_lem :
    (env : Env) (n i : ℕ) (w : World)
    → ((j : ℕ) → i ≤ j → j < i + n → Allocated w.heap w.next (get w.ctx.forward_pool (pos j)))
    → Ends (poll_from env i n w) (λ _ w'. PolledWorld w w')
unfolding poll_from
poll_from_lem env zero i w live = (refl, refl, λ b. inl refl)
poll_from_lem env (suc n) i w live =
    let item = get w.ctx.forward_pool (pos i) in
    >>-Ends (poll_item env item) (poll_from env (suc i) n) w (PolledWorld w) _
      (poll_item_lem env item w (live i (omega arith) (omega arith)))
      λ w1 r.
        Ends-mono (poll_from env (suc i) n w1) _ _
          (poll_from_lem env n (suc i) w1 λ j lo hi.
            let (b, eb, lb, pb, hb) = live j (omega arith) (omega arith) in
            let (pb', hb') = Polled-live w.heap w1.heap b pb r.2 hb in
            (
              b,
              ap (λ (c : Context). get c.forward_pool (pos j)) r.0 ∙ eb,
              omega (arith, r.1),
              pb',
              hb',
            ))
          λ _ w2 s. PolledWorld-trans w w1 w2 r s
