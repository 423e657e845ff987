-- ===== src/Proxy/Forward/Register.antt =====
-- src/proxy.c, `TrapMessageCallback`: the pool goes on owning its pairs.
pub mod Accepted
use haa_s_libssh.Common.{
  ℕ, zero, suc, ◌+◌, ◌≤◌, ◌<◌, ◌≡◌, ◌≢◌, refl, ◌∙◌, ap, subst, sym, ◌⊎◌, inl, inr, Bool, true,
  false, not, ◌&&◌, Option, none, some, arith, if◌then◌else◌, Bool-cases, ◌==◌, leb,
}
use haa_s_libssh.Common.Int.{ℤ, pos, minus_one, nonzero, eqb_ℤ}
use haa_s_libssh.FwPair.{FwPair}
use haa_s_libssh.FwPair.Life.{fw_pair_alloc, fw_pair_release, fresh_pair}
use haa_s_libssh.FwPool.{FwPool, Heap, get, add}
use haa_s_libssh.FwPool.Contents.{IsPool}
use haa_s_libssh.FwPool.Places.{add-get}
use haa_s_libssh.FwPool.Owned.{Owned, add-Owned}
use haa_s_libssh.World.{Call, CallbackSet, Env, Context, World, M, called, store, ◌>>=◌, ◌>>◌, pure}
use haa_s_libssh.World.Ends.{Ends, >>-Ends, >>=-Ends, if-Ends, when-Ends, Ends-mono}
use haa_s_libssh.Proxy.Timers.{idle_timer_reset}
use haa_s_libssh.Proxy.Forward.{
  Message, Request, filled, connect_dst, accept_src, fake_refusal, realloc_call, pool_add,
  fill_pair, keep_pair, register, close_request, forward_request, handle_message, trap_message,
}

-- Nothing that the pool depends on changes.
abbrev Kept : World → World → Type 0
Kept w w' = (w'.ctx.forward_pool ≡ w.ctx.forward_pool) × (w'.heap ≡ w.heap) × (w'.next ≡ w.next)

-- The context has a pool that owns its pairs, at least `n` of them.
abbrev pub HasPool : ℕ → World → Type 0
HasPool n w = (p : FwPool) × (w.ctx.forward_pool ≡ some p) × Owned w.heap w.next p × (n ≤ p.used)

Kept-HasPool : (n : ℕ) (w w' : World) → Kept w w' → HasPool n w → HasPool n w'
Kept-HasPool n w w' (f, h, m) (p, e, o, le) =
    (p, f ∙ e, subst (λ g. Owned g w'.next p) (sym h) (subst (λ k. Owned w.heap k p) (sym m) o), le)

connect_dst_lem :
    (env : Env) (m : Message) (mode : ℤ) (w : World)
    → Ends (connect_dst env m mode w) (λ _ w'. Kept w w')
unfolding connect_dst
connect_dst_lem env m mode w = ground arith

accept_src_lem :
    (env : Env) (dst : Option ℕ) (accept : Bool) (w : World)
    → Ends (accept_src env dst accept w) (λ _ w'. Kept w w')
unfolding accept_src
accept_src_lem env dst true w = (refl, refl, refl)
accept_src_lem env dst false w = (refl, refl, refl)

fake_refusal_lem :
    (env : Env) (mode : ℤ) (r : Request) (w : World)
    → Ends (fake_refusal env mode r w) (λ _ w'. Kept w w')
unfolding fake_refusal
fake_refusal_lem env mode r w = ground arith

close_request_lem :
    (env : Env) (r : Request) (w : World) → Ends (close_request env r w) (λ _ w'. Kept w w')
unfolding close_request
close_request_lem env r w = ground arith

abbrev Filled : Message → Request → ℕ → FwPair → World → World → Type 0
Filled m r a pair w w' =
    (w'.ctx ≡ w.ctx)
    × (w'.next ≡ w.next)
    × (w'.heap a ≡ some (filled m r pair))
    × ((b : ℕ) → b ≢ a → w'.heap b ≡ w.heap b)

fill_pair_lem :
    (env : Env) (m : Message) (r : Request) (a : ℕ) (pair : FwPair) (w : World)
    → w.heap a ≡ some pair
    → Ends (fill_pair env m r (some a) w) (λ _ w'. Filled m r a pair w w')
unfolding fill_pair
fill_pair_lem env m r a pair w h = ground arith

-- The answers of the allocator are blocks, for the pair and for the pool.
pub record HasMemory (env : Env) : Type 0 where
  pub malloc_ok : (n : ℕ) → nonzero (env.int n Call.malloc) ≡ true
  pub realloc_ok : (n : ℕ) → env.realloc n ≢ none

alloc_lem :
    (env : Env) (w : World)
    → HasMemory env
    → Ends (fw_pair_alloc env w) (λ a w'.
      (a ≡ some w.next)
      × (w'.ctx ≡ w.ctx)
      × (w'.next ≡ suc w.next)
      × (w'.heap w.next ≡ some (fresh_pair w.next))
      × ((b : ℕ) → b ≢ w.next → w'.heap b ≡ w.heap b))
unfolding fw_pair_alloc
alloc_lem env w mem = ground (arith, mem.malloc_ok w.tick)

called_or_not :
    (env : Env) (o : Option FwPool) (w : World) (i : ℤ)
    → (i ≡ i)
      × ((realloc_call env o w).ctx.forward_pool ≡ w.ctx.forward_pool)
      × ((realloc_call env o w).heap ≡ w.heap)
      × ((realloc_call env o w).next ≡ w.next)
called_or_not env none w i = (refl, refl, refl, refl)
called_or_not env (some p) w i = elim (Bool-cases (leb p.alloc p.used)) [
  | inl full ↦ rw full (refl, refl, refl, refl)
  | inr room ↦ rw room (refl, refl, refl, refl)
]

pool_add_lem :
    (env : Env) (item : Option ℕ) (w : World) (index : ℤ) (q : Option FwPool)
    → add (env.realloc w.tick) w.ctx.forward_pool item ≡ some (index, q)
    → Ends
        (pool_add env item w)
        (λ i w'. (i ≡ index) × (w'.ctx.forward_pool ≡ q) × (w'.heap ≡ w.heap) × (w'.next ≡ w.next))
unfolding pool_add
pool_add_lem env item w index q h =
    rw (h, pool_add)
      (called_or_not env w.ctx.forward_pool (record w { ctx = record w.ctx { forward_pool = q } })
        index)

-- The pair that a request asks for, at an address.
abbrev pub asked_for : Message → Request → ℕ → FwPair
asked_for m r a = record {
  context = true;
  closed = false;
  source = record { addr = some m.originator; port = m.originator_port; channel = r.src };
  destiny = record { addr = some m.destination; port = m.destination_port; channel = r.dst };
  userdata = a;
}

-- The pair of the request is the newest in the pool.
abbrev pub Registered : Message → Request → World → World → Type 0
Registered m r w w' =
    (p : FwPool) × (q : FwPool) × (w.ctx.forward_pool ≡ some p)
    × (w'.ctx.forward_pool ≡ some q)
    × Owned w'.heap w'.next q
    × (q.used ≡ suc p.used)
    × (get (some q) (pos p.used) ≡ some w.next)
    × (w'.heap w.next ≡ some (asked_for m r w.next))

keep_pair_lem :
    (env : Env) (m : Message) (r : Request) (item : Option ℕ) (a : ℕ) (index : ℤ) (n : ℕ)
    (pair : FwPair) (w : World)
    → item ≡ some a
    → index ≡ pos n
    → w.heap a ≡ some pair
    → Ends (keep_pair env m r item index w) (λ r' w'. (r' ≡ r) × Filled m r a pair w w')
unfolding keep_pair
keep_pair_lem env m r none a index n pair w e i h = cc
keep_pair_lem env m r (some b) a index n pair w e i h =
    if-Ends (eqb_ℤ index minus_one) _ _ w _ (λ t. absurd (ground arith))
      λ _.
        >>-Ends (fill_pair env m r (some b)) (pure r) w (Filled m r a pair w) _
          (subst (λ o. Ends (fill_pair env m r o w) (λ _ w'. Filled m r a pair w w')) (sym e)
            (fill_pair_lem env m r a pair w h))
          (λ w' f. (refl, f))

Registered-lem :
    (m : Message) (r : Request) (p q : FwPool) (w w1 w2 w3 : World)
    → w.ctx.forward_pool ≡ some p
    → Owned w.heap w.next p
    → IsPool q
    → q.used ≡ suc p.used
    → ((j : ℕ) → j < p.used → get (some q) (pos j) ≡ get (some p) (pos j))
    → get (some q) (pos p.used) ≡ some w.next
    → w1.next ≡ suc w.next
    → ((b : ℕ) → b ≢ w.next → w1.heap b ≡ w.heap b)
    → w2.ctx.forward_pool ≡ some q
    → w2.heap ≡ w1.heap
    → w2.next ≡ w1.next
    → Filled m r w.next (fresh_pair w.next) w2 w3
    → Registered m r w w3
Registered-lem m r p q w w1 w2 w3 e o wf n kept new n1 h1 e2 h2 n2 (c3, n3, f3, r3) = (
  p,
  q,
  e,
  ap (λ (c : Context). c.forward_pool) c3 ∙ e2,
  subst (λ k. Owned w3.heap k q) (sym (n3 ∙ n2 ∙ n1))
      (add-Owned w.heap w3.heap w.next p q (filled m r (fresh_pair w.next)) o wf n kept new f3
        λ b ne. r3 b ne ∙ ap (λ (g : Heap). g b) h2 ∙ h1 b ne),
  n,
  new,
  f3,
)

register_lem :
    (env : Env) (m : Message) (r : Request) (p : FwPool) (w : World)
    → HasMemory env
    → w.ctx.forward_pool ≡ some p
    → Owned w.heap w.next p
    → r.closing ≡ false
    → Ends (register env m r w) (λ r' w'. (r' ≡ r) × Registered m r w w')
unfolding register
register_lem env m r p w mem e o open_ =
    if-Ends r.closing _ _ w _ (λ t. absurd (ground arith))
      λ _. >>=-Ends (fw_pair_alloc env) _ w _ _ (alloc_lem env w mem) λ a w1 (ea, c1, n1, f1, h1).
        let (q, eq, wf, n, kept, new) =
          add-get (env.realloc w1.tick) p a o.wf (inr (mem.realloc_ok w1.tick)) in
        let pool1 = ap (λ (c : Context). c.forward_pool) c1 ∙ e in
        >>=-Ends (pool_add env a) _ w1 _ _
          (pool_add_lem env a w1 (pos p.used) (some q)
            (ap (λ o. add (env.realloc w1.tick) o a) pool1 ∙ eq))
          λ i w2 (ei, e2, h2, n2).
            Ends-mono (keep_pair env m r a i w2) _ _
              (keep_pair_lem env m r a w.next i p.used (fresh_pair w.next) w2 ea ei
                (ap (λ (g : Heap). g w.next) h2 ∙ f1))
              λ r' w3 (same, f).
                (same, Registered-lem m r p q w w1 w2 w3 e o wf n kept (new ∙ ea) n1 h1 e2 h2 n2 f)
