-- ===== src/Proxy/Sweep/Timed.antt =====
-- src/proxy.c, `HandleForwards`: it leaves the timer of the session alone.
use haa_s_libssh.Common.{ℕ, zero, suc, Bool, true, false, Option, none, some, arith}
use haa_s_libssh.Common.Int.{ℤ, pos, pos_part, ltb_ℤ}
use haa_s_libssh.Config.{Config}
use haa_s_libssh.FwPair.Life.{fw_pair_release}
use haa_s_libssh.FwPool
use haa_s_libssh.World.{Timeval, Env, World, skip, ◌>>◌, when}
use haa_s_libssh.World.Leaves.{Leaves, >>=-Leaves, >>-Leaves, if-Leaves}
use haa_s_libssh.Proxy.Timers.Timed.{Timed}
use haa_s_libssh.Proxy.Sweep.{
  poll_end, poll_item, poll_from, find_closed, drop_pair, sweep, sweep_all, handle_forwards,
}

module _ (env : Env) (timer : Timeval) (config : Config) (lo : ℕ) where
  poll_end-Timed :
      (a : ℕ) (channel : Option ℕ) (w : World)
      → Timed timer config lo w
      → Leaves (poll_end env a channel w) (Timed timer config lo)
  unfolding poll_end
  poll_end-Timed a channel w v = ground arith

  poll_item-Timed :
      (item : Option ℕ) (w : World)
      → Timed timer config lo w
      → Leaves (poll_item env item w) (Timed timer config lo)
  unfolding poll_item
  poll_item-Timed none w v = v
  poll_item-Timed (some a) w v = ground arith

  poll_from-Timed :
      (i n : ℕ) (w : World)
      → Timed timer config lo w
      → Leaves (poll_from env i n w) (Timed timer config lo)
  unfolding poll_from
  poll_from-Timed i zero w v = v
  poll_from-Timed i (suc n) w v =
      >>-Leaves (poll_item env (FwPool.get w.ctx.forward_pool (pos i))) (poll_from env (suc i) n) w
        (Timed timer config lo) (Timed timer config lo)
        (poll_item-Timed (FwPool.get w.ctx.forward_pool (pos i)) w v)
        (λ w1 v1. poll_from-Timed (suc i) n w1 v1)

  fw_pair_release-Timed :
      (item : Option ℕ) (w : World)
      → Timed timer config lo w
      → Leaves (fw_pair_release env item w) (Timed timer config lo)
  unfolding fw_pair_release
  fw_pair_release-Timed none w v = v
  fw_pair_release-Timed (some a) w v = ground arith

  drop_pair-Timed :
      (index : ℤ) (w : World)
      → Timed timer config lo w
      → Leaves (drop_pair env index w) (Timed timer config lo)
  unfolding drop_pair
  drop_pair-Timed index w v =
      fw_pair_release-Timed (FwPool.get w.ctx.forward_pool index)
        (record w {
          ctx = record w.ctx { forward_pool = (FwPool.remove w.ctx.forward_pool index).1 };
        })
        v

  find_closed-Timed :
      (w : World) → Timed timer config lo w → Leaves (find_closed env w) (Timed timer config lo)
  unfolding find_closed
  find_closed-Timed w v = ground arith

  sweep-Timed :
      (n : ℕ) (w : World) → Timed timer config lo w → Leaves (sweep env n w) (Timed timer config lo)
  unfolding sweep
  sweep-Timed zero w v = tt
  sweep-Timed (suc n) w v =
      >>=-Leaves (find_closed env) _ w (Timed timer config lo) (Timed timer config lo)
        (find_closed-Timed w v)
        (λ index w1 v1.
          if-Leaves (ltb_ℤ index (pos 0)) skip (drop_pair env index >> sweep env n) w1
            (Timed timer config lo) v1
            (>>-Leaves (drop_pair env index) (sweep env n) w1 (Timed timer config lo)
              (Timed timer config lo) (drop_pair-Timed index w1 v1) (λ w2 v2. sweep-Timed n w2 v2)))

  sweep_all-Timed :
      (n : ℕ) (w : World)
      → Timed timer config lo w
      → Leaves (sweep_all env n w) (Timed timer config lo)
  unfolding sweep_all
  sweep_all-Timed n w v =
      >>-Leaves (poll_from env 0 n) (sweep env (suc n)) w (Timed timer config lo)
        (Timed timer config lo) (poll_from-Timed 0 n w v) (λ w1 v1. sweep-Timed (suc n) w1 v1)

  pub handle_forwards-Timed :
      (w : World) → Timed timer config lo w → Leaves (handle_forwards env w) (Timed timer config lo)
  unfolding handle_forwards
  handle_forwards-Timed w v =
      let n = FwPool.count w.ctx.forward_pool in swept (ltb_ℤ (pos 0) n) (pos_part n)
    where
      swept : (b : Bool) (n : ℕ) → Leaves (when b (sweep_all env n) w) (Timed timer config lo)
      swept true n = sweep_all-Timed n w v
      swept false n = v
