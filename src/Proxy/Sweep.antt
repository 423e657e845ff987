-- ===== src/Proxy/Sweep.antt =====
-- src/proxy.c, `HandleForwards`: polling the forwarded channels and releasing the closed pairs.
pub mod Polled
pub mod Swept
pub mod Safe
pub mod Timed
use haa_s_libssh.Common.{
  ℕ, zero, suc, ◌+◌, Bool, true, false, ◌&&◌, Option, none, some, if◌then◌else◌, ◌==◌,
}
use haa_s_libssh.Common.Int.{ℤ, pos, pos_part, nonzero, eqb_ℤ, ltb_ℤ}
use haa_s_libssh.Config.{Bytes, forward_mode_allow, forward_mode_echo, forward_mode_null}
use haa_s_libssh.FwPair.{FwEndpoint, FwPair}
use haa_s_libssh.FwPair.Life.{fw_pair_release}
use haa_s_libssh.FwPool
use haa_s_libssh.FwPool.{FwPool}
use haa_s_libssh.World.{
  Call, Env, Context, World, M, ◌>>=◌, ◌>>◌, pure, skip, fault, when, context, update, run, ask_int,
  load, update_pair,
}
use haa_s_libssh.Proxy.Timers.{idle_timer_reset}

abbrev pub set_closed : FwPair → FwPair
set_closed p = record p { closed = true }

module _ (env : Env) where
  -- An end of the pair at `a` is polled: the end of its data closes the pair.
  poll_end : ℕ → Option ℕ → M (Unit {0})
  poll_end a none = skip
  poll_end a (some c) = do
    len ← ask_int env (Call.ssh_channel_poll (some c))
    when (ltb_ℤ len (pos 0) && eqb_ℤ len env.ssh_eof) (update_pair a set_closed)

  poll_pair : ℕ → M (Unit {0})
  unfolding poll_end
  poll_pair a = do p ← load a; poll_end a p.source.channel; q ← load a; poll_end a q.destiny.channel

  poll_item : Option ℕ → M (Unit {0})
  unfolding poll_pair
  poll_item none = skip
  poll_item (some a) = poll_pair a

  -- The loop `for (i=0;i<Count;i++)` at `i`, with `n` rounds left.
  pub poll_from : ℕ → ℕ → M (Unit {0})
  poll_from i zero = skip
  poll_from i (suc n) = do
    c ← context
    poll_item (FwPool.get c.forward_pool (pos i))
    poll_from (suc i) n

  pub find_closed : M ℤ
  find_closed w = elim (FwPool.find_closed w.heap w.ctx.forward_pool) [
    | none ↦ none
    | some index ↦ some (index, w)
  ]

  -- One round of `while(1)`: the closed pair at the index leaves the pool and is released.
  pub drop_pair : ℤ → M (Unit {0})
  drop_pair index = do
    c ← context
    update (λ c. record c { forward_pool = (FwPool.remove c.forward_pool index).1 })
    fw_pair_release env (FwPool.get c.forward_pool index)

  -- `while(1)`, with fuel; to run out of it counts as a fault.
  pub sweep : ℕ → M (Unit {0})
  unfolding find_closed drop_pair
  sweep zero = fault
  sweep (suc fuel) = do
    index ← find_closed
    if ltb_ℤ index (pos 0) then skip else (do drop_pair index; sweep fuel)

  sweep_all : ℕ → M (Unit {0})
  unfolding poll_from poll_item sweep
  sweep_all n = do poll_from 0 n; sweep (suc n)

  -- `HandleForwards`. Each round of the second loop takes a pair out, so that one round more than
  -- there are pairs is enough.
  unfoldable pub handle_forwards : M (Unit {0})
  unfolding sweep_all
  handle_forwards = do
    c ← context
    let n = FwPool.count c.forward_pool
    when (ltb_ℤ (pos 0) n) (sweep_all (pos_part n))
