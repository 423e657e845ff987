-- ===== src/FwPair/Life.antt =====
-- src/fw_pair.c: how a pair of forwarded channels is made and released.
use haa_s_libssh.Common.{ℕ, suc, false, not, is_null, Option, none, some, if◌then◌else◌}
use haa_s_libssh.Common.Int.{ℤ, pos, nonzero}
use haa_s_libssh.FwPair.{FwEndpoint, FwPair}
use haa_s_libssh.World.{
  Call, Env, M, ◌>>=◌, ◌>>◌, pure, skip, when, run, ask_int, called, store, load, update_pair,
}

-- `FwEndpointInit`.
abbrev pub endpoint_init : FwEndpoint
endpoint_init = record { addr = none; port = pos 0; channel = none }

-- A pair after `FwPairAlloc` at the address `a`.
abbrev pub fresh_pair : ℕ → FwPair
fresh_pair a = record {
  context = false;
  closed = false;
  source = endpoint_init;
  destiny = endpoint_init;
  userdata = a;
}

module _ (env : Env) where
  -- `malloc` gives NULL, or a block that no other part of the program has.
  allocate : ℤ → M (Option ℕ)
  allocate i w =
      if nonzero i
      then some
          (some w.next, record (store w.next (some (fresh_pair w.next)) w) { next = suc w.next })
      else some (none, w)

  -- `FwPairAlloc`.
  unfoldable pub fw_pair_alloc : M (Option ℕ)
  unfolding allocate
  fw_pair_alloc = do i ← ask_int env Call.malloc; allocate i

  close_end : ℕ → M (Unit {0})
  close_end channel = do
    is_open ← ask_int env (Call.ssh_channel_is_open (some channel))
    when (nonzero is_open) (run (Call.ssh_channel_close (some channel)))
    run (Call.ssh_channel_free (some channel))

  -- `FwEndpointDone`, with the endpoint that it leaves.
  fw_endpoint_done : FwEndpoint → M FwEndpoint
  unfolding close_end
  fw_endpoint_done end_point = do
    when (not (is_null end_point.addr)) (run Call.free_string)
    elim end_point.channel [ none ↦ skip | some c ↦ close_end c ]
    pure endpoint_init

  -- `free`.
  free_at : ℕ → M (Unit {0})
  free_at a w = some (tt, store a none (called (Call.free_pair a) w))

  release_at : ℕ → M (Unit {0})
  unfolding fw_endpoint_done free_at
  release_at a = do
    update_pair a (λ p. record p { context = false; closed = false })
    p ← load a
    source ← fw_endpoint_done p.source
    update_pair a (λ p. record p { source = source })
    q ← load a
    destiny ← fw_endpoint_done q.destiny
    update_pair a (λ p. record p { destiny = destiny })
    free_at a

  -- `FwPairRelease`.
  unfoldable pub fw_pair_release : Option ℕ → M (Unit {0})
  unfolding release_at
  fw_pair_release none = skip
  fw_pair_release (some a) = release_at a
