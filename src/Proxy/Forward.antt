-- ===== src/Proxy/Forward.antt =====
-- src/proxy.c: requests for port forwarding, `TrapMessageCallback`.
pub mod Modes
pub mod Register
pub mod Framed
use haa_s_libssh.Common.{
  ℕ, suc, ◌+◌, Bool, true, false, not, ◌&&◌, Option, none, some, is_null, leb, if◌then◌else◌,
}
use haa_s_libssh.Common.Int.{ℤ, pos, minus_one, nonzero, eqb_ℤ}
use haa_s_libssh.Config.{Bytes, forward_mode_deny, forward_mode_allow, forward_mode_fake}
use haa_s_libssh.FwPair.{FwEndpoint, FwPair}
use haa_s_libssh.FwPair.Life.{fw_pair_alloc, fw_pair_release}
use haa_s_libssh.FwPool
use haa_s_libssh.World.{
  Call, CallbackSet, Env, Context, World, M, ◌>>=◌, ◌>>◌, pure, skip, fault, when, context, update,
  run, ask_int, ask_ptr, called, load, update_pair,
}
use haa_s_libssh.Proxy.Timers.{idle_timer_reset}

-- A message of libssh: the tests of its type and subtype, and the ends of the connection asked for.
pub record Message : Type 0 where
  pub is_channel_open : Bool
  pub is_direct_tcpip : Bool
  pub originator : Bytes
  pub originator_port : ℤ
  pub destination : Bytes
  pub destination_port : ℤ

-- What the first half finds: the two channels, and whether the request is accepted.
pub record Request : Type 0 where
  pub src : Option ℕ
  pub dst : Option ℕ
  pub accept : Bool
  pub closing : Bool

-- A pair that is filled in for the request.
abbrev pub filled : Message → Request → FwPair → FwPair
filled m r p = record p {
  context = true;
  source = record { addr = some m.originator; port = m.originator_port; channel = r.src };
  destiny = record { addr = some m.destination; port = m.destination_port; channel = r.dst };
}

module _ (env : Env) where
  -- The channel to the HaaS server was made: it is opened, or freed with the variable left as it is.
  open_forward : Message → ℕ → M (Option ℕ × Bool)
  open_forward m d = do
    i ← ask_int env (
        Call.ssh_channel_open_forward d m.destination m.destination_port m.originator
          m.originator_port)
    when (nonzero i) (run (Call.ssh_channel_free (some d)))
    pure (some d, not (nonzero i))

  -- The channel at the HaaS server, and `Accept`.
  connect_dst : Message → ℤ → M (Option ℕ × Bool)
  unfolding open_forward
  connect_dst m mode = do
    c ← context
    let allow = do
      d ← ask_ptr env (Call.ssh_channel_new c.haas_session)
      elim d [ none ↦ pure (none, false) | some d ↦ open_forward m d ]
    if eqb_ℤ mode forward_mode_allow then allow else pure (none, true)

  -- The attacker's channel; `Close` is 0 if there is one.
  accept_src : Option ℕ → Bool → M Request
  accept_src dst false = pure (record { src = none; dst = dst; accept = false; closing = true })
  accept_src dst true = do
    src ← ask_ptr env Call.ssh_message_channel_request_open_reply_accept
    pure (record { src = src; dst = dst; accept = true; closing = is_null src })

  -- The fake mode waits half a second and closes.
  fake_refusal : ℤ → Request → M Request
  fake_refusal mode r =
      if eqb_ℤ mode forward_mode_fake
      then (do run (Call.usleep 500000); pure (record r { closing = true }))
      else pure r

  -- `FwPoolAdd` calls `realloc` where the block is full.
  abbrev pub realloc_call : Option FwPool.FwPool → World → World
  realloc_call none w = w
  realloc_call (some p) w = if leb p.alloc p.used then called Call.realloc w else w

  -- `FwPoolAdd` on the context's pool.
  pool_add : Option ℕ → M ℤ
  pool_add item w = elim (FwPool.add (env.realloc w.tick) w.ctx.forward_pool item) [
    | none ↦ none
    | some (index, pool) ↦ some (
      index,
      realloc_call w.ctx.forward_pool (record w { ctx = record w.ctx { forward_pool = pool } }),
    )
  ]

  -- The accesses through `Pair`, which fault if it is NULL. `strdup` is taken to succeed.
  fill_pair : Message → Request → Option ℕ → M (Unit {0})
  fill_pair m r none = fault
  fill_pair m r (some a) = do
    update_pair a (filled m r)
    elim r.src [
      | none ↦ skip
      | some s ↦ run (Call.ssh_set_channel_callbacks s (CallbackSet.pair_cb a))
    ]
    elim r.dst [
      | none ↦ skip
      | some d ↦ run (Call.ssh_set_channel_callbacks d (CallbackSet.pair_cb a))
    ]

  -- The pair went into the pool, or is released again.
  keep_pair : Message → Request → Option ℕ → ℤ → M Request
  unfolding fill_pair
  keep_pair m r pair index =
      if eqb_ℤ index minus_one
      then (do fw_pair_release env pair; pure (record r { closing = true }))
      else do fill_pair m r pair; pure r

  register : Message → Request → M Request
  unfolding pool_add keep_pair fw_pair_alloc
  register m r =
      if r.closing
      then pure r
      else do pair ← fw_pair_alloc env; index ← pool_add pair; keep_pair m r pair index

  close_dst : Option ℕ → M (Unit {0})
  close_dst none = skip
  close_dst (some d) = do
    c ← context
    blocking ← ask_int env (Call.ssh_is_blocking c.haas_session)
    run (Call.ssh_set_blocking c.haas_session (pos 0))
    run (Call.ssh_channel_close (some d))
    run (Call.ssh_channel_free (some d))
    run (Call.ssh_set_blocking c.haas_session blocking)

  close_src : Option ℕ → M (Unit {0})
  close_src src = do
    c ← context
    blocking ← ask_int env (Call.ssh_is_blocking c.trap_session)
    run (Call.ssh_set_blocking c.trap_session (pos 0))
    run (Call.ssh_channel_request_send_exit_status src env.econnrefused)
    run (Call.ssh_channel_close src)
    run (Call.ssh_channel_free src)
    run (Call.ssh_set_blocking c.trap_session blocking)

  close_request : Request → M (Unit {0})
  unfolding close_dst close_src
  close_request r = when r.closing (do close_dst r.dst; close_src r.src)

  -- A request for a direct connection, unless the mode is to deny: 0 if it was accepted.
  forward_request : Message → ℤ → M ℤ
  unfolding connect_dst accept_src fake_refusal register close_request
  forward_request m mode = do
    dst ← connect_dst m mode
    r ← accept_src dst.0 dst.1
    faked ← fake_refusal mode r
    kept ← register m faked
    close_request kept
    pure (if kept.accept then pos 0 else pos 1)

  -- The tests in front of it.
  handle_message : Option Message → M ℤ
  unfolding forward_request
  handle_message none = pure (pos 1)
  handle_message (some m) = do
    c ← context
    let direct = m.is_channel_open && m.is_direct_tcpip
    let denied = eqb_ℤ c.config.forward_mode forward_mode_deny
    if direct && not denied then forward_request m c.config.forward_mode else pure (pos 1)

  -- `TrapMessageCallback`: 0 if the message was handled.
  unfoldable pub trap_message : Option Message → M ℤ
  unfolding handle_message idle_timer_reset
  trap_message msg = do back ← handle_message msg; idle_timer_reset env; pure back

  -- `HaasMessageCallback`, which handles nothing.
  unfoldable pub haas_message : M ℤ
  unfolding idle_timer_reset
  haas_message = do idle_timer_reset env; pure (pos 1)
