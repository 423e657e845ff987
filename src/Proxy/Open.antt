-- ===== src/Proxy/Open.antt =====
-- src/proxy.c: opening the attacker's session channel together with one at the HaaS server, the
-- service request, and closing a session.
pub mod Paired
use haa_s_libssh.Common.{ℕ, Bool, true, false, not, Option, none, some, if◌then◌else◌}
use haa_s_libssh.Common.Int.{ℤ, pos, nonzero}
use haa_s_libssh.World.{
  Call, CallbackSet, Env, Context, World, M, ◌>>=◌, ◌>>◌, pure, skip, when, context, update, run,
  ask_int, ask_ptr,
}
use haa_s_libssh.Proxy.Timers.{idle_timer_reset}

module _ (env : Env) where
  -- A channel that is given up, without blocking its session.
  give_up : Option ℕ → ℕ → M (Unit {0})
  give_up session channel = do
    blocking ← ask_int env (Call.ssh_is_blocking session)
    run (Call.ssh_set_blocking session (pos 0))
    run (Call.ssh_channel_close (some channel))
    run (Call.ssh_channel_free (some channel))
    run (Call.ssh_set_blocking session blocking)

  -- The HaaS channel is opened; both channels become the session's.
  join_channels : ℕ → ℕ → ℤ → M Bool
  join_channels trap haas i = if nonzero i then pure false else do
    run (Call.ssh_set_channel_callbacks trap CallbackSet.trap_channel_cb)
    run (Call.ssh_set_channel_callbacks haas CallbackSet.haas_channel_cb)
    update (λ c. record c { trap_channel = some trap; haas_channel = some haas })
    pure true

  -- Whether the pair of channels was opened; the HaaS channel is given up if not.
  open_haas : ℕ → ℕ → M Bool
  unfolding join_channels give_up
  open_haas trap haas = do
    i ← ask_int env (Call.ssh_channel_open_session haas)
    joined ← join_channels trap haas i
    c ← context
    when (not joined) (give_up c.haas_session haas)
    pure joined

  open_both : ℕ → M (Unit {0})
  unfolding open_haas give_up
  open_both trap = do
    c ← context
    haas ← ask_ptr env (Call.ssh_channel_new c.haas_session)
    joined ← elim haas [ none ↦ pure false | some h ↦ open_haas trap h ]
    when (not joined) (give_up c.trap_session trap)

  open_first : ℕ → M (Unit {0})
  unfolding open_both
  open_first session = do
    trap ← ask_ptr env (Call.ssh_channel_new (some session))
    elim trap [ none ↦ skip | some t ↦ open_both t ]

  -- `TrapNewChannel`: only the first request opens a channel, and every request gets it.
  unfoldable pub trap_new_channel : ℕ → M (Option ℕ)
  unfolding open_first idle_timer_reset
  trap_new_channel session = do
    c ← context
    elim c.trap_channel [ none ↦ open_first session | some t ↦ skip ]
    after ← context
    idle_timer_reset env
    pure after.trap_channel

  -- `TrapServiceRequest`: the message is never fetched, so that the answer is always 0.
  unfoldable pub trap_service_request : M ℤ
  unfolding idle_timer_reset
  trap_service_request = do idle_timer_reset env; pure (pos 0)

  close_channel : ℕ → M (Unit {0})
  close_channel channel = do
    is_open ← ask_int env (Call.ssh_channel_is_open (some channel))
    when (nonzero is_open) (do
      run (Call.ssh_channel_set_blocking channel (pos 0))
      run (Call.ssh_channel_send_eof (some channel))
      run (Call.ssh_channel_close (some channel)))
    run (Call.ssh_channel_free (some channel))

  free_session : ℕ → M (Unit {0})
  free_session session = do run (Call.ssh_disconnect session); run (Call.ssh_free session)

  -- `SessionClose`.
  unfoldable pub session_close : Option ℕ → Option ℕ → M (Unit {0})
  unfolding close_channel free_session
  session_close session channel = do
    elim channel [ none ↦ skip | some c ↦ close_channel c ]
    elim session [ none ↦ skip | some s ↦ free_session s ]
