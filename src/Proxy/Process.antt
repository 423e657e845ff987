-- ===== src/Proxy/Process.antt =====
-- src/proxy.c, `ProxyProcess`: the session from the key exchange to the teardown.
pub mod Rounds
pub mod Ending
pub mod Expiry
use haa_s_libssh.Common.{
  ℕ, zero, suc, Bool, true, false, not, ◌&&◌, Option, none, some, is_null, if◌then◌else◌,
}
use haa_s_libssh.Common.Int.{ℤ, pos, nonzero, eqb_ℤ, ltb_ℤ}
use haa_s_libssh.FwPool.Done.{fw_pool_done}
use haa_s_libssh.World.{
  Call, Env, Context, World, M, ◌>>=◌, ◌>>◌, pure, skip, fault, when, context, update, run, ask_int,
}
use haa_s_libssh.Proxy.Timers.{
  timer_start, timer_get, idle_timer_reset, idle_timer_get, check_usage,
}
use haa_s_libssh.Proxy.Open.{session_close}
use haa_s_libssh.Proxy.Events.{Event, handle, forwards_step}

-- What libssh delivers while it waits: how many callbacks, by the number of the call, and which one
-- comes when so many are left.
pub record Arrivals : Type 0 where
  pub amount : ℕ → ℕ
  pub event_at : ℕ → World → Event

-- How a round of a loop ends: with `continue` or at its end, with `Error`, or with `break` alone.
pub data Verdict : Type 0 where
  again failed leave : Verdict

-- `stop` is what the reads of `ShouldStop` give, one after the other.
module _ (env : Env) (arrivals : Arrivals) (stop : ℕ → Bool) where
  deliver : ℕ → M (Unit {0})
  deliver zero = skip
  deliver (suc n) = λ w. (handle env (arrivals.event_at n w) >> deliver n) w

  -- `ssh_event_dopoll`, which makes callbacks before it returns.
  dopoll : ℤ → M ℤ
  unfolding deliver
  dopoll time w = (deliver (arrivals.amount w.tick) >> ask_int env (Call.ssh_event_dopoll time)) w

  -- The session's timer shortens the wait, or ends it.
  shorter : ℤ → ℤ → Option ℤ
  shorter i time = if eqb_ℤ i (pos 0) then none else if ltb_ℤ i time then some i else some time

  session_time : ℤ → M (Option ℤ)
  unfolding shorter
  session_time time = do c ← context; i ← timer_get env c.session_timer; pure (shorter i time)

  -- How long to wait; nothing after a timeout.
  wait_time : M (Option ℤ)
  unfolding session_time
  wait_time = do
    c ← context
    time ← idle_timer_get env
    if eqb_ℤ time (pos 0)
        then pure none
        else if ltb_ℤ (pos 0) c.config.session_timeout
        then session_time time
        else pure (some time)

  -- The tests after the wait in the first loop.
  login_verdict : ℤ → Context → Verdict
  login_verdict ret c =
      if eqb_ℤ ret env.ssh_eintr
      then again
      else if eqb_ℤ ret env.ssh_error
      then failed
      else if c.closed
      then failed
      else if not (is_null c.trap_channel) && c.authenticated
      then leave
      else again

  login_poll : Option ℤ → M Verdict
  unfolding dopoll login_verdict
  login_poll none = pure failed
  login_poll (some time) = do ret ← dopoll time; c ← context; pure (login_verdict ret c)

  login_wait : Bool → M Verdict
  unfolding wait_time login_poll
  login_wait false = pure failed
  login_wait true = do time ← wait_time; login_poll time

  pub login_round : M Verdict
  unfolding login_wait check_usage
  login_round = do usage ← check_usage env; login_wait usage

  -- The first loop, at the `k`-th read of `ShouldStop`: `Error`, and the number of the next read.
  pub login_loop : ℕ → ℕ → M (Bool × ℕ)
  unfolding login_round
  login_loop k zero = fault
  login_loop k (suc fuel) = if stop k then pure (false, suc k) else do
    verdict ← login_round
    elim verdict [
      | again ↦ login_loop (suc k) fuel
      | failed ↦ pure (true, suc k)
      | leave ↦ pure (false, suc k)
    ]

  -- The tests after the wait in the second loop.
  relay_verdict : ℤ → Context → Verdict
  relay_verdict ret c =
      if eqb_ℤ ret env.ssh_eintr
      then again
      else if eqb_ℤ ret env.ssh_error
      then failed
      else if c.closed
      then leave
      else again

  relay_poll : Option ℤ → M Verdict
  unfolding dopoll relay_verdict
  relay_poll none = pure leave
  relay_poll (some time) = do ret ← dopoll time; c ← context; pure (relay_verdict ret c)

  -- Pending packets are flushed before the wait.
  relay_flush : M (Unit {0})
  relay_flush = do
    c ← context
    run (Call.ssh_channel_poll c.trap_channel)
    run (Call.ssh_channel_poll c.haas_channel)
    forwards_step env
    run (Call.ssh_blocking_flush c.trap_session)
    run (Call.ssh_blocking_flush c.haas_session)

  pub relay_round : M Verdict
  unfolding relay_flush wait_time relay_poll
  relay_round = do relay_flush; time ← wait_time; relay_poll time

  relay_loop : ℕ → ℕ → M (Unit {0})
  unfolding relay_round
  relay_loop k zero = fault
  relay_loop k (suc fuel) = if stop k then skip else do
    verdict ← relay_round
    elim verdict [ again ↦ relay_loop (suc k) fuel | failed ↦ skip | leave ↦ skip ]

  leave_haas : M (Unit {0})
  leave_haas = do c ← context; run (Call.ssh_event_remove_session c.haas_session)

  relay : ℕ → ℕ → M (Unit {0})
  unfolding relay_loop idle_timer_reset leave_haas
  relay k fuel = do
    c ← context
    run (Call.ssh_event_add_session c.haas_session)
    idle_timer_reset env
    relay_loop k fuel
    leave_haas

  -- The tests between the loops, with one more read of `ShouldStop`.
  pub after_login : ℕ → Bool × ℕ → M (Unit {0})
  unfolding relay
  after_login fuel result = do
    c ← context
    let logged_in = not (is_null c.trap_channel) && c.authenticated
    when (not result.0 && not (stop result.1) && logged_in) (relay (suc result.1) fuel)

  pub start_timers : M (Unit {0})
  unfolding timer_start idle_timer_reset
  start_timers = do
    idle_timer_reset env
    c ← context
    when (ltb_ℤ (pos 0) c.config.session_timeout) (do
      timer ← timer_start env c.config.session_timeout
      update (λ d. record d { session_timer = timer }))

  main_loop : ℕ → M (Unit {0})
  unfolding start_timers login_loop after_login
  main_loop fuel = do
    c ← context
    run (Call.ssh_set_auth_methods c.trap_session)
    run Call.ssh_event_new
    run (Call.ssh_event_add_session c.trap_session)
    start_timers
    result ← login_loop 0 fuel
    after_login fuel result
    run (Call.ssh_event_remove_session c.trap_session)
    run Call.ssh_event_free

  pub teardown : M (Unit {0})
  unfolding fw_pool_done session_close
  teardown = do
    c ← context
    fw_pool_done env c.forward_pool
    session_close env c.haas_session c.haas_channel
    run Call.ssh_bind_free
    session_close env c.trap_session c.trap_channel

  -- From `ssh_handle_key_exchange` to the end, with fuel for each loop.
  unfoldable pub proxy_process : ℕ → M (Unit {0})
  unfolding main_loop teardown
  proxy_process fuel = do
    c ← context
    i ← ask_int env (Call.ssh_handle_key_exchange c.trap_session)
    when (not (nonzero i)) (main_loop fuel)
    teardown
