-- ===== src/Proxy/Process/Rounds.antt =====
-- src/proxy.c, `ProxyProcess`: each round of its loops keeps a session sound.
use haa_s_libssh.Common.{ℕ, zero, suc, refl, Bool, true, false, Option, none, some, arith}
use haa_s_libssh.Common.Int.{ℤ}
use haa_s_libssh.World.{Call, Env, World, called, ask_int}
use haa_s_libssh.World.Ends.{Ends, >>=-Ends, >>-Ends, Ends-mono}
use haa_s_libssh.Proxy.Timers.{timer_get, idle_timer_get, idle_timer_reset, check_usage}
use haa_s_libssh.Proxy.Forward.Register.{HasMemory}
use haa_s_libssh.Proxy.Events.{handle, forwards_step}
use haa_s_libssh.Proxy.Events.Framed.{Calm}
use haa_s_libssh.Proxy.Events.Sound.{IsSound, IsSound-Calm, Ready}
use haa_s_libssh.Proxy.Events.Handled.{handle-IsSound, forwards-IsSound}
use haa_s_libssh.Proxy.Process.{
  Arrivals, deliver, dopoll, wait_time, login_poll, login_wait, login_round, relay_poll,
  relay_flush, relay_round, start_timers,
}

module _ (env : Env) (arrivals : Arrivals) (stop : ℕ → Bool) (mem : HasMemory env)
    (ready : (n : ℕ) (w : World) → IsSound w → Ready w (arrivals.event_at n w)) where
  deliver-IsSound :
      (n : ℕ) (w : World) → IsSound w → Ends (deliver env arrivals stop n w) (λ _ w'. IsSound w')
  unfolding deliver
  deliver-IsSound zero w v = v
  deliver-IsSound (suc n) w v =
      let e = arrivals.event_at n w in
      >>-Ends (handle env e) (deliver env arrivals stop n) w IsSound _
        (handle-IsSound env e w mem v (ready n w v)) (λ w1 v1. deliver-IsSound n w1 v1)

  -- A call alone changes nothing that matters.
  pub called-IsSound : (c : Call) (w : World) → IsSound w → IsSound (called c w)
  called-IsSound c w v = IsSound-Calm w _ ((refl, refl, refl), (refl, refl, refl), (refl, refl)) v

  dopoll-IsSound :
      (time : ℤ) (w : World)
      → IsSound w
      → Ends (dopoll env arrivals stop time w) (λ _ w'. IsSound w')
  unfolding dopoll
  dopoll-IsSound time w v =
      >>-Ends (deliver env arrivals stop (arrivals.amount w.tick))
        (ask_int env (Call.ssh_event_dopoll time)) w IsSound _
        (deliver-IsSound (arrivals.amount w.tick) w v) (λ w1 v1. called-IsSound _ w1 v1)

  wait_time-Calm : (w : World) → Ends (wait_time env arrivals stop w) (λ _ w'. Calm w w')
  unfolding wait_time idle_timer_get timer_get
  wait_time-Calm w = ground arith

  check_usage-Calm : (w : World) → Ends (check_usage env w) (λ _ w'. Calm w w')
  unfolding check_usage
  check_usage-Calm w = ground arith

  pub idle_timer_reset-IsSound :
      (w : World) → IsSound w → Ends (idle_timer_reset env w) (λ _ w'. IsSound w')
  unfolding idle_timer_reset
  idle_timer_reset-IsSound w v =
      IsSound-Calm w _ ((refl, refl, refl), (refl, refl, refl), (refl, refl)) v

  start_timers-Calm : (w : World) → Ends (start_timers env arrivals stop w) (λ _ w'. Calm w w')
  unfolding start_timers
  start_timers-Calm w = ground arith

  pub start_timers-IsSound :
      (w : World) → IsSound w → Ends (start_timers env arrivals stop w) (λ _ w'. IsSound w')
  start_timers-IsSound w v =
      Ends-mono (start_timers env arrivals stop w) _ _ (start_timers-Calm w)
        (λ _ w' calm. IsSound-Calm w w' calm v)

  login_poll-IsSound :
      (time : Option ℤ) (w : World)
      → IsSound w
      → Ends (login_poll env arrivals stop time w) (λ _ w'. IsSound w')
  unfolding login_poll
  login_poll-IsSound none w v = v
  login_poll-IsSound (some time) w v =
      >>=-Ends (dopoll env arrivals stop time) _ w _ _ (dopoll-IsSound time w v) (λ ret w1 v1. v1)

  login_wait-IsSound :
      (usage : Bool) (w : World)
      → IsSound w
      → Ends (login_wait env arrivals stop usage w) (λ _ w'. IsSound w')
  unfolding login_wait
  login_wait-IsSound false w v = v
  login_wait-IsSound true w v =
      >>=-Ends (wait_time env arrivals stop) _ w _ _ (wait_time-Calm w)
        (λ time w1 calm. login_poll-IsSound time w1 (IsSound-Calm w w1 calm v))

  pub login_round-IsSound :
      (w : World) → IsSound w → Ends (login_round env arrivals stop w) (λ _ w'. IsSound w')
  unfolding login_round
  login_round-IsSound w v =
      >>=-Ends (check_usage env) _ w _ _ (check_usage-Calm w)
        (λ usage w1 calm. login_wait-IsSound usage w1 (IsSound-Calm w w1 calm v))

  relay_poll-IsSound :
      (time : Option ℤ) (w : World)
      → IsSound w
      → Ends (relay_poll env arrivals stop time w) (λ _ w'. IsSound w')
  unfolding relay_poll
  relay_poll-IsSound none w v = v
  relay_poll-IsSound (some time) w v =
      >>=-Ends (dopoll env arrivals stop time) _ w _ _ (dopoll-IsSound time w v) (λ ret w1 v1. v1)

  relay_flush-IsSound :
      (w : World) → IsSound w → Ends (relay_flush env arrivals stop w) (λ _ w'. IsSound w')
  unfolding relay_flush
  relay_flush-IsSound w v =
      let w1 =
        called (Call.ssh_channel_poll w.ctx.haas_channel)
          (called (Call.ssh_channel_poll w.ctx.trap_channel) w) in
      >>-Ends (forwards_step env) _ w1 IsSound _
        (forwards-IsSound env w1 (called-IsSound _ _ (called-IsSound _ w v)))
        (λ w2 v2. called-IsSound _ _ (called-IsSound _ w2 v2))

  pub relay_round-IsSound :
      (w : World) → IsSound w → Ends (relay_round env arrivals stop w) (λ _ w'. IsSound w')
  unfolding relay_round
  relay_round-IsSound w v =
      >>-Ends (relay_flush env arrivals stop) _ w IsSound _ (relay_flush-IsSound w v) λ w1 v1.
        >>=-Ends (wait_time env arrivals stop) _ w1 _ _ (wait_time-Calm w1)
          (λ time w2 calm. relay_poll-IsSound time w2 (IsSound-Calm w1 w2 calm v1))
