-- ===== src/Proxy/Process/Expiry/Loops.antt =====
-- src/proxy.c, `ProxyProcess`: both loops end when the timer of the session has run out.
use haa_s_libssh.Common.{
  ℕ, zero, suc, ◌+◌, ◌≤◌, ◌<◌, ◌≡◌, Bool, true, false, not, ◌&&◌, is_null, arith,
}
use haa_s_libssh.Common.Ends.{Ends-Gives, Ends-leaves}
use haa_s_libssh.Common.Int.{pos, ltb_ℤ}
use haa_s_libssh.Config.{Config}
use haa_s_libssh.World.{Timeval, Call, Env, World, M, called, pure, skip, ◌>>◌}
use haa_s_libssh.World.Ends.{Ends, >>=-Ends, >>-Ends, if-Ends, when-Ends}
use haa_s_libssh.World.Leaves.{Leaves}
use haa_s_libssh.Proxy.Timers.{idle_timer_reset}
use haa_s_libssh.Proxy.Timers.Exact.{micros}
use haa_s_libssh.Proxy.Timers.Timed.{Timed}
use haa_s_libssh.Proxy.Forward.Register.{HasMemory}
use haa_s_libssh.Proxy.Events.Sound.{IsSound, Ready}
use haa_s_libssh.Proxy.Process.{
  Arrivals, Verdict, again, failed, leave, login_round, login_loop, relay_round, relay_loop,
  leave_haas, relay, after_login,
}
use haa_s_libssh.Proxy.Process.Rounds.{
  login_round-IsSound, relay_round-IsSound, called-IsSound, idle_timer_reset-IsSound,
}
use haa_s_libssh.Proxy.Process.Expiry.{Round, login_round-Round, relay_round-Round}

module _ (env : Env) (arrivals : Arrivals) (stop : ℕ → Bool) (mem : HasMemory env)
    (ready : (n : ℕ) (w : World) → IsSound w → Ready w (arrivals.event_at n w))
    (clock_small : (n : ℕ) → (env.clock n).tv_usec < 1000000) where
  module _ (timer : Timeval) (config : Config) (t : ℕ)
      (limited : ltb_ℤ (pos 0) config.session_timeout ≡ true) (small : timer.tv_usec < 1000000)
      (late : (n : ℕ) → t ≤ n → micros timer ≤ micros (env.clock n)) where
    -- A sound session with the timer.
    abbrev pub On : World → Type 0
    On w = IsSound w × Timed timer config 0 w

    abbrev RoundOf : ℕ → Verdict → World → Type 0
    RoundOf lo verdict w =
        IsSound w
        × Round env arrivals stop timer config t limited small clock_small late lo verdict w

    next_login :
        (k fuel lo : ℕ) (verdict : Verdict) (w : World)
        → RoundOf lo verdict w
        → (On w
            → suc lo ≤ w.tick
            → lo < t
            → Ends (login_loop env arrivals stop (suc k) fuel w) (λ r w'. On w'))
        → Ends
            ((elim verdict as (λ _. M (Bool × ℕ)) [
              | again ↦ login_loop env arrivals stop (suc k) fuel
              | failed ↦ pure (true, suc k)
              | leave ↦ pure (false, suc k)
            ])
              w)
            (λ r w'. On w')
    next_login k fuel lo again w (v, ((s, c, le), early)) loop =
        loop (v, (s, c, omega arith)) le early
    next_login k fuel lo failed w (v, (s, c, le)) loop = (v, (s, c, omega arith))
    next_login k fuel lo leave w (v, (s, c, le)) loop = (v, (s, c, omega arith))

    pub login_loop-On :
        (fuel k : ℕ) (w : World)
        → 0 < fuel
        → t < w.tick + fuel
        → On w
        → Ends (login_loop env arrivals stop k fuel w) (λ r w'. On w')
    unfolding login_loop
    login_loop-On zero k w some_fuel enough v = absurd (omega arith)
    login_loop-On (suc fuel) k w some_fuel enough (v, (s, c, le)) =
        if-Ends (stop k) (pure (false, suc k)) _ w (λ r w'. On w') (λ _. (v, (s, c, le)))
          (λ _.
            >>=-Ends (login_round env arrivals stop) _ w (RoundOf w.tick) (λ r w'. On w')
              (Ends-Gives (login_round env arrivals stop w) (λ _ w'. IsSound w')
                (Round env arrivals stop timer config t limited small clock_small late w.tick)
                (login_round-IsSound env arrivals stop mem ready w v)
                (login_round-Round env arrivals stop timer config t limited small clock_small late
                  w.tick w (s, c, omega arith)))
              (λ verdict w1 r.
                next_login k fuel w.tick verdict w1 r
                  (λ v1 more early. login_loop-On fuel (suc k) w1 (omega arith) (omega arith) v1)))

    next_relay :
        (k fuel lo : ℕ) (verdict : Verdict) (w : World)
        → RoundOf lo verdict w
        → (On w
            → suc lo ≤ w.tick
            → lo < t
            → Ends (relay_loop env arrivals stop (suc k) fuel w) (λ r w'. On w'))
        → Ends
            ((elim verdict as (λ _. M (Unit {0})) [
              | again ↦ relay_loop env arrivals stop (suc k) fuel
              | failed ↦ skip
              | leave ↦ skip
            ])
              w)
            (λ r w'. On w')
    next_relay k fuel lo again w (v, ((s, c, le), early)) loop =
        loop (v, (s, c, omega arith)) le early
    next_relay k fuel lo failed w (v, (s, c, le)) loop = (v, (s, c, omega arith))
    next_relay k fuel lo leave w (v, (s, c, le)) loop = (v, (s, c, omega arith))

    relay_loop-On :
        (fuel k : ℕ) (w : World)
        → 0 < fuel
        → t < w.tick + fuel
        → On w
        → Ends (relay_loop env arrivals stop k fuel w) (λ r w'. On w')
    unfolding relay_loop
    relay_loop-On zero k w some_fuel enough v = absurd (omega arith)
    relay_loop-On (suc fuel) k w some_fuel enough (v, (s, c, le)) =
        if-Ends (stop k) skip _ w (λ r w'. On w') (λ _. (v, (s, c, le)))
          (λ _.
            >>=-Ends (relay_round env arrivals stop) _ w (RoundOf w.tick) (λ r w'. On w')
              (Ends-Gives (relay_round env arrivals stop w) (λ _ w'. IsSound w')
                (Round env arrivals stop timer config t limited small clock_small late w.tick)
                (relay_round-IsSound env arrivals stop mem ready w v)
                (relay_round-Round env arrivals stop timer config t limited small clock_small late
                  w.tick w (s, c, omega arith)))
              (λ verdict w1 r.
                next_relay k fuel w.tick verdict w1 r
                  (λ v1 more early. relay_loop-On fuel (suc k) w1 (omega arith) (omega arith) v1)))

    -- A call alone.
    called-On : (c : Call) (w : World) → On w → On (called c w)
    called-On c w (v, (s, e, le)) =
        (called-IsSound env arrivals stop mem ready c w v, (s, e, omega arith))

    idle_timer_reset-Timed :
        (w : World)
        → Timed timer config 0 w
        → Leaves (idle_timer_reset env w) (Timed timer config 0)
    unfolding idle_timer_reset
    idle_timer_reset-Timed w v = ground arith

    relay-On :
        (k : ℕ) (w : World) → On w → Ends (relay env arrivals stop k (suc t) w) (λ _ w'. On w')
    unfolding relay
    relay-On k w v =
        let w1 = called (Call.ssh_event_add_session w.ctx.haas_session) w in
        let v1 = called-On (Call.ssh_event_add_session w.ctx.haas_session) w v in
        >>-Ends (idle_timer_reset env)
          (relay_loop env arrivals stop k (suc t) >> leave_haas env arrivals stop) w1 On
          (λ _ w'. On w')
          (Ends-leaves (idle_timer_reset env w1) (λ _ w'. IsSound w') (Timed timer config 0)
            (idle_timer_reset-IsSound env arrivals stop mem ready w1 v1.0)
            (idle_timer_reset-Timed w1 v1.1))
          (λ w2 v2.
            >>-Ends (relay_loop env arrivals stop k (suc t)) (leave_haas env arrivals stop) w2 On
              (λ _ w'. On w') (relay_loop-On (suc t) k w2 (omega arith) (omega arith) v2)
              (λ w3 v3. called-On (Call.ssh_event_remove_session w3.ctx.haas_session) w3 v3))

    pub after_login-On :
        (result : Bool × ℕ) (w : World)
        → On w
        → Ends (after_login env arrivals stop (suc t) result w) (λ _ w'. On w')
    unfolding after_login
    after_login-On result w v =
        when-Ends
          (not result.0
            && not (stop result.1)
            && (not (is_null w.ctx.trap_channel) && w.ctx.authenticated))
          (relay env arrivals stop (suc result.1) (suc t)) w On (λ _. relay-On (suc result.1) w v)
          (λ _. v)
