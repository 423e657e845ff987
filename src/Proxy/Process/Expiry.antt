-- ===== src/Proxy/Process/Expiry.antt =====
-- src/proxy.c, `ProxyProcess`: when the timer of the session has run out, the session ends by itself.
pub mod Loops
pub mod TimesOut
use native.Mathlib.Decide.{dec_le}
use haa_s_libssh.Common.{
  ℕ, zero, suc, ◌+◌, ◌≤◌, ◌<◌, ◌≡◌, refl, ap, sym, subst, ◌∙◌, Bool, true, false, not, Option, none,
  some, if◌then◌else◌, Bool-cases, inl, inr, arith,
}
use haa_s_libssh.Common.Ends.{Gives, give_on, if-Gives, Leaves-Gives}
use haa_s_libssh.Common.Int.{ℤ, pos, eqb_ℤ, ltb_ℤ}
use haa_s_libssh.Config.{Config}
use haa_s_libssh.World.{
  Timeval, Call, Env, Context, World, M, called, ask_int, pure, ◌>>◌, ◌>>=◌, context,
}
use haa_s_libssh.World.Ends.{Ends, Ends-mono, >>=-Ends, >>-Ends, if-Ends, when-Ends}
use haa_s_libssh.World.Leaves.{Leaves, >>=-Leaves, >>-Leaves}
use haa_s_libssh.Proxy.Timers.{timer_get, idle_timer_get, check_usage}
use haa_s_libssh.Proxy.Timers.Exact.{micros, timer_get_expired}
use haa_s_libssh.Proxy.Timers.Timed.{Timed}
use haa_s_libssh.Proxy.Forward.Register.{HasMemory}
use haa_s_libssh.Proxy.Events.{handle, forwards_step}
use haa_s_libssh.Proxy.Events.Timed.{handle-Timed, forwards_step-Timed}
use haa_s_libssh.Proxy.Events.Sound.{IsSound, IsSound-Calm, Ready}
use haa_s_libssh.Proxy.Process.{
  Arrivals, Verdict, again, failed, leave, deliver, dopoll, shorter, session_time, wait_time,
  login_verdict, relay_verdict, login_poll, login_wait, login_round, relay_poll, relay_flush,
  relay_round,
}

clash : (b : Bool) → b ≡ true → b ≡ false → ⊥
clash true h k = cc
clash false h k = cc

module _ (env : Env) (arrivals : Arrivals) (stop : ℕ → Bool) (timer : Timeval)
    (config : Config) where
  deliver-Timed :
      (lo n : ℕ) (w : World)
      → Timed timer config lo w
      → Leaves (deliver env arrivals stop n w) (Timed timer config lo)
  unfolding deliver
  deliver-Timed lo zero w v = v
  deliver-Timed lo (suc n) w v =
      >>-Leaves (handle env (arrivals.event_at n w)) (deliver env arrivals stop n) w
        (Timed timer config lo) (Timed timer config lo)
        (handle-Timed env timer config lo (arrivals.event_at n w) w v)
        (λ w1 v1. deliver-Timed lo n w1 v1)

  dopoll-Timed :
      (lo : ℕ) (time : ℤ) (w : World)
      → Timed timer config lo w
      → Leaves (dopoll env arrivals stop time w) (Timed timer config (suc lo))
  unfolding dopoll
  dopoll-Timed lo time w v =
      >>-Leaves (deliver env arrivals stop (arrivals.amount w.tick))
        (ask_int env (Call.ssh_event_dopoll time)) w (Timed timer config lo)
        (Timed timer config (suc lo)) (deliver-Timed lo (arrivals.amount w.tick) w v)
        (λ w1 (s, c, le). (s, c, omega arith))

  check_usage-Timed :
      (lo : ℕ) (w : World)
      → Timed timer config lo w
      → Leaves (check_usage env w) (Timed timer config lo)
  unfolding check_usage
  check_usage-Timed lo w v = ground arith

  relay_flush-Timed :
      (lo : ℕ) (w : World)
      → Timed timer config lo w
      → Leaves (relay_flush env arrivals stop w) (Timed timer config lo)
  unfolding relay_flush
  relay_flush-Timed lo w (s, c, le) =
      let w1 =
        called (Call.ssh_channel_poll w.ctx.haas_channel)
          (called (Call.ssh_channel_poll w.ctx.trap_channel) w) in
      >>-Leaves (forwards_step env) _ w1 (Timed timer config lo) (Timed timer config lo)
        (forwards_step-Timed env timer config lo w1 (s, c, omega arith))
        (λ w2 (s2, c2, le2). (s2, c2, omega arith))

  module _ (t : ℕ) (limited : ltb_ℤ (pos 0) config.session_timeout ≡ true)
      (small : timer.tv_usec < 1000000) (clock_small : (n : ℕ) → (env.clock n).tv_usec < 1000000)
      (late : (n : ℕ) → t ≤ n → micros timer ≤ micros (env.clock n)) where
    -- A time to wait is found only among the first `t` calls.
    abbrev Waited : ℕ → Option ℤ → World → Type 0
    Waited lo none w = Timed timer config lo w
    Waited lo (some time) w = Timed timer config lo w × (lo < t)

    Waited-early :
        (lo : ℕ) (r : Option ℤ) (w : World) → lo < t → Timed timer config lo w → Waited lo r w
    Waited-early lo none w early v = v
    Waited-early lo (some time) w early v = (v, early)

    timer_get-Timed :
        (lo : ℕ) (T : Timeval) (w : World)
        → Timed timer config lo w
        → Gives (timer_get env T w) (λ _ w'. Timed timer config lo w')
    unfolding timer_get
    timer_get-Timed lo T w (s, c, le) = (s, c, omega arith)

    run_out :
        (w : World)
        → w.ctx.session_timer ≡ timer
        → t ≤ w.tick
        → timer_get env w.ctx.session_timer w ≡ some (pos 0, called Call.gettimeofday w)
    run_out w s expired =
        subst (λ T. timer_get env T w ≡ some (pos 0, called Call.gettimeofday w)) (sym s)
          (timer_get_expired env timer w small (clock_small w.tick) (late w.tick expired))

    session_time-Waited :
        (lo : ℕ) (time : ℤ) (w : World)
        → Timed timer config lo w
        → Gives (session_time env arrivals stop time w) (Waited lo)
    unfolding session_time shorter
    session_time-Waited lo time w (s, c, le) = elim (dec_le t w.tick) [
      | yes expired ↦
          give_on (λ i. pure (shorter env arrivals stop i time))
            (λ i w'. (i ≡ pos 0) × Timed timer config lo w') (Waited lo)
            (timer_get env w.ctx.session_timer w)
            (subst (λ r. Gives r (λ i w'. (i ≡ pos 0) × Timed timer config lo w'))
              (sym (run_out w s expired)) (refl, (s, c, omega arith)))
            (λ i w1 (e, v1). rw e v1)
      | no early ↦
          give_on (λ i. pure (shorter env arrivals stop i time)) (λ _ w'. Timed timer config lo w')
            (Waited lo) (timer_get env w.ctx.session_timer w)
            (timer_get-Timed lo w.ctx.session_timer w (s, c, le))
            (λ i w1 v1. Waited-early lo (shorter env arrivals stop i time) w1 (omega arith) v1)
    ]

    wait_time-Waited :
        (lo : ℕ) (w : World)
        → Timed timer config lo w
        → Gives (wait_time env arrivals stop w) (Waited lo)
    unfolding wait_time idle_timer_get
    wait_time-Waited lo w v =
        let limit : Bool = ltb_ℤ (pos 0) w.ctx.config.session_timeout in
        let rest : ℤ → M (Option ℤ) =
          λ time. if limit then session_time env arrivals stop time else pure (some time) in
        give_on (λ time. if eqb_ℤ time (pos 0) then pure none else rest time)
          (λ _ w'. Timed timer config lo w') (Waited lo) (timer_get env w.ctx.idle_timer w)
          (timer_get-Timed lo w.ctx.idle_timer w v)
          (λ time w1 v1.
            if-Gives (eqb_ℤ time (pos 0)) (pure none) (rest time) w1 (Waited lo) (λ _. v1)
              (λ _.
                if-Gives limit (session_time env arrivals stop time) (pure (some time)) w1
                  (Waited lo) (λ _. session_time-Waited lo time w1 v1)
                  (λ unlimited. absurd (
                    clash limit (ap (λ (k : Config). ltb_ℤ (pos 0) k.session_timeout) v.1 ∙ limited)
                      unlimited))))

    -- Another round comes only after a call among the first `t`.
    abbrev pub Round : ℕ → Verdict → World → Type 0
    Round lo again w = Timed timer config (suc lo) w × (lo < t)
    Round lo verdict w = Timed timer config lo w

    rounded :
        (lo : ℕ) (verdict : Verdict) (w : World)
        → lo < t
        → Timed timer config (suc lo) w
        → Round lo verdict w
    rounded lo again w early v = (v, early)
    rounded lo failed w early (s, c, le) = (s, c, omega arith)
    rounded lo leave w early (s, c, le) = (s, c, omega arith)

    login_poll-Round :
        (lo : ℕ) (r : Option ℤ) (w : World)
        → Waited lo r w
        → Gives (login_poll env arrivals stop r w) (Round lo)
    unfolding login_poll
    login_poll-Round lo none w v = v
    login_poll-Round lo (some time) w (v, early) =
        give_on _ (λ _ w'. Timed timer config (suc lo) w') (Round lo)
          (dopoll env arrivals stop time w)
          (Leaves-Gives (dopoll env arrivals stop time w) (Timed timer config (suc lo))
            (dopoll-Timed lo time w v))
          (λ ret w1 v1. rounded lo (login_verdict env arrivals stop ret w1.ctx) w1 early v1)

    login_wait-Round :
        (lo : ℕ) (usage : Bool) (w : World)
        → Timed timer config lo w
        → Gives (login_wait env arrivals stop usage w) (Round lo)
    unfolding login_wait
    login_wait-Round lo false w v = v
    login_wait-Round lo true w v =
        give_on (login_poll env arrivals stop) (Waited lo) (Round lo)
          (wait_time env arrivals stop w) (wait_time-Waited lo w v)
          (λ r w1 v1. login_poll-Round lo r w1 v1)

    pub login_round-Round :
        (lo : ℕ) (w : World)
        → Timed timer config lo w
        → Gives (login_round env arrivals stop w) (Round lo)
    unfolding login_round
    login_round-Round lo w v =
        give_on (login_wait env arrivals stop) (λ _ w'. Timed timer config lo w') (Round lo)
          (check_usage env w)
          (Leaves-Gives (check_usage env w) (Timed timer config lo) (check_usage-Timed lo w v))
          (λ usage w1 v1. login_wait-Round lo usage w1 v1)

    relay_poll-Round :
        (lo : ℕ) (r : Option ℤ) (w : World)
        → Waited lo r w
        → Gives (relay_poll env arrivals stop r w) (Round lo)
    unfolding relay_poll
    relay_poll-Round lo none w v = v
    relay_poll-Round lo (some time) w (v, early) =
        give_on _ (λ _ w'. Timed timer config (suc lo) w') (Round lo)
          (dopoll env arrivals stop time w)
          (Leaves-Gives (dopoll env arrivals stop time w) (Timed timer config (suc lo))
            (dopoll-Timed lo time w v))
          (λ ret w1 v1. rounded lo (relay_verdict env arrivals stop ret w1.ctx) w1 early v1)

    pub relay_round-Round :
        (lo : ℕ) (w : World)
        → Timed timer config lo w
        → Gives (relay_round env arrivals stop w) (Round lo)
    unfolding relay_round
    relay_round-Round lo w v =
        give_on (λ _. wait_time env arrivals stop >>= relay_poll env arrivals stop)
          (λ _ w'. Timed timer config lo w') (Round lo) (relay_flush env arrivals stop w)
          (Leaves-Gives (relay_flush env arrivals stop w) (Timed timer config lo)
            (relay_flush-Timed lo w v))
          (λ _ w1 v1.
            give_on (relay_poll env arrivals stop) (Waited lo) (Round lo)
              (wait_time env arrivals stop w1) (wait_time-Waited lo w1 v1)
              (λ r w2 v2. relay_poll-Round lo r w2 v2))
