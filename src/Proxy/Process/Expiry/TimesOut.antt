-- ===== src/Proxy/Process/Expiry/TimesOut.antt =====
-- src/proxy.c, `ProxyProcess`: a session with a timeout ends, even if the process is never told to stop.
use haa_s_libssh.Common.{
  ℕ, suc, ◌+◌, ◌-◌, ◌≤◌, ◌<◌, ◌≡◌, refl, ap, ◌∙◌, Bool, true, false, not, Option, List, ◌∷◌, arith,
}
use haa_s_libssh.Common.Ends.{Ends-leaves}
use haa_s_libssh.Common.Int.{pos, ltb_ℤ, nonzero, pos_part, neg_part}
use haa_s_libssh.Config.{Bytes, Config}
use haa_s_libssh.World.{Timeval, Call, Env, Context, World, called, update, when, ◌>>=◌}
use haa_s_libssh.World.Ends.{Ends, >>=-Ends, >>-Ends, when-Ends}
use haa_s_libssh.World.Leaves.{Leaves}
use haa_s_libssh.Proxy.Timers.{idle_timer_reset, timer_start}
use haa_s_libssh.Proxy.Timers.Exact.{micros}
use haa_s_libssh.Proxy.Timers.Timed.{Timed}
use haa_s_libssh.Proxy.Forward.Register.{HasMemory}
use haa_s_libssh.Proxy.Events.Sound.{IsSound, Ready}
use haa_s_libssh.Proxy.Session.{start_context}
use haa_s_libssh.Proxy.Session.Runs.{start_world, start-IsSound}
use haa_s_libssh.Proxy.Process.{
  Arrivals, login_loop, after_login, start_timers, main_loop, teardown, proxy_process,
}
use haa_s_libssh.Proxy.Process.Rounds.{called-IsSound, start_timers-IsSound}
use haa_s_libssh.Proxy.Process.Ending.{AllReleased, teardown-AllReleased}
use haa_s_libssh.Proxy.Process.Expiry.Loops.{On, login_loop-On, after_login-On}

config-start_context :
    (addr : Bytes) (port : ℕ) (config : Config) (session : Option ℕ)
    → (start_context addr port config session true).config ≡ config
unfolding start_context
config-start_context addr port config session = refl

module _ (env : Env) (arrivals : Arrivals) (stop : ℕ → Bool) (mem : HasMemory env)
    (ready : (n : ℕ) (w : World) → IsSound w → Ready w (arrivals.event_at n w))
    (clock_small : (n : ℕ) → (env.clock n).tv_usec < 1000000) where
  -- The moment at which a session that starts its timer at `now` has to end.
  abbrev deadline : Config → Timeval → Timeval
  deadline config now = record now {
    tv_sec = now.tv_sec + pos_part config.session_timeout - neg_part config.session_timeout;
  }

  start_timers-Timed :
      (config : Config) (w : World)
      → ltb_ℤ (pos 0) config.session_timeout ≡ true
      → w.ctx.config ≡ config
      → Leaves
          (start_timers env arrivals stop w)
          (Timed (deadline config (env.clock (suc w.tick))) config 0)
  unfolding start_timers idle_timer_reset timer_start
  start_timers-Timed config w limited c =
      started (ltb_ℤ (pos 0) w.ctx.config.session_timeout)
        (ap (λ (k : Config). ltb_ℤ (pos 0) k.session_timeout) c ∙ limited)
    where
      idle : World
      idle = record w {
        ctx = record w.ctx {
          idle_timer = record (env.clock w.tick) {
            tv_sec =
                (env.clock w.tick).tv_sec
                + pos_part w.ctx.config.idle_timeout
                - neg_part w.ctx.config.idle_timeout;
          };
        };
        tick = suc w.tick;
        trace = Call.gettimeofday ∷ w.trace;
      }

      started :
          (b : Bool)
          → b ≡ true
          → Leaves
              (when b
                (timer_start env w.ctx.config.session_timeout >>= λ timer.
                  update (λ (d : Context). record d { session_timer = timer }))
                idle)
              (Timed (deadline config (env.clock (suc w.tick))) config 0)
      started true e = (ap (λ k. deadline k (env.clock (suc w.tick))) c, c, omega arith)
      started false e = cc

  main_loop-IsSound :
      (config : Config) (t : ℕ) (w : World)
      → ltb_ℤ (pos 0) config.session_timeout ≡ true
      → ((n : ℕ)
          → t ≤ n
          → micros (deadline config (env.clock (suc (suc (suc (suc w.tick))))))
            ≤ micros (env.clock n))
      → w.ctx.config ≡ config
      → IsSound w
      → Ends (main_loop env arrivals stop (suc t) w) (λ _ w'. IsSound w')
  unfolding main_loop
  main_loop-IsSound config t w limited late c v =
      let w1 =
        called (Call.ssh_event_add_session w.ctx.trap_session)
          (called Call.ssh_event_new (called (Call.ssh_set_auth_methods w.ctx.trap_session) w)) in
      let T = deadline config (env.clock (suc w1.tick)) in
      let Going : World → Type 0 =
        On env arrivals stop mem ready clock_small T config t limited (clock_small (suc w1.tick))
          late in
      let sound : (c : Call) (x : World) → IsSound x → IsSound (called c x) =
        called-IsSound env arrivals stop mem ready in
      >>-Ends (start_timers env arrivals stop) _ w1 Going (λ _ w'. IsSound w')
        (Ends-leaves (start_timers env arrivals stop w1) (λ _ w'. IsSound w') (Timed T config 0)
          (start_timers-IsSound env arrivals stop mem ready w1
            (sound _ _ (sound _ _ (sound _ w v))))
          (start_timers-Timed config w1 limited c))
        (λ w2 v2.
          >>=-Ends (login_loop env arrivals stop 0 (suc t)) _ w2 (λ r w'. Going w')
            (λ _ w'. IsSound w')
            (login_loop-On env arrivals stop mem ready clock_small T config t limited
              (clock_small (suc w1.tick)) late (suc t) 0 w2 (omega arith) (omega arith) v2)
            (λ result w3 v3.
              >>-Ends (after_login env arrivals stop (suc t) result) _ w3 Going (λ _ w'. IsSound w')
                (after_login-On env arrivals stop mem ready clock_small T config t limited
                  (clock_small (suc w1.tick)) late result w3 v3)
                (λ w4 v4. sound _ _ (sound _ w4 v4.0))))

  -- A session with a timeout ends by itself: with no fault in its own memory, and with no pair of its
  -- pool left on the heap, even if the process is never told to stop and however the attacker keeps it
  -- busy. The clock passes every moment sooner or later, with microseconds below a million; each call
  -- returns; there is memory; and the callbacks are, in a sound session, for pairs that are not freed
  -- and with passwords that fit the buffer. It holds from the key exchange on, for the context that
  -- `ProxyProcess` prepares, and for some amount of fuel for its loops.
  pub proxy_process_times_out :
      (addr : Bytes) (port : ℕ) (config : Config) (session : Option ℕ) (next tick : ℕ)
      (trace : List Call)
      → ltb_ℤ (pos 0) config.session_timeout ≡ true
      → ((s : ℕ) → (t : ℕ) × ((n : ℕ) → t ≤ n → s ≤ micros (env.clock n)))
      → (fuel : ℕ) × Ends
          (proxy_process env arrivals stop fuel
            (start_world (start_context addr port config session true) next tick trace))
          (λ _ w'. AllReleased w')
  unfolding proxy_process
  proxy_process_times_out addr port config session next tick trace limited passes =
      let w = start_world (start_context addr port config session true) next tick trace in
      let v = start-IsSound addr port config session next tick trace in
      let call = Call.ssh_handle_key_exchange w.ctx.trap_session in
      let w1 = called call w in
      let v1 = called-IsSound env arrivals stop mem ready call w v in
      let (t, late) =
        passes (micros (deadline config (env.clock (suc (suc (suc (suc (suc tick)))))))) in
      (
        suc t,
        >>-Ends (when (not (nonzero (env.int w.tick call))) (main_loop env arrivals stop (suc t)))
            (teardown env arrivals stop) w1 IsSound (λ _ w'. AllReleased w')
            (when-Ends (not (nonzero (env.int w.tick call))) (main_loop env arrivals stop (suc t))
              w1 IsSound
              (λ _.
                main_loop-IsSound config t w1 limited late
                  (config-start_context addr port config session) v1)
              (λ _. v1))
            (λ w2 v2. teardown-AllReleased env arrivals stop w2 v2),
      )
