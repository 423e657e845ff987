-- ===== src/Proxy/Timers.antt =====
-- src/proxy.c: the timers and the limit on CPU time. A timer is the moment at which it runs out.
pub mod Exact
pub mod Timed
use haa_s_libssh.Common.{
  ℕ, suc, ◌+◌, ◌-◌, ◌*◌, ◌/◌, ◌^◌, ◌≤◌, ◌<◌, ◌≡◌, refl, Bool, true, false, some, not, ◌||◌, ◌&&◌,
  List, arith, ltb, ◌==◌, if◌then◌else◌,
}
use haa_s_libssh.Common.Int.{
  ℤ, pos, negsuc, pos_part, neg_part, ◌+ℤ◌, ◌-ℤ◌, ◌*ℤ◌, ltb_ℤ, nonzero, int32, int32_fits,
}
use haa_s_libssh.Config.{Config}
use haa_s_libssh.World.{
  Timeval, Call, Env, Context, World, M, ◌>>=◌, ◌>>◌, pure, skip, when, context, update, called,
  run, ask_int,
}

-- `timercmp(a, b, <)`.
abbrev pub earlier : Timeval → Timeval → Bool
earlier a b = ltb a.tv_sec b.tv_sec || (a.tv_sec == b.tv_sec && ltb a.tv_usec b.tv_usec)

-- The arithmetic of `TimerGet`, assignment by assignment: `Back` is an int.
unfoldable pub remaining : Timeval → Timeval → ℤ
remaining timer now =
    let b1 = int32 (pos timer.tv_sec) in
    let b2 = int32 (b1 -ℤ pos now.tv_sec) in
    let b3 = int32 (b2 *ℤ pos 1000) in
    let b4 = int32 (b3 +ℤ pos (timer.tv_usec / 1000)) in int32 (b4 -ℤ pos (now.tv_usec / 1000))

module _ (env : Env) where
  abbrev pub get_time : M Timeval
  get_time w = some (env.clock w.tick, called Call.gettimeofday w)

  -- `TimerStart`. The clock counts from 1970, so that the sum with a negative number stays above 0.
  unfoldable pub timer_start : ℤ → M Timeval
  timer_start sec = do
    now ← get_time
    pure (record now { tv_sec = now.tv_sec + pos_part sec - neg_part sec })

  -- `TimerGet`: the milliseconds left, or 0.
  unfoldable pub timer_get : Timeval → M ℤ
  unfolding remaining
  timer_get timer = do
    now ← get_time
    pure (if earlier now timer then remaining timer now else pos 0)

  -- `IdleTimerReset`.
  unfoldable pub idle_timer_reset : M (Unit {0})
  unfolding timer_start
  idle_timer_reset = do
    c ← context
    timer ← timer_start c.config.idle_timeout
    update (λ c. record c { idle_timer = timer })

  -- `IdleTimerGet`.
  unfoldable pub idle_timer_get : M ℤ
  unfolding timer_get
  idle_timer_get = do c ← context; timer_get c.idle_timer

  -- The answer of `getrusage`: an error stops the session too.
  cpu_within : ℤ → M Bool
  cpu_within limit w =
      let error = nonzero (env.int w.tick Call.getrusage) in
      let over = ltb_ℤ limit (pos (env.cpu_sec w.tick)) in
      some (not error && not over, called Call.getrusage w)

  -- `CheckUsage`: whether the process may go on.
  unfoldable pub check_usage : M Bool
  unfolding cpu_within
  check_usage = do
    c ← context
    if ltb_ℤ (pos 0) c.config.cpu_usage then cpu_within c.config.cpu_usage else pure true
