-- ===== src/Proxy/Timers/Exact.antt =====
-- src/proxy.c, `TimerGet`: how exact the time left is, and where its int wraps.
use haa_s_libssh.Common.{ℕ, ◌+◌, ◌-◌, ◌*◌, ◌/◌, ◌^◌, ◌≤◌, ◌<◌, ◌≡◌, refl, true, some, arith}
use haa_s_libssh.Common.Int.{
  pos, negsuc, int32_pos, int32_wrapped, int32_negsuc, add_negsuc, sub_negsuc, add_pos, sub_pos,
  mul_pos,
}
use haa_s_libssh.World.{Timeval, Call, Env, World, called}
use haa_s_libssh.Proxy.Timers.{earlier, remaining, timer_get}

abbrev whole_ms : Timeval → Timeval → ℕ
whole_ms timer now = (timer.tv_sec - now.tv_sec) * 1000 + timer.tv_usec / 1000 - now.tv_usec / 1000

remaining_lem :
    (timer now : Timeval)
    → timer.tv_sec < 2 ^ 31
    → timer.tv_usec < 1000000
    → now.tv_usec < 1000000
    → timer.tv_sec ≤ now.tv_sec + 2147482
    → now.tv_sec ≤ timer.tv_sec
    → now.tv_usec / 1000 ≤ (timer.tv_sec - now.tv_sec) * 1000 + timer.tv_usec / 1000
    → remaining timer now ≡ pos (whole_ms timer now)
unfolding remaining
remaining_lem timer now a b c d e f =
    let seconds = timer.tv_sec - now.tv_sec in
    rw (
      int32_pos timer.tv_sec a,
      sub_pos timer.tv_sec now.tv_sec e,
      int32_pos seconds (omega arith),
      mul_pos seconds 1000,
      int32_pos (seconds * 1000) (omega arith),
      add_pos (seconds * 1000) (timer.tv_usec / 1000),
      int32_pos (seconds * 1000 + timer.tv_usec / 1000) (omega arith),
      sub_pos (seconds * 1000 + timer.tv_usec / 1000) (now.tv_usec / 1000) f,
      int32_pos (whole_ms timer now) (omega arith),
    )

-- A moment in microseconds.
abbrev pub micros : Timeval → ℕ
micros t = t.tv_sec * 1000000 + t.tv_usec

-- At a timer's moment and later `TimerGet` is 0. The microseconds of both times are below a
-- million.
pub timer_get_expired :
    (env : Env) (timer : Timeval) (w : World)
    → timer.tv_usec < 1000000
    → (env.clock w.tick).tv_usec < 1000000
    → micros timer ≤ micros (env.clock w.tick)
    → timer_get env timer w ≡ some (pos 0, called Call.gettimeofday w)
unfolding timer_get
timer_get_expired env timer w b c over = ground arith

-- Before a timer's moment, where the timer lies before 2038 and at most 2147482 whole seconds
-- ahead, `TimerGet` gives a number of milliseconds that differs from the exact time left by less
-- than one millisecond, and that is not negative. The microseconds of both times are below a
-- million.
pub timer_get_exact :
    (env : Env) (timer : Timeval) (w : World)
    → timer.tv_sec < 2 ^ 31
    → timer.tv_usec < 1000000
    → (env.clock w.tick).tv_usec < 1000000
    → timer.tv_sec ≤ (env.clock w.tick).tv_sec + 2147482
    → micros (env.clock w.tick) < micros timer
    → (ms : ℕ) × (timer_get env timer w ≡ some (pos ms, called Call.gettimeofday w))
      × (micros (env.clock w.tick) + ms * 1000 < micros timer + 1000)
      × (micros timer < micros (env.clock w.tick) + ms * 1000 + 1000)
unfolding timer_get
timer_get_exact env timer w a b c d left =
    let now = env.clock w.tick in
    let before : earlier now timer ≡ true = ground arith in
    (
      whole_ms timer now,
      rw (before, remaining_lem timer now a b c d (ground arith) (ground arith)) refl,
      ground arith,
      ground arith,
    )

abbrev wrapped_ms : Timeval → Timeval → ℕ
wrapped_ms timer now =
    2 ^ 32 - (timer.tv_sec - now.tv_sec) * 1000 - 1 - timer.tv_usec / 1000 + now.tv_usec / 1000

remaining_wraps :
    (timer now : Timeval)
    → timer.tv_sec < 2 ^ 31
    → timer.tv_usec < 1000000
    → now.tv_usec < 1000000
    → now.tv_sec + 2147485 ≤ timer.tv_sec
    → timer.tv_sec ≤ now.tv_sec + 4294965
    → remaining timer now ≡ negsuc (wrapped_ms timer now)
unfolding remaining
remaining_wraps timer now a b c d e =
    let seconds = timer.tv_sec - now.tv_sec in
    let below = 2 ^ 32 - seconds * 1000 - 1 in
    rw (
      int32_pos timer.tv_sec a,
      sub_pos timer.tv_sec now.tv_sec (omega arith),
      int32_pos seconds (omega arith),
      mul_pos seconds 1000,
      int32_wrapped (seconds * 1000) (omega arith) (omega arith),
      add_negsuc below (timer.tv_usec / 1000) (omega arith),
      int32_negsuc (below - timer.tv_usec / 1000) (omega arith),
      sub_negsuc (below - timer.tv_usec / 1000) (now.tv_usec / 1000),
      int32_negsuc (below - timer.tv_usec / 1000 + now.tv_usec / 1000) (omega arith),
    )

-- For a timer before 2038 whose seconds lie from 2147485 to 4294965 ahead of the clock's, the int
-- of `TimerGet`, taken to wrap around, comes out negative. The microseconds of both times are below
-- a million.
pub timer_get_wraps :
    (env : Env) (timer : Timeval) (w : World)
    → timer.tv_sec < 2 ^ 31
    → timer.tv_usec < 1000000
    → (env.clock w.tick).tv_usec < 1000000
    → (env.clock w.tick).tv_sec + 2147485 ≤ timer.tv_sec
    → timer.tv_sec ≤ (env.clock w.tick).tv_sec + 4294965
    → (n : ℕ) × (timer_get env timer w ≡ some (negsuc n, called Call.gettimeofday w))
unfolding timer_get
timer_get_wraps env timer w a b c d e =
    let now = env.clock w.tick in
    let before : earlier now timer ≡ true = ground arith in
    (wrapped_ms timer now, rw (before, remaining_wraps timer now a b c d e) refl)
