-- ===== src/Proxy/Timers/Timed.antt =====
-- src/proxy.c: the timer of the session while calls are made.
use haa_s_libssh.Common.{ℕ, ◌≤◌, ◌≡◌}
use haa_s_libssh.Config.{Config}
use haa_s_libssh.World.{Timeval, World}

-- The session's timer and its configuration are these, and at least `lo` calls were made.
abbrev pub Timed : Timeval → Config → ℕ → World → Type 0
Timed timer config lo w = (w.ctx.session_timer ≡ timer) × (w.ctx.config ≡ config) × (lo ≤ w.tick)
