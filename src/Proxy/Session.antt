-- ===== src/Proxy/Session.antt =====
-- src/proxy.c, `ProxyProcess`: the context that a session starts with.
pub mod Runs
use haa_s_libssh.Common.{
  ℕ, Bool, true, false, not, ◌||◌, Option, none, some, List, [], if◌then◌else◌,
}
use haa_s_libssh.Common.Int.{ℤ, eqb_ℤ}
use haa_s_libssh.Config.{Bytes, Config, forward_mode_deny, forward_mode_fake}
use haa_s_libssh.FwPool
use haa_s_libssh.World.{Timeval, Env, Context, World}

-- A `struct timeval` of zeros.
abbrev pub no_time : Timeval
no_time = record { tv_sec = 0; tv_usec = 0 }

-- The pool is made in the modes that forward something; `allocated` tells whether `malloc` gave
-- a block for it.
abbrev pub start_pool : Config → Bool → Option FwPool.FwPool
start_pool config allocated =
    if eqb_ℤ config.forward_mode forward_mode_deny || eqb_ℤ config.forward_mode forward_mode_fake
    then none
    else FwPool.init allocated

-- The context is cleared and then filled in. `ClientSshCB` is assigned to itself and so stays NULL.
unfoldable pub start_context : Bytes → ℕ → Config → Option ℕ → Bool → Context
start_context addr port config session allocated = record {
  sin_addr = addr;
  sin_port = port;
  config = config;
  trap_session = session;
  trap_channel = none;
  retries = 0;
  error = false;
  authenticated = false;
  closed = false;
  have_pty = false;
  have_shell = false;
  idle_timer = no_time;
  session_timer = no_time;
  haas_session = none;
  haas_channel = none;
  client_ssh_cb = none;
  forward_pool = start_pool config allocated;
}
