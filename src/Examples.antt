-- ===== src/Examples.antt =====
-- A small session to try the handlers on: the answers of libssh and of the system, a configuration
-- and a state with two forwarded connections.
pub mod Pool
pub mod Sessions
pub mod Requests
pub mod Runs
pub mod Options
pub mod Logs
pub mod Servers
use haa_s_libssh.Common.{◌+◌, ℕ, zero, suc, Bool, true, false, Option, none, some, List, [], ◌∷◌}
use haa_s_libssh.Common.Int.{ℤ, pos, negsuc, minus_one}
use haa_s_libssh.Config.{Bytes, Config, codes, forward_mode_echo}
use haa_s_libssh.FwPair.{FwEndpoint, FwPair}
use haa_s_libssh.FwPool.{FwPool, Heap}
use haa_s_libssh.World.{Timeval, Call, Codes, Env, Context, World}

abbrev answer : ℕ → Call → ℤ
answer n Call.malloc = pos 1
answer n (Call.ssh_userauth_none session) = pos 1
answer n (Call.ssh_channel_open_forward channel host port from from_port) = pos 1
answer n (Call.ssh_channel_is_open channel) = pos 1
answer n (Call.ssh_channel_poll channel) = negsuc 126
answer n _ = pos 0

abbrev handle : ℕ → Call → Option ℕ
handle n Call.ssh_new = some 7
handle n (Call.ssh_channel_new session) = some (40 + n)
handle n Call.ssh_message_channel_request_open_reply_accept = some 30
handle n _ = none

abbrev pub codes_of_libssh : Codes
codes_of_libssh = record {
  ssh_error = minus_one;
  ssh_eof = negsuc 126;
  ssh_eintr = negsuc 1;
  ssh_auth_success = pos 0;
  ssh_auth_denied = pos 1;
  ssh_auth_error = minus_one;
  econnrefused = pos 111;
  has_password_method = λ method. true;
}

abbrev pub env : Env
env = record {
  codes = codes_of_libssh;
  int = answer;
  ptr = handle;
  clock = λ n. record { tv_sec = 1000 + n; tv_usec = 500 };
  cpu_sec = λ n. 0;
  realloc = λ n. some (λ i. none);
}

abbrev pub config : ℤ → Config
config mode = record {
  want_help = false;
  foreground = false;
  debug_level = 0;
  idle_timeout = pos 600;
  session_timeout = pos 3600;
  cpu_usage = pos 5;
  process_nice = pos 10;
  conn_limit = pos 100;
  trap_log = none;
  haas_log = none;
  trap_port = pos 2222;
  forward_mode = mode;
  banner = none;
  keys_dir = some (codes "keys");
  haas_addr = some (codes "haas");
  haas_port = pos 10000;
  haas_token = some (codes "T");
}

-- A pair with a channel at each end, or at the source only.
abbrev pub pair_of : ℕ → Option ℕ → Bool → FwPair
pair_of s d closed = record {
  context = true;
  closed = closed;
  source = record { addr = some (codes "a"); port = pos 1; channel = some s };
  destiny = record { addr = some (codes "b"); port = pos 2; channel = d };
  userdata = 0;
}

abbrev pub heap : Heap
heap zero = some (pair_of 20 (some 21) false)
heap (suc zero) = some (pair_of 22 none true)
heap (suc (suc b)) = none

-- Two pairs in ten slots.
abbrev pub pool : FwPool
pool = record {
  used = 2;
  alloc = 10;
  items = some 0 ∷ some 1 ∷ none ∷ none ∷ none ∷ none ∷ none ∷ none ∷ none ∷ none ∷ [];
}

-- The state in a forward mode, with the attacker's channel if it is open.
abbrev pub world : ℤ → Option ℕ → World
world mode channel = record {
  ctx = record {
    sin_addr = codes "10.0.0.1";
    sin_port = 54321;
    config = config mode;
    trap_session = some 3;
    trap_channel = channel;
    retries = 2;
    error = false;
    authenticated = false;
    closed = false;
    have_pty = true;
    have_shell = false;
    idle_timer = record { tv_sec = 1600; tv_usec = 0 };
    session_timer = record { tv_sec = 4600; tv_usec = 0 };
    haas_session = some 5;
    haas_channel = channel;
    client_ssh_cb = none;
    forward_pool = some pool;
  };
  heap = heap;
  next = 2;
  tick = 0;
  trace = [];
}
