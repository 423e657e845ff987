-- ===== src/World.antt =====
-- What the proxy (src/proxy.c) works on: the session's context, the heap of forwarded pairs, and
-- the calls that it makes into libssh and the system.
--
-- libssh and the kernel are a parameter, `Env`: the n-th call that a run makes gets the n-th answer,
-- whatever that is. Every call that has an effect outside is recorded, newest first.
pub mod Ends
pub mod Frees
pub mod Leaves
use haa_s_libssh.Common.{
  ℕ, suc, ◌+◌, Bool, true, false, Option, none, some, List, [], ◌∷◌, ◌==◌, if◌then◌else◌,
}
pub use haa_s_libssh.Common.State.{◌>>=◌, ◌>>◌, pure, skip, fault, when}
use haa_s_libssh.Common.Int.{ℤ, nonzero}
use haa_s_libssh.Config.{Bytes, Config}
use haa_s_libssh.FwPair.{FwPair}
use haa_s_libssh.FwPool.{FwPool, Heap}

pub record Timeval : Type 0 where
  pub tv_sec : ℕ
  pub tv_usec : ℕ

-- The callback tables that the proxy hands to libssh. A pair has a table of its own.
pub data CallbackSet : Type 0 where
  trap_session_cb trap_channel_cb haas_channel_cb server_ssh_cb client_ssh_cb : CallbackSet
  pair_cb : ℕ → CallbackSet

pub data SshOption : Type 0 where
  host : Option Bytes → SshOption
  port : ℤ → SshOption
  timeout : ℕ → SshOption
  user : Bytes → SshOption
  log_verbosity : Bytes → SshOption

-- The options of the listening side.
pub data BindOption : Type 0 where
  bind_log_verbosity bind_dsa_key bind_rsa_key bind_ecdsa_key : Bytes → BindOption
  bind_banner : Option Bytes → BindOption

-- The calls of the proxy. A session or channel argument is a handle, or NULL where the code can
-- pass NULL.
pub data Call : Type 0 where
  malloc realloc free_string : Call
  free_pair : ℕ → Call
  usleep : ℕ → Call
  gettimeofday : Call
  getrusage : Call
  ssh_new : Call
  ssh_free ssh_disconnect ssh_connect : ℕ → Call
  ssh_is_blocking : Option ℕ → Call
  ssh_set_blocking : Option ℕ → ℤ → Call
  ssh_options_set : ℕ → SshOption → Call
  ssh_set_callbacks : Option ℕ → Option CallbackSet → Call
  ssh_set_message_callback : Option ℕ → Call
  ssh_set_server_callbacks : Option ℕ → CallbackSet → Call
  ssh_bind_new : Call
  ssh_bind_options_set : Option ℕ → BindOption → Call
  ssh_bind_accept_fd : Option ℕ → Option ℕ → ℕ → Call
  ssh_userauth_none ssh_get_issue_banner ssh_userauth_list : ℕ → Call
  ssh_string_free_char : ℕ → Call
  ssh_userauth_password : ℕ → Bytes → Call
  ssh_channel_new : Option ℕ → Call
  ssh_channel_open_session : ℕ → Call
  ssh_channel_open_forward : ℕ → Bytes → ℤ → Bytes → ℤ → Call
  ssh_message_channel_request_open_reply_accept : Call
  ssh_set_channel_callbacks : ℕ → CallbackSet → Call
  ssh_channel_close ssh_channel_free : Option ℕ → Call
  ssh_channel_is_open ssh_channel_send_eof : Option ℕ → Call
  ssh_channel_set_blocking : ℕ → ℤ → Call
  ssh_channel_poll : Option ℕ → Call
  ssh_handle_key_exchange ssh_set_auth_methods ssh_event_add_session : Option ℕ → Call
  ssh_event_remove_session ssh_blocking_flush : Option ℕ → Call
  ssh_event_new ssh_event_free ssh_bind_free : Call
  ssh_event_dopoll : ℤ → Call
  ssh_channel_write ssh_channel_write_stderr : Option ℕ → Bytes → Call
  ssh_channel_request_pty_size : ℕ → Bytes → ℤ → ℤ → Call
  ssh_channel_change_pty_size : ℕ → ℤ → ℤ → Call
  ssh_channel_request_shell : ℕ → Call
  ssh_channel_request_exec : ℕ → Bytes → Call
  ssh_channel_request_env : ℕ → Bytes → Bytes → Call
  ssh_channel_request_send_signal : ℕ → Bytes → Call
  ssh_channel_request_send_exit_signal : ℕ → Bytes → ℤ → Bytes → Bytes → Call
  ssh_channel_request_send_exit_status : Option ℕ → ℤ → Call

-- The codes of libssh and of the system that the proxy tests or returns, and its test of the password bit in a
-- list of methods.
pub record Codes : Type 0 where
  pub ssh_error : ℤ
  pub ssh_eof : ℤ
  pub ssh_eintr : ℤ
  pub ssh_auth_success : ℤ
  pub ssh_auth_denied : ℤ
  pub ssh_auth_error : ℤ
  pub econnrefused : ℤ
  pub has_password_method : ℤ → Bool

-- The answers: integers, pointers, times, the CPU seconds used, and what `realloc` leaves in new
-- slots (`none` if it fails).
pub record Env : Type 0 where
  pub codes : Codes
  pub open codes use *
  pub int : ℕ → Call → ℤ
  pub ptr : ℕ → Call → Option ℕ
  pub clock : ℕ → Timeval
  pub cpu_sec : ℕ → ℕ
  pub realloc : ℕ → Option (ℕ → Option ℕ)

-- `tSshContext`, without the pointers to the callback tables of the channels, which never change.
-- The address of the client is `sin_addr`, printed, and its port.
pub record Context : Type 0 where
  pub sin_addr : Bytes
  pub sin_port : ℕ
  pub config : Config
  pub trap_session : Option ℕ
  pub trap_channel : Option ℕ
  pub retries : ℕ
  pub error : Bool
  pub authenticated : Bool
  pub closed : Bool
  pub have_pty : Bool
  pub have_shell : Bool
  pub idle_timer : Timeval
  pub session_timer : Timeval
  pub haas_session : Option ℕ
  pub haas_channel : Option ℕ
  pub client_ssh_cb : Option CallbackSet
  pub forward_pool : Option FwPool

-- `tick` counts the calls, and `next` is the first address that `malloc` has not given out.
pub record World : Type 0 where
  pub ctx : Context
  pub heap : Heap
  pub next : ℕ
  pub tick : ℕ
  pub trace : List Call

-- A piece of the program. `none` is a fault: undefined behaviour, such as a write behind a buffer or
-- an access through NULL.
abbrev pub M : Type 0 → Type 0
M A = World → Option (A × World)

abbrev pub context : M Context
context w = some (w.ctx, w)

abbrev pub update : (Context → Context) → M (Unit {0})
update f w = some (tt, record w { ctx = f w.ctx })

-- The world after a call.
abbrev pub called : Call → World → World
called c w = record w { tick = suc w.tick; trace = c ∷ w.trace }

abbrev pub run : Call → M (Unit {0})
run c w = some (tt, called c w)

abbrev pub ask_int : Env → Call → M ℤ
ask_int env c w = some (env.int w.tick c, called c w)

abbrev pub ask_ptr : Env → Call → M (Option ℕ)
ask_ptr env c w = some (env.ptr w.tick c, called c w)

-- Put a pair at an address, or take it away.
abbrev pub store : ℕ → Option FwPair → World → World
store a pair w = record w { heap = λ b. if b == a then pair else w.heap b }

-- The pair at an address; reading freed memory is a fault.
abbrev pub load : ℕ → M FwPair
load a w = elim (w.heap a) [ none ↦ none | some pair ↦ some (pair, w) ]

abbrev pub update_pair : ℕ → (FwPair → FwPair) → M (Unit {0})
update_pair a f w = elim (w.heap a) [
  | none ↦ none
  | some pair ↦ some (tt, store a (some (f pair)) w)
]
