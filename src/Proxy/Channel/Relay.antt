-- ===== src/Proxy/Channel/Relay.antt =====
-- src/proxy.c: what the callbacks of the attacker's channel send to the HaaS server, and what they
-- change.
use haa_s_libssh.Common.{
  ℕ, ◌≡◌, true, false, none, some, List, [], ◌∷◌, ◌++◌, ◌↔◌, ◌⊎◌, arith, if◌then◌else◌,
}
use haa_s_libssh.Common.Int.{ℤ, pos}
use haa_s_libssh.World.{Call, Env, Context, World}
use haa_s_libssh.World.Ends.{Ends}
use haa_s_libssh.Proxy.Channel.{
  ChannelEvent, pty_request, pty_window_change, env_request, shell_request, exec_request, signal,
  exit_signal, exit_status, incoming, eof, close, trap_channel,
}

-- The calls on the HaaS channel `h` that repeat an event, newest first; `mode` is the blocking mode
-- of the HaaS session. A second terminal or shell is not asked for, a subsystem, an agent and X11
-- are not passed on.
abbrev pub passed_on : Context → ℤ → ℕ → ChannelEvent → List Call
passed_on c mode h (pty_request term x y) =
    if c.have_pty then [] else Call.ssh_channel_request_pty_size h term x y ∷ []
passed_on c mode h (pty_window_change width height) =
    if c.have_pty then Call.ssh_channel_change_pty_size h width height ∷ [] else []
passed_on c mode h (env_request env_name env_value) =
    Call.ssh_channel_request_env h env_name env_value ∷ []
passed_on c mode h shell_request =
    if c.have_shell then [] else Call.ssh_channel_request_shell h ∷ []
passed_on c mode h (exec_request command) = Call.ssh_channel_request_exec h command ∷ []
passed_on c mode h (signal name) = Call.ssh_channel_request_send_signal h name ∷ []
passed_on c mode h (exit_signal name core err_msg lang) =
    Call.ssh_channel_request_send_exit_signal h name core err_msg lang ∷ []
passed_on c mode h (exit_status status) =
    Call.ssh_channel_request_send_exit_status (some h) status ∷ []
passed_on c mode h (incoming bytes false) =
    Call.ssh_set_blocking c.haas_session mode
    ∷ Call.ssh_channel_write (some h) bytes
    ∷ Call.ssh_set_blocking c.haas_session (pos 0)
    ∷ Call.ssh_is_blocking c.haas_session
    ∷ []
passed_on c mode h (incoming bytes true) =
    Call.ssh_set_blocking c.haas_session mode
    ∷ Call.ssh_channel_write_stderr (some h) bytes
    ∷ Call.ssh_set_blocking c.haas_session (pos 0)
    ∷ Call.ssh_is_blocking c.haas_session
    ∷ []
passed_on c mode h eof = Call.ssh_channel_send_eof (some h) ∷ []
passed_on c mode h _ = []

-- Each event but `close` restarts the idle timer, which reads the clock.
abbrev pub clock_read : ChannelEvent → List Call
clock_read close = []
clock_read _ = Call.gettimeofday ∷ []

abbrev pub to_haas : Env → World → ChannelEvent → List Call
to_haas env w e = elim w.ctx.haas_channel [
  | none ↦ []
  | some h ↦ passed_on w.ctx (env.int w.tick (Call.ssh_is_blocking w.ctx.haas_session)) h e
]

-- What a callback may change.
pub record Frame (e : ChannelEvent) (c c' : Context) : Type 0 where
  pub rest : c' ≡ record c {
    have_pty = c'.have_pty;
    have_shell = c'.have_shell;
    closed = c'.closed;
    idle_timer = c'.idle_timer;
  }
  pub pty_stays : c.have_pty ≡ true → c'.have_pty ≡ true
  pub shell_stays : c.have_shell ≡ true → c'.have_shell ≡ true
  pub closes : (c'.closed ≡ true) ↔ ((c.closed ≡ true) ⊎ (e ≡ close))

-- Whatever libssh answers, a callback of the attacker's channel ends with no fault. It sends to the
-- HaaS channel exactly the request that repeats the event, or nothing where there is no HaaS
-- channel; data are written unchanged between two changes of the blocking mode, the last of which
-- restores it. Only the idle timer, the marks of a terminal and of a shell, and the mark that the
-- session is closed may change: no terminal or shell is forgotten, and the session is closed by
-- `close` only.
pub trap_channel-Frame :
    (env : Env) (e : ChannelEvent) (w : World)
    → Ends (trap_channel env e w) (λ r w'.
      (w'.trace ≡ clock_read e ++ (to_haas env w e ++ w.trace))
      × (w'.heap ≡ w.heap)
      × Frame e w.ctx w'.ctx)
unfolding trap_channel
trap_channel-Frame env (signal name) w = ground arith
trap_channel-Frame env (pty_request term x y) w = ground arith
trap_channel-Frame env e w = ground arith
