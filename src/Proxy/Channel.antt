-- ===== src/Proxy/Channel.antt =====
-- src/proxy.c: the callbacks of the two session channels. What happens on the attacker's channel is
-- repeated on the HaaS channel, and the other way round.
pub mod Haas
pub mod Mirror
pub mod Relay
use haa_s_libssh.Common.{
  ℕ, suc, Bool, true, false, Option, none, some, List, [], ◌∷◌, is_null, if◌then◌else◌,
}
use haa_s_libssh.Common.Int.{ℤ, pos, nonzero}
use haa_s_libssh.Config.{Bytes}
use haa_s_libssh.World.{
  Call, Env, Context, World, M, ◌>>=◌, ◌>>◌, pure, skip, when, context, update, run, ask_int,
}
use haa_s_libssh.Proxy.Timers.{idle_timer_reset}

-- The callbacks of a channel, with the arguments that the proxy looks at.
pub data ChannelEvent : Type 0 where
  pty_request : Bytes → ℤ → ℤ → ChannelEvent
  pty_window_change : ℤ → ℤ → ChannelEvent
  env_request : Bytes → Bytes → ChannelEvent
  shell_request auth_agent_req x11_req : ChannelEvent
  exec_request subsystem_request signal : Bytes → ChannelEvent
  exit_signal : Bytes → ℤ → Bytes → Bytes → ChannelEvent
  exit_status : ℤ → ChannelEvent
  incoming : Bytes → Bool → ChannelEvent
  eof close : ChannelEvent

module _ (env : Env) where
  -- A request on a channel that may be missing, with the code that the callback returns.
  request : Option ℕ → (ℕ → Call) → M ℤ
  request none call = pure (pos 1)
  request (some h) call = do i ← ask_int env (call h); pure (if nonzero i then pos 1 else pos 0)

  -- A notice, for the callbacks that return nothing.
  notice : Option ℕ → (ℕ → Call) → M (Unit {0})
  notice none call = skip
  notice (some h) call = run (call h)

  abbrev write_call : ℕ → Bytes → Bool → Call
  write_call h bytes true = Call.ssh_channel_write_stderr (some h) bytes
  write_call h bytes false = Call.ssh_channel_write (some h) bytes

  -- The data are written without blocking; then the session's mode is put back.
  write_data : Option ℕ → Option ℕ → Bytes → Bool → M ℤ
  write_data session none bytes is_stderr = pure env.ssh_error
  write_data session (some h) bytes is_stderr = do
    blocking ← ask_int env (Call.ssh_is_blocking session)
    run (Call.ssh_set_blocking session (pos 0))
    back ← ask_int env (write_call h bytes is_stderr)
    run (Call.ssh_set_blocking session blocking)
    pure back

  -- The request for a terminal: at most one that succeeds.
  ask_pty : Bool → Option ℕ → Bytes → ℤ → ℤ → M (Unit {0})
  ask_pty true channel term x y = skip
  ask_pty false none term x y = skip
  ask_pty false (some h) term x y = do
    i ← ask_int env (Call.ssh_channel_request_pty_size h term x y)
    if nonzero i then skip else update (λ c. record c { have_pty = true })

  ask_shell : Bool → Option ℕ → M (Unit {0})
  ask_shell true channel = skip
  ask_shell false none = skip
  ask_shell false (some h) = do
    i ← ask_int env (Call.ssh_channel_request_shell h)
    if nonzero i then skip else update (λ c. record c { have_shell = true })

  trap_pty_request : Bytes → ℤ → ℤ → M (Option ℤ)
  unfolding ask_pty idle_timer_reset
  trap_pty_request term x y = do
    c ← context
    ask_pty c.have_pty c.haas_channel term x y
    after ← context
    idle_timer_reset env
    pure (some (if after.have_pty then pos 0 else pos 1))

  trap_pty_window_change : ℤ → ℤ → M (Option ℤ)
  unfolding request idle_timer_reset
  trap_pty_window_change width height = do
    c ← context
    back ←
        if c.have_pty
        then request c.haas_channel (λ h. Call.ssh_channel_change_pty_size h width height)
        else pure (pos 1)
    idle_timer_reset env
    pure (some back)

  trap_shell_request : M (Option ℤ)
  unfolding ask_shell idle_timer_reset
  trap_shell_request = do
    c ← context
    ask_shell c.have_shell c.haas_channel
    after ← context
    idle_timer_reset env
    pure (some (if after.have_shell then pos 0 else pos 1))

  trap_exec_request : Bytes → M (Option ℤ)
  unfolding request idle_timer_reset
  trap_exec_request command = do
    c ← context
    back ← request c.haas_channel (λ h. Call.ssh_channel_request_exec h command)
    idle_timer_reset env
    pure (some back)

  trap_env_request : Bytes → Bytes → M (Option ℤ)
  unfolding request idle_timer_reset
  trap_env_request env_name env_value = do
    c ← context
    back ← request c.haas_channel (λ h. Call.ssh_channel_request_env h env_name env_value)
    idle_timer_reset env
    pure (some back)

  trap_signal : Bytes → M (Option ℤ)
  unfolding notice idle_timer_reset
  trap_signal name = do
    c ← context
    notice c.haas_channel (λ h. Call.ssh_channel_request_send_signal h name)
    idle_timer_reset env
    pure none

  trap_exit_signal : Bytes → ℤ → Bytes → Bytes → M (Option ℤ)
  unfolding notice idle_timer_reset
  trap_exit_signal name core err_msg lang = do
    c ← context
    notice c.haas_channel (λ h. Call.ssh_channel_request_send_exit_signal h name core err_msg lang)
    idle_timer_reset env
    pure none

  trap_exit_status : ℤ → M (Option ℤ)
  unfolding notice idle_timer_reset
  trap_exit_status status = do
    c ← context
    notice c.haas_channel (λ h. Call.ssh_channel_request_send_exit_status (some h) status)
    idle_timer_reset env
    pure none

  trap_subsystem_request : M (Option ℤ)
  unfolding idle_timer_reset
  trap_subsystem_request = do idle_timer_reset env; pure (some env.ssh_error)

  trap_auth_agent : M (Option ℤ)
  unfolding idle_timer_reset
  trap_auth_agent = do idle_timer_reset env; pure none

  trap_x11 : M (Option ℤ)
  unfolding idle_timer_reset
  trap_x11 = do idle_timer_reset env; pure none

  trap_data : Bytes → Bool → M (Option ℤ)
  unfolding write_data idle_timer_reset
  trap_data bytes is_stderr = do
    c ← context
    back ← write_data c.haas_session c.haas_channel bytes is_stderr
    idle_timer_reset env
    pure (some back)

  trap_eof : M (Option ℤ)
  unfolding notice idle_timer_reset
  trap_eof = do
    c ← context
    notice c.haas_channel (λ h. Call.ssh_channel_send_eof (some h))
    idle_timer_reset env
    pure none

  trap_close : M (Option ℤ)
  trap_close = do update (λ c. record c { closed = true }); pure none

  -- `TrapChannelCB`, the callbacks of the attacker's channel. A callback that returns nothing gives
  -- `none`.
  unfoldable pub trap_channel : ChannelEvent → M (Option ℤ)
  unfolding trap_pty_request trap_pty_window_change trap_env_request trap_shell_request
      trap_auth_agent trap_x11 trap_exec_request trap_subsystem_request trap_signal trap_exit_signal
      trap_exit_status trap_data trap_eof trap_close
  trap_channel (pty_request term x y) = trap_pty_request term x y
  trap_channel (pty_window_change width height) = trap_pty_window_change width height
  trap_channel (env_request env_name env_value) = trap_env_request env_name env_value
  trap_channel shell_request = trap_shell_request
  trap_channel auth_agent_req = trap_auth_agent
  trap_channel x11_req = trap_x11
  trap_channel (exec_request command) = trap_exec_request command
  trap_channel (subsystem_request subsystem) = trap_subsystem_request
  trap_channel (signal name) = trap_signal name
  trap_channel (exit_signal name core err_msg lang) = trap_exit_signal name core err_msg lang
  trap_channel (exit_status status) = trap_exit_status status
  trap_channel (incoming bytes is_stderr) = trap_data bytes is_stderr
  trap_channel eof = trap_eof
  trap_channel close = trap_close
