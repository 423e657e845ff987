-- ===== src/Proxy/Channel/Haas.antt =====
-- src/proxy.c: the callbacks of the channel to the HaaS server.
use haa_s_libssh.Common.{Bool, true, Option, none, some}
use haa_s_libssh.Common.Int.{ℤ}
use haa_s_libssh.Config.{Bytes}
use haa_s_libssh.World.{Call, Env, M, ◌>>=◌, ◌>>◌, pure, context, update}
use haa_s_libssh.Proxy.Timers.{idle_timer_reset}
use haa_s_libssh.Proxy.Channel.{
  ChannelEvent, signal, exit_signal, exit_status, incoming, eof, close, notice, write_data,
}

module _ (env : Env) where
  haas_signal : Bytes → M (Option ℤ)
  unfolding notice idle_timer_reset
  haas_signal name = do
    c ← context
    notice env c.trap_channel (λ h. Call.ssh_channel_request_send_signal h name)
    idle_timer_reset env
    pure none

  haas_exit_signal : Bytes → ℤ → Bytes → Bytes → M (Option ℤ)
  unfolding notice idle_timer_reset
  haas_exit_signal name core err_msg lang = do
    c ← context
    notice env c.trap_channel
        (λ h. Call.ssh_channel_request_send_exit_signal h name core err_msg lang)
    idle_timer_reset env
    pure none

  haas_exit_status : ℤ → M (Option ℤ)
  unfolding notice idle_timer_reset
  haas_exit_status status = do
    c ← context
    notice env c.trap_channel (λ h. Call.ssh_channel_request_send_exit_status (some h) status)
    idle_timer_reset env
    pure none

  haas_data : Bytes → Bool → M (Option ℤ)
  unfolding write_data idle_timer_reset
  haas_data bytes is_stderr = do
    c ← context
    back ← write_data env c.trap_session c.trap_channel bytes is_stderr
    idle_timer_reset env
    pure (some back)

  haas_eof : M (Option ℤ)
  unfolding notice idle_timer_reset
  haas_eof = do
    c ← context
    notice env c.trap_channel (λ h. Call.ssh_channel_send_eof (some h))
    idle_timer_reset env
    pure none

  haas_close : M (Option ℤ)
  haas_close = do update (λ c. record c { closed = true }); pure none

  -- `HaasChannelCB`: libssh does nothing on an event that has no callback there.
  unfoldable pub haas_channel : ChannelEvent → M (Option ℤ)
  unfolding haas_signal haas_exit_signal haas_exit_status haas_data haas_eof haas_close
  haas_channel (signal name) = haas_signal name
  haas_channel (exit_signal name core err_msg lang) = haas_exit_signal name core err_msg lang
  haas_channel (exit_status status) = haas_exit_status status
  haas_channel (incoming bytes is_stderr) = haas_data bytes is_stderr
  haas_channel eof = haas_eof
  haas_channel close = haas_close
  haas_channel _ = pure none
