-- ===== src/Proxy/Events/Timed.antt =====
-- src/proxy.c: no handler moves the timer of the session, and each one makes calls
-- onwards.
use haa_s_libssh.Common.{ℕ, ap, ◌∙◌, Bool, Option, none, some, arith}
use haa_s_libssh.Config.{Bytes, Config}
use haa_s_libssh.World.{Timeval, Env, Context, World, M, skip}
use haa_s_libssh.World.Leaves.{Leaves, Leaves-mono, >>=-Leaves}
use haa_s_libssh.Proxy.Auth.{
  trap_auth_none, trap_auth_pubkey, trap_auth_gssapi_mic, trap_auth_password,
}
use haa_s_libssh.Proxy.Channel.{ChannelEvent, signal, trap_channel}
use haa_s_libssh.Proxy.Channel.Haas.{haas_channel}
use haa_s_libssh.Proxy.Forward.{Message, trap_message, haas_message}
use haa_s_libssh.Proxy.ForwardChannel.{forward_data, forward_eof, forward_close}
use haa_s_libssh.Proxy.Open.{trap_new_channel, trap_service_request}
use haa_s_libssh.FwPool
use haa_s_libssh.Proxy.Forward.Framed.{Framed, trap_message-Framed}
use haa_s_libssh.Proxy.Sweep.{handle_forwards}
use haa_s_libssh.Proxy.Sweep.Timed.{handle_forwards-Timed}
use haa_s_libssh.Proxy.Timers.Timed.{Timed}
use haa_s_libssh.Proxy.Events.{Event, drop, forwards_step, handle}

module _ (env : Env) (timer : Timeval) (config : Config) (lo : ℕ) where
  dropped :
      {A : Type 0} (m : M A) (w : World)
      → Leaves (m w) (Timed timer config lo)
      → Leaves (drop env m w) (Timed timer config lo)
  unfolding drop
  dropped m w h = >>=-Leaves m _ w (Timed timer config lo) (Timed timer config lo) h (λ a w1 v1. v1)

  trap_channel-Timed :
      (e : ChannelEvent) (w : World)
      → Timed timer config lo w
      → Leaves (trap_channel env e w) (Timed timer config lo)
  unfolding trap_channel
  trap_channel-Timed (signal name) w v = ground arith
  trap_channel-Timed e w v = ground arith

  haas_channel-Timed :
      (e : ChannelEvent) (w : World)
      → Timed timer config lo w
      → Leaves (haas_channel env e w) (Timed timer config lo)
  unfolding haas_channel
  haas_channel-Timed (signal name) w v = ground arith
  haas_channel-Timed e w v = ground arith

  trap_new_channel-Timed :
      (session : ℕ) (w : World)
      → Timed timer config lo w
      → Leaves (trap_new_channel env session w) (Timed timer config lo)
  unfolding trap_new_channel
  trap_new_channel-Timed session w v = ground arith

  forward_data-Timed :
      (a : ℕ) (session : Option ℕ) (channel : ℕ) (bytes : Bytes) (is_stderr : Bool) (w : World)
      → Timed timer config lo w
      → Leaves (forward_data env (some a) session channel bytes is_stderr w) (Timed timer config lo)
  unfolding forward_data
  forward_data-Timed a session channel bytes is_stderr w v = ground arith

  forward_eof-Timed :
      (a channel : ℕ) (w : World)
      → Timed timer config lo w
      → Leaves (forward_eof env (some a) channel w) (Timed timer config lo)
  unfolding forward_eof
  forward_eof-Timed a channel w v = ground arith

  forward_close-Timed :
      (a : ℕ) (w : World)
      → Timed timer config lo w
      → Leaves (forward_close env (some a) w) (Timed timer config lo)
  unfolding forward_close
  forward_close-Timed a w v = ground arith

  trap_auth_password-Timed :
      (session : ℕ) (name password : Bytes) (w : World)
      → Timed timer config lo w
      → Leaves (trap_auth_password env session name password w) (Timed timer config lo)
  unfolding trap_auth_password
  trap_auth_password-Timed session name password w v = ground arith

  trap_message-Timed :
      (msg : Option Message) (w : World)
      → Timed timer config lo w
      → Leaves (trap_message env msg w) (Timed timer config lo)
  trap_message-Timed msg w (t, c, le) =
      Leaves-mono (trap_message env msg w) (Framed w.ctx w.tick) (Timed timer config lo)
        (trap_message-Framed env msg w)
        (λ w' (same, more). (
          ap (λ (x : Context). x.session_timer) same ∙ t,
          ap (λ (x : Context). x.config) same ∙ c,
          omega arith,
        ))

  pub forwards_step-Timed :
      (w : World) → Timed timer config lo w → Leaves (forwards_step env w) (Timed timer config lo)
  unfolding forwards_step
  forwards_step-Timed w v = stepped w.ctx.forward_pool
    where
      stepped :
          (o : Option FwPool.FwPool)
          → Leaves
              ((elim o as (λ _. M (Unit {0})) [ none ↦ skip | some p ↦ handle_forwards env ]) w)
              (Timed timer config lo)
      stepped none = v
      stepped (some p) = handle_forwards-Timed env timer config lo w v

  pub handle-Timed :
      (e : Event) (w : World)
      → Timed timer config lo w
      → Leaves (handle env e w) (Timed timer config lo)
  unfolding handle trap_auth_none trap_auth_pubkey trap_auth_gssapi_mic trap_service_request
      haas_message
  handle-Timed Event.auth_none w v = ground arith
  handle-Timed Event.auth_pubkey w v = ground arith
  handle-Timed Event.auth_gssapi_mic w v = ground arith
  handle-Timed Event.service_request w v = ground arith
  handle-Timed Event.on_haas_message w v = ground arith
  handle-Timed (Event.auth_password session name password) w v =
      dropped (trap_auth_password env session name password) w
        (trap_auth_password-Timed session name password w v)
  handle-Timed (Event.channel_open_request_session session) w v =
      dropped (trap_new_channel env session) w (trap_new_channel-Timed session w v)
  handle-Timed (Event.on_trap_channel e) w v =
      dropped (trap_channel env e) w (trap_channel-Timed e w v)
  handle-Timed (Event.on_haas_channel e) w v =
      dropped (haas_channel env e) w (haas_channel-Timed e w v)
  handle-Timed (Event.on_trap_message msg) w v =
      dropped (trap_message env msg) w (trap_message-Timed msg w v)
  handle-Timed (Event.on_forward_data a session channel bytes is_stderr) w v =
      dropped (forward_data env (some a) session channel bytes is_stderr) w
        (forward_data-Timed a session channel bytes is_stderr w v)
  handle-Timed (Event.on_forward_eof a channel) w v = forward_eof-Timed a channel w v
  handle-Timed (Event.on_forward_close a) w v = forward_close-Timed a w v
  handle-Timed Event.forwards w v = forwards_step-Timed w v
