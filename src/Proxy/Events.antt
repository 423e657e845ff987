-- ===== src/Proxy/Events.antt =====
-- src/proxy.c, `ProxyProcess`: the callbacks that libssh makes while `ssh_event_dopoll` waits, as the
-- callback tables and the message callbacks name them, and the work between two waits.
pub mod Framed
pub mod Sound
pub mod Handled
pub mod Timed
use haa_s_libssh.Common.{ℕ, Bool, Option, none, some, List, [], ◌∷◌}
use haa_s_libssh.Config.{Bytes}
use haa_s_libssh.World.{Env, World, M, ◌>>=◌, ◌>>◌, skip, context}
use haa_s_libssh.Proxy.Auth.{
  trap_auth_none, trap_auth_pubkey, trap_auth_gssapi_mic, trap_auth_password,
}
use haa_s_libssh.Proxy.Channel.{ChannelEvent, trap_channel}
use haa_s_libssh.Proxy.Channel.Haas.{haas_channel}
use haa_s_libssh.Proxy.Forward.{Message, trap_message, haas_message}
use haa_s_libssh.Proxy.ForwardChannel.{forward_data, forward_eof, forward_close}
use haa_s_libssh.Proxy.Open.{trap_new_channel, trap_service_request}
use haa_s_libssh.Proxy.Sweep.{handle_forwards}

-- A callback, with the session or the pair that libssh hands to it, and `forwards`, the call of
-- `HandleForwards` in the second loop.
pub data Event : Type 0 where
  auth_none auth_pubkey auth_gssapi_mic service_request on_haas_message : Event
  auth_password : ℕ → Bytes → Bytes → Event
  channel_open_request_session : ℕ → Event
  on_trap_channel on_haas_channel : ChannelEvent → Event
  on_trap_message : Option Message → Event
  on_forward_data : ℕ → Option ℕ → ℕ → Bytes → Bool → Event
  on_forward_eof : ℕ → ℕ → Event
  on_forward_close : ℕ → Event
  forwards : Event

module _ (env : Env) where
  -- The second loop calls `HandleForwards` only where there is a pool.
  pub forwards_step : M (Unit {0})
  unfolding handle_forwards
  forwards_step = do c ← context; elim c.forward_pool [ none ↦ skip | some p ↦ handle_forwards env ]

  drop : {A : Type 0} → M A → M (Unit {0})
  drop m = do r ← m; skip

  -- What the event runs; the answers go back to libssh.
  unfoldable pub handle : Event → M (Unit {0})
  unfolding drop forwards_step
  handle auth_none = drop (trap_auth_none env)
  handle auth_pubkey = drop (trap_auth_pubkey env)
  handle auth_gssapi_mic = drop (trap_auth_gssapi_mic env)
  handle service_request = drop (trap_service_request env)
  handle on_haas_message = drop (haas_message env)
  handle (auth_password session name password) = drop (trap_auth_password env session name password)
  handle (channel_open_request_session session) = drop (trap_new_channel env session)
  handle (on_trap_channel e) = drop (trap_channel env e)
  handle (on_haas_channel e) = drop (haas_channel env e)
  handle (on_trap_message msg) = drop (trap_message env msg)
  handle (on_forward_data a session channel bytes is_stderr) =
      drop (forward_data env (some a) session channel bytes is_stderr)
  handle (on_forward_eof a channel) = forward_eof env (some a) channel
  handle (on_forward_close a) = forward_close env (some a)
  handle forwards = forwards_step
