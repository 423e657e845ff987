-- ===== src/Proxy/Channel/Mirror.antt =====
-- src/proxy.c: what the callbacks of the two session channels send, and that they mirror each other.
use haa_s_libssh.Common.{◌≡◌, Bool, true, false, Option, none, some, arith}
use haa_s_libssh.Common.Int.{ℤ}
use haa_s_libssh.World.{Env, Context, World}
use haa_s_libssh.Proxy.Channel.{
  ChannelEvent, signal, exit_signal, exit_status, incoming, eof, close, trap_channel,
}
use haa_s_libssh.Proxy.Channel.Haas.{haas_channel}

-- The context with the two sides exchanged.
abbrev pub swap_sides : Context → Context
swap_sides c = record c {
  trap_session = c.haas_session;
  trap_channel = c.haas_channel;
  haas_session = c.trap_session;
  haas_channel = c.trap_channel;
}

abbrev pub swap_world : World → World
swap_world w = record w { ctx = swap_sides w.ctx }

-- The events that both sides pass on.
abbrev pub is_shared : ChannelEvent → Bool
is_shared (signal name) = true
is_shared (exit_signal name core err_msg lang) = true
is_shared (exit_status status) = true
is_shared (incoming bytes is_stderr) = true
is_shared eof = true
is_shared close = true
is_shared _ = false

abbrev pub swap_result : Option (Option ℤ × World) → Option (Option ℤ × World)
swap_result none = none
swap_result (some (r, w)) = some (r, swap_world w)

-- On the events that both sides have, the callbacks of the HaaS channel are those of the attacker's
-- with the two sides exchanged: the same calls on the other channel, the same result, the same
-- state.
pub haas_channel-mirror :
    (env : Env) (e : ChannelEvent) (w : World)
    → is_shared e ≡ true
    → haas_channel env e (swap_world w) ≡ swap_result (trap_channel env e w)
unfolding haas_channel trap_channel
haas_channel-mirror env (signal name) w h = ground arith
haas_channel-mirror env e w h = ground arith
