-- ===== src/Proxy/Forward/Modes.antt =====
-- src/proxy.c, `TrapMessageCallback`: the outcome of a forwarding request in each mode.
use haa_s_libssh.Common.{
  ℕ, suc, ◌+◌, ◌≡◌, ◌⊎◌, Bool, true, false, ◌&&◌, Option, none, some, ◌∷◌, arith,
}
use haa_s_libssh.Common.Int.{pos, nonzero}
use haa_s_libssh.Config.{forward_mode_deny, forward_mode_allow, forward_mode_fake}
use haa_s_libssh.World.{Call, Env, World}
use haa_s_libssh.World.Ends.{Ends}
use haa_s_libssh.World.Frees.{is_one, frees}
use haa_s_libssh.Proxy.Forward.{Message, trap_message}

abbrev is_forward : Option Message → Bool
is_forward none = false
is_forward (some m) = m.is_channel_open && m.is_direct_tcpip

-- A message that is no request for a direct connection, and every message in the deny mode, is left
-- to libssh: the answer is 1, nothing but the idle timer changes, and no call is made but to read
-- the clock.
pub trap_message_ignored :
    (env : Env) (msg : Option Message) (w : World)
    → (is_forward msg ≡ false) ⊎ (w.ctx.config.forward_mode ≡ forward_mode_deny)
    → Ends (trap_message env msg w) (λ r w'.
      (r ≡ pos 1)
      × (w'.ctx ≡ record w.ctx { idle_timer = w'.ctx.idle_timer })
      × (w'.heap ≡ w.heap)
      × (w'.trace ≡ Call.gettimeofday ∷ w.trace))
unfolding trap_message
trap_message_ignored env msg w h = ground arith

-- In the fake mode a request for a direct connection ends with no fault and is answered with 0;
-- nothing but the idle timer changes in the context and no pair is made. The channel that libssh
-- gave for it is freed once, and no other channel.
pub trap_message_fake :
    (env : Env) (m : Message) (w : World)
    → is_forward (some m) ≡ true
    → w.ctx.config.forward_mode ≡ forward_mode_fake
    → Ends (trap_message env (some m) w) (λ r w'.
      (r ≡ pos 0)
      × (w'.ctx ≡ record w.ctx { idle_timer = w'.ctx.idle_timer })
      × (w'.heap ≡ w.heap)
      × ((c : ℕ)
          → frees c w'.trace
            ≡ is_one c (env.ptr w.tick Call.ssh_message_channel_request_open_reply_accept)
              + frees c w.trace))
unfolding trap_message
trap_message_fake env m w f h = ground arith

-- In the allow mode, where `ssh_channel_new` gives a channel for a direct connection and
-- `ssh_channel_open_forward` fails on it, the message is left to libssh and that channel has been
-- freed two times more than before.
pub trap_message-frees_twice :
    (env : Env) (m : Message) (d : ℕ) (w : World)
    → is_forward (some m) ≡ true
    → w.ctx.config.forward_mode ≡ forward_mode_allow
    → env.ptr w.tick (Call.ssh_channel_new w.ctx.haas_session) ≡ some d
    → nonzero (
        env.int (suc w.tick) (
          Call.ssh_channel_open_forward d m.destination m.destination_port m.originator
            m.originator_port))
      ≡ true
    → Ends
        (trap_message env (some m) w)
        (λ r w'. (r ≡ pos 1) × (frees d w'.trace ≡ 2 + frees d w.trace))
unfolding trap_message
trap_message-frees_twice env m d w f h new refused = ground arith
