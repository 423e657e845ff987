-- ===== src/Examples/Requests.antt =====
-- Requests for forwarding and forwarded data on the sample state.
use haa_s_libssh.Common.{ℕ, ◌+◌, ◌≡◌, refl, inl, inr, true, false, none, some, [], ◌∷◌, arith}
use haa_s_libssh.Common.Int.{pos}
use haa_s_libssh.Config.{
  codes, forward_mode_deny, forward_mode_allow, forward_mode_echo, forward_mode_fake,
  forward_mode_null,
}
use haa_s_libssh.World.{Call, World}
use haa_s_libssh.World.Ends.{Ends}
use haa_s_libssh.World.Frees.{is_one, frees}
use haa_s_libssh.Proxy.Forward.{Message, trap_message}
use haa_s_libssh.Proxy.Forward.Modes.{
  trap_message_ignored, trap_message_fake, trap_message-frees_twice,
}
use haa_s_libssh.Proxy.Forward.Register.{HasMemory, HasPool, Registered}
use haa_s_libssh.Proxy.Forward.Register.Accepted.{
  one_sided, trap_message-HasPool, trap_message-Registered,
}
use haa_s_libssh.Proxy.ForwardChannel.{forward_data}
use haa_s_libssh.Proxy.ForwardChannel.Crossing.{
  Sends, written, forward_data_crosses, forward_data_echoes,
}
use haa_s_libssh.Proxy.Sweep.{handle_forwards}
use haa_s_libssh.Proxy.Sweep.Safe.{Handled, handle_forwards-Handled}
use haa_s_libssh.Examples.{env, pool, pair_of, world}
use haa_s_libssh.Examples.Pool.{pool-Owned}

abbrev echo : World
echo = world forward_mode_echo (some 11)

abbrev allow : World
allow = world forward_mode_allow (some 11)

abbrev null_mode : World
null_mode = world forward_mode_null (some 11)

abbrev fake : World
fake = world forward_mode_fake (some 11)

abbrev pub mail : Message
mail = record {
  is_channel_open = true;
  is_direct_tcpip = true;
  originator = codes "127.0.0.1";
  originator_port = pos 4000;
  destination = codes "mx";
  destination_port = pos 25;
}

pub memory : HasMemory env
memory = record { malloc_ok = λ n. refl; realloc_ok = λ n e. cc }

handle_forwards-Handled_example : Ends (handle_forwards env echo) (λ _ w'. Handled echo w')
handle_forwards-Handled_example = handle_forwards-Handled env pool echo refl pool-Owned

trap_message-HasPool_example : Ends (trap_message env (some mail) allow) (λ _ w'. HasPool 2 w')
trap_message-HasPool_example =
    trap_message-HasPool env (some mail) 2 allow memory (pool, refl, pool-Owned, omega arith)

trap_message-Registered_example :
    Ends
      (trap_message env (some mail) echo)
      (λ r w'. (r ≡ pos 0) × Registered mail (one_sided 30) echo w')
trap_message-Registered_example =
    trap_message-Registered env mail 30 pool echo memory refl pool-Owned refl refl (inl refl) refl

trap_message_ignored_example :
    Ends (trap_message env (some mail) (world forward_mode_deny none)) (λ r w'.
      (r ≡ pos 1)
      × (w'.ctx ≡ record (world forward_mode_deny none).ctx { idle_timer = w'.ctx.idle_timer })
      × (w'.heap ≡ echo.heap)
      × (w'.trace ≡ Call.gettimeofday ∷ []))
trap_message_ignored_example =
    trap_message_ignored env (some mail) (world forward_mode_deny none) (inr refl)

trap_message_fake_example : Ends (trap_message env (some mail) fake) (λ r w'.
    (r ≡ pos 0)
    × (w'.ctx ≡ record fake.ctx { idle_timer = w'.ctx.idle_timer })
    × (w'.heap ≡ fake.heap)
    × ((c : ℕ) → frees c w'.trace ≡ is_one c (some 30) + 0))
trap_message_fake_example = trap_message_fake env mail fake refl refl

trap_message-frees_twice_example :
    Ends (trap_message env (some mail) allow) (λ r w'. (r ≡ pos 1) × (frees 40 w'.trace ≡ 2 + 0))
trap_message-frees_twice_example = trap_message-frees_twice env mail 40 allow refl refl refl refl

forward_data_crosses_example :
    Ends
      (forward_data env (some 0) (some 3) 20 (codes "hi") false allow)
      (λ r w'. Sends allow (written (some 5) (some 21) (codes "hi") false (pos 0)) w' × (r ≡ pos 0))
    × Ends (forward_data env (some 0) (some 3) 21 (codes "hi") false allow) (λ r w'.
      Sends allow (written (some 3) (some 20) (codes "hi") false (pos 0)) w' × (r ≡ pos 0))
forward_data_crosses_example =
    forward_data_crosses env 0 20 21 (pair_of 20 (some 21) false) (some 3) (codes "hi") false allow
      refl refl refl refl (λ e. absurd (omega arith)) refl

forward_data_echoes_example :
    Ends
      (forward_data env (some 1) (some 3) 22 (codes "hi") false echo)
      (λ r w'. Sends echo (written (some 3) (some 22) (codes "hi") false (pos 0)) w' × (r ≡ pos 0))
forward_data_echoes_example =
    forward_data_echoes env 1 22 (pair_of 22 none true) (some 3) (codes "hi") false echo refl refl
      refl
