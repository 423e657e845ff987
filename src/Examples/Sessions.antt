-- ===== src/Examples/Sessions.antt =====
-- The session's handlers on the sample state.
use haa_s_libssh.Common.{
  ℕ, ◌+◌, ◌*◌, ◌≤◌, ◌<◌, ◌≡◌, refl, ◌⊎◌, true, false, none, some, [], ◌∷◌, ◌++◌, arith,
  if◌then◌else◌, length, tabulate, length-tabulate, is_null,
}
use haa_s_libssh.Common.Int.{pos, negsuc}
use haa_s_libssh.Common.Format.{decimal, digits_on}
use haa_s_libssh.Config.{Bytes, codes, forward_mode_echo}
use haa_s_libssh.World.{Timeval, Call, World, called}
use haa_s_libssh.World.Ends.{Ends}
use haa_s_libssh.Proxy.Timers.{timer_get}
use haa_s_libssh.Proxy.Timers.Exact.{micros, timer_get_expired, timer_get_exact, timer_get_wraps}
use haa_s_libssh.Proxy.Auth.{haas_password, token_of, starts_with_dash, trap_auth_password}
use haa_s_libssh.Proxy.Auth.Outcome.{Fits, Outcome, trap_auth_password-Outcome}
use haa_s_libssh.Proxy.Auth.Password.{length-haas_password, trap_auth_password_overflow}
use haa_s_libssh.Proxy.Channel.{incoming, trap_channel}
use haa_s_libssh.Proxy.Channel.Haas.{haas_channel}
use haa_s_libssh.Proxy.Channel.Mirror.{swap_world, swap_result, haas_channel-mirror}
use haa_s_libssh.Proxy.Channel.Relay.{clock_read, to_haas, Frame, trap_channel-Frame}
use haa_s_libssh.Proxy.Open.{trap_new_channel}
use haa_s_libssh.Proxy.Open.Paired.{IsPaired, all_freed, trap_new_channel-IsPaired}
use haa_s_libssh.Examples.{env, world}

abbrev start : World
start = world forward_mode_echo none

abbrev with_channel : World
with_channel = world forward_mode_echo (some 11)

fits : Fits start.ctx (codes "secret")
unfolding haas_password decimal digits_on
fits = omega arith

trap_auth_password-Outcome_example :
    Ends
      (trap_auth_password env 3 (codes "root") (codes "secret") start)
      (Outcome env 3 (codes "secret") start)
trap_auth_password-Outcome_example =
    trap_auth_password-Outcome env 3 (codes "root") (codes "secret") start fits

abbrev long_password : Bytes
long_password = tabulate 1000 (λ i. 65)

too_long : 1024 ≤ length (haas_password start.ctx long_password)
too_long =
    omega
      (arith, length-haas_password start.ctx long_password, length-tabulate {A = ℕ} 1000 (λ i. 65))

trap_auth_password_overflow_example :
    trap_auth_password env 3 (codes "root") long_password start ≡ none
trap_auth_password_overflow_example =
    trap_auth_password_overflow env 3 7 (codes "root") long_password start too_long refl (λ n. refl)

length-haas_password_example : length (haas_password start.ctx (codes "secret")) ≡ (
    if starts_with_dash (token_of start.ctx.config)
    then length (codes "secret")
    else 67
      + length (codes "secret")
      + length (token_of start.ctx.config)
      + length start.ctx.sin_addr
      + length (decimal start.ctx.sin_port))
length-haas_password_example = length-haas_password start.ctx (codes "secret")

trap_channel-Frame_example :
    Ends (trap_channel env (incoming (codes "ls") false) with_channel) (λ r w'.
      (w'.trace
        ≡ clock_read (incoming (codes "ls") false)
          ++ (to_haas env with_channel (incoming (codes "ls") false) ++ []))
      × (w'.heap ≡ with_channel.heap)
      × Frame (incoming (codes "ls") false) with_channel.ctx w'.ctx)
trap_channel-Frame_example = trap_channel-Frame env (incoming (codes "ls") false) with_channel

haas_channel-mirror_example :
    haas_channel env (incoming (codes "ok") true) (swap_world with_channel)
    ≡ swap_result (trap_channel env (incoming (codes "ok") true) with_channel)
haas_channel-mirror_example = haas_channel-mirror env (incoming (codes "ok") true) with_channel refl

trap_new_channel-IsPaired_example : Ends (trap_new_channel env 3 start) (λ r w'.
    IsPaired w'.ctx
    × (r ≡ w'.ctx.trap_channel)
    × (w'.heap ≡ start.heap)
    × (w'.ctx ≡ record start.ctx {
      trap_channel = w'.ctx.trap_channel;
      haas_channel = w'.ctx.haas_channel;
      idle_timer = w'.ctx.idle_timer;
    })
    × ((start.ctx.trap_channel ≡ none) ⊎ (w'.trace ≡ Call.gettimeofday ∷ []))
    × ((is_null w'.ctx.trap_channel ≡ false)
        ⊎ (all_freed
              (env.ptr 0 (Call.ssh_channel_new (some 3)))
              (env.ptr 1 (Call.ssh_channel_new (some 5)))
              w'.trace
            ≡ true)))
trap_new_channel-IsPaired_example =
    trap_new_channel-IsPaired env 3 start (record { together = refl })

abbrev in_two_seconds : Timeval
in_two_seconds = record { tv_sec = 1002; tv_usec = 1700 }

timer_get_exact_example :
    (ms : ℕ) × (timer_get env in_two_seconds start ≡ some (pos ms, called Call.gettimeofday start))
    × (micros (env.clock 0) + ms * 1000 < micros in_two_seconds + 1000)
    × (micros in_two_seconds < micros (env.clock 0) + ms * 1000 + 1000)
timer_get_exact_example =
    timer_get_exact env in_two_seconds start (omega arith) (omega arith) (omega arith) (omega arith)
      (omega arith)

abbrev long_ago : Timeval
long_ago = record { tv_sec = 999; tv_usec = 700 }

timer_get_expired_example :
    timer_get env long_ago start ≡ some (pos 0, called Call.gettimeofday start)
timer_get_expired_example =
    timer_get_expired env long_ago start (omega arith) (omega arith) (omega arith)

abbrev far_ahead : Timeval
far_ahead = record { tv_sec = 2592000 + 1000; tv_usec = 0 }

timer_get_wraps_example :
    (n : ℕ) × (timer_get env far_ahead start ≡ some (negsuc n, called Call.gettimeofday start))
timer_get_wraps_example =
    timer_get_wraps env far_ahead start (omega arith) (omega arith) (omega arith) (omega arith)
      (omega arith)
