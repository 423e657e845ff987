-- ===== src/Master/Program/Sessions.antt =====
-- src/main.c with src/proxy.c: the session of a child ends.
use haa_s_libssh.Common.{ℕ, zero, suc, ◌≤◌, ◌<◌, ◌≡◌, refl, length, true, none, some, arith}
use haa_s_libssh.Common.Ends.{Ends}
use haa_s_libssh.Config.{Bytes, Config}
use haa_s_libssh.World.{World}
use haa_s_libssh.Proxy.Forward.Register.{HasMemory}
use haa_s_libssh.Proxy.Events.Sound.{IsSound, Ready}
use haa_s_libssh.Proxy.Process.Ending.{AllReleased}
use haa_s_libssh.Proxy.Setup.{whole_process}
use haa_s_libssh.Proxy.Setup.Whole.{whole_process-AllReleased}
use haa_s_libssh.Master.System.{Session}

-- What the session of a child needs so that it ends: memory; callbacks that are, in a sound session, for
-- pairs that are not freed and with passwords that fit; reads of `ShouldStop` that give 1 before the
-- fuel is used up; and a directory of the keys that fits. It starts with no pair on the heap.
pub record Closes (s : Session) (config : Config) (fuel : ℕ) : Type 0 where
  pub memory : HasMemory s.env
  pub ready : (n : ℕ) (w : World) → IsSound w → Ready w (s.arrivals.event_at n w)
  pub told : (n : ℕ) → fuel ≤ suc n → s.stop n ≡ true
  pub no_pairs : s.start.heap ≡ (λ a. none)
  pub keys_dir : Bytes
  pub given : config.keys_dir ≡ some keys_dir
  pub some_char : 0 < length keys_dir
  pub fits : length keys_dir ≤ 1006

pub session_ends :
    (s : Session) (config : Config) (fuel child : ℕ)
    → 0 < fuel
    → Closes s config fuel
    → Ends
        (whole_process s.env s.has_ecdsa_key s.arrivals s.stop fuel config s.addr s.port child
          s.start)
        (λ _ w. AllReleased w)
session_ends s config zero child some_fuel g = absurd (omega arith)
session_ends s config (suc last) child some_fuel g =
    whole_process-AllReleased s.env s.has_ecdsa_key s.arrivals s.stop last g.memory g.ready
      (λ n le. g.told n (omega arith)) config g.keys_dir s.addr s.port child s.start.next s.start
      g.given g.some_char g.fits (g.no_pairs, refl)
