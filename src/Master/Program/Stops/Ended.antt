-- ===== src/Master/Program/Stops/Ended.antt =====
-- src/main.c: `main` ends when it is told to stop, with every handle closed.
use haa_s_libssh.Common.{
  ℕ, suc, ◌≤◌, ◌<◌, ◌≡◌, refl, ap, Bool, true, false, Option, none, some, List, [], if◌then◌else◌,
  arith,
}
use haa_s_libssh.Common.Ends.{Ends, Ends-some, >>=-Ends, >>-Ends, if-Ends}
use haa_s_libssh.Common.Int.{ℤ, pos, minus_one, eqb_ℤ, leb_ℤ, nonzero}
use haa_s_libssh.Config.{Config, config_init}
use haa_s_libssh.Config.Parse.{Opt, config_parse}
use haa_s_libssh.World.{World}
use haa_s_libssh.Master.Program.Sessions.{Closes}
use haa_s_libssh.Debug.{qdone}
use haa_s_libssh.Debug.Life.{qdone-quiet}
use haa_s_libssh.Master.System.{SysCall, Kernel, Session, Process, P, called, ◌>>◌, pure}
use haa_s_libssh.Master.Server.{create_tcp_server, daemonize}
use haa_s_libssh.Master.Program.{
  start_logging, serve_clients, finish, open_server, go_background, be_nice, start, main,
}
use haa_s_libssh.Master.Program.Sockets.{stops, Released, Holds, open_handles}
use haa_s_libssh.Master.Program.Sockets.Kept.{with_handle, create_tcp_server-Opens}
use haa_s_libssh.Master.Program.Sockets.Background.{Keeps, daemonize-Keeps}
use haa_s_libssh.Master.Program.Stops.Served.{plain_call, serve_clients-Keeps}

started_Holds :
    (t : ℕ) (p : Process) → p.tick ≡ 0 → p.trace ≡ [] → p.session ≡ none → Holds t 0 [] p
started_Holds t p none_made e no_session = (
  omega arith,
  λ after. absurd (omega arith),
  ap open_handles e,
  λ w f. absurd (clash no_session f),
)
  where
    clash : {o : Option World} {w : World} → o ≡ none → o ≡ some w → ⊥
    clash e f = cc

module _ (k : Kernel) (s : Session) (t : ℕ) (arrives : stops (k.signals t) ≡ true)
    (calm : (n : ℕ) → t ≤ n → k.eintr n ≡ false) where
  -- The process has exited with all handles closed, and the log is closed too.
  abbrev Exits : ℤ → Process → Type 0
  Exits back p = Holds t 0 [] p × (p.log.debug_handle ≡ none) × (p.log.debug_syslog ≡ false)

  finish-Exits : (back : ℤ) (p : Process) → Holds t 0 [] p → Ends (finish k s back p) Exits
  unfolding finish qdone
  finish-Exits back p v = (v, refl, qdone-quiet p.log)

  served_server :
      (config : Config) (r : Option ℕ) (fuel : ℕ) (p : Process)
      → suc t < fuel
      → Closes s config fuel
      → Holds t 0 (with_handle r []) p
      → Ends
          ((elim r as (λ _. P ℤ) [
            | none ↦ finish k s (pos 2)
            | some h ↦ serve_clients k s config h fuel >> finish k s (pos 0)
          ])
            p)
          Exits
  served_server config none fuel p enough g v = finish-Exits (pos 2) p v
  served_server config (some h) fuel p enough g v =
      >>-Ends (serve_clients k s config h fuel) (finish k s (pos 0)) p (Holds t 0 []) Exits
        (serve_clients-Keeps k s t arrives calm config h fuel 0 [] p enough g v)
        (λ p' v'. finish-Exits (pos 0) p' v')

  open_server-Exits :
      (config : Config) (fuel : ℕ) (p : Process)
      → suc t < fuel
      → Closes s config fuel
      → Holds t 0 [] p
      → Ends (open_server k s config fuel p) Exits
  unfolding open_server
  open_server-Exits config fuel p enough g v =
      >>=-Ends (create_tcp_server k config.trap_port) _ p (λ r p'. Holds t 0 (with_handle r []) p')
        Exits (create_tcp_server-Opens k t arrives config.trap_port 0 [] p v)
        (λ r p1 v1. served_server config r fuel p1 enough g v1)

  go_background-Keeps :
      (config : Config) (p : Process)
      → Holds t 0 [] p
      → Ends (go_background k s config p) (Keeps k t arrives 0 [])
  unfolding go_background
  go_background-Keeps config p v =
      if-Ends config.foreground (pure (pos 1)) (daemonize k minus_one) p (Keeps k t arrives 0 [])
        (λ _. v) (λ _. daemonize-Keeps k t arrives minus_one 0 [] p v)

  be_nice-Keeps :
      (config : Config) (p : Process)
      → Holds t 0 [] p
      → Ends (be_nice k s config p) (Keeps k t arrives 0 [])
  unfolding be_nice
  be_nice-Keeps config p v =
      if-Ends (eqb_ℤ config.process_nice minus_one) (pure (pos 0)) _ p (Keeps k t arrives 0 [])
        (λ _. v)
        (λ _. plain_call k s t arrives calm (SysCall.nice config.process_nice) 0 [] p refl v)

  start-Exits :
      (config : Config) (fuel : ℕ) (p : Process)
      → suc t < fuel
      → Closes s config fuel
      → Holds t 0 [] p
      → Ends (start k s config fuel p) Exits
  unfolding start
  start-Exits config fuel p enough g v =
      let p1 = record p { log = start_logging config p.log } in
      >>=-Ends (be_nice k s config) _ p1 (Keeps k t arrives 0 []) Exits (be_nice-Keeps config p1 v)
        (λ back p2 v2.
          if-Ends (nonzero back) (finish k s back) _ p2 Exits (λ _. finish-Exits back p2 v2)
            (λ _.
              >>=-Ends (go_background k s config) _ p2 (Keeps k t arrives 0 []) Exits
                (go_background-Keeps config p2 v2)
                (λ work p3 v3.
                  if-Ends (leb_ℤ work (pos 0)) (finish k s (pos 0)) (open_server k s config fuel) p3
                    Exits (λ _. finish-Exits (pos 0) p3 v3)
                    (λ _. open_server-Exits config fuel p3 enough g v3))))

  configured :
      (o : Option Config) (fuel : ℕ) (p : Process)
      → suc t < fuel
      → ((config : Config) → o ≡ some config → config.want_help ≡ false → Closes s config fuel)
      → Holds t 0 [] p
      → Ends
          ((elim o as (λ _. P ℤ) [
            | none ↦ finish k s (pos 1)
            | some config ↦ if config.want_help then finish k s (pos 0) else start k s config fuel
          ])
            p)
          Exits
  configured none fuel p enough g v = finish-Exits (pos 1) p v
  configured (some config) fuel p enough g v =
      if-Ends config.want_help (finish k s (pos 0)) (start k s config fuel) p Exits
        (λ _. finish-Exits (pos 0) p v) (λ e. start-Exits config fuel p enough (g config refl e) v)

  -- Where SIGINT or SIGHUP arrives at the call `t` at the latest, and no call is interrupted from then
  -- on, `main` ends, in the master and in every child that it forks, and its loops run at most `t + 2`
  -- times. In a child this includes its session, `ProxyProcess`, which leaves no pair of its pool on the
  -- heap. At its end every socket that the process opened, accepted or got from its parent was closed
  -- exactly once by the code of `main` and what it calls in the same file, and none was closed there that
  -- was not open; the log is reset. What libssh does with the client's socket, which the session hands
  -- to it, is not counted. A session has memory, starts with no pair on the heap, reads 1 from
  -- `ShouldStop` from its read with the number `fuel - 1` on, and has in a sound state only callbacks for
  -- pairs that are not freed and with passwords that fit the buffer; a directory of the keys that is
  -- configured is not empty and has at most 1006 characters.
  pub main-Ends :
      (opts : List Opt) (extra : Bool) (fuel : ℕ) (p : Process)
      → suc t < fuel
      → p.tick ≡ 0
      → p.trace ≡ []
      → p.session ≡ none
      → ((config : Config)
          → config_parse opts extra config_init ≡ some config
          → config.want_help ≡ false
          → Closes s config fuel)
      → (back : ℤ) × (p' : Process) × (main k s opts extra fuel p ≡ some (back, p'))
        × (open_handles p'.trace ≡ some [])
        × Released p'.session
        × (p'.log.debug_handle ≡ none)
        × (p'.log.debug_syslog ≡ false)
  unfolding main
  main-Ends opts extra fuel p enough start_tick start_trace no_session g =
      let p1 = called k SysCall.getpid none p in
      let v : Holds t 0 [] p = started_Holds t p start_tick start_trace no_session in
      let v1 : Holds t 0 [] p1 = plain_call k s t arrives calm SysCall.getpid 0 [] p refl v in
      let p2 = record p1 { master_pid = k.int p.tick SysCall.getpid } in
      let (back, p', e, ends) =
        Ends-some
          ((elim (config_parse opts extra config_init) as (λ _. P ℤ) [
            | none ↦ finish k s (pos 1)
            | some config ↦ if config.want_help then finish k s (pos 0) else start k s config fuel
          ])
            p2)
          Exits (configured (config_parse opts extra config_init) fuel p2 enough g v1) in
      let (le, stop, open_now, over) = ends.0 in (back, p', e, open_now, over, ends.1, ends.2)
