-- ===== src/Examples/Servers.antt =====
-- A run of the master process that serves one client and is stopped by SIGINT.
use haa_s_libssh.Common.{
  ℕ, ◌≡◌, refl, ap, sym, true, false, Option, none, some, List, [], ◌∷◌, ◌==◌, if◌then◌else◌, arith,
}
use haa_s_libssh.Common.Int.{ℤ, pos}
use haa_s_libssh.Common.Ends.{Ends}
use haa_s_libssh.World.{World}
use haa_s_libssh.Config.{Bytes, Config, codes, config_init, forward_mode_echo}
use haa_s_libssh.Config.Parse.{Opt, config_parse}
use haa_s_libssh.Debug.{start_log, qhexdebug}
use haa_s_libssh.Master.{start_master}
use haa_s_libssh.Master.System.{SysCall, Signal, Kernel, Session, Process}
use haa_s_libssh.Master.Program.{start_logging, main}
use haa_s_libssh.Master.Program.Sockets.{open_handles, Released}
use haa_s_libssh.Master.Program.Sessions.{Closes}
use haa_s_libssh.Master.Program.Stops.Ended.{main-Ends}
use haa_s_libssh.Master.Program.Logging.{qhexdebug-start_logging}
use haa_s_libssh.Examples.{env, config}
use haa_s_libssh.Examples.Requests.{memory}
use haa_s_libssh.Examples.Runs.{arrivals, before}
use haa_s_libssh.Examples.Logs.{libc, counting}

-- The answers, with that of `fork`.
abbrev answer : ℤ → ℕ → SysCall → ℤ
answer pid n SysCall.fork = pid
answer pid n SysCall.select = pos 1
answer pid n c = pos 0

abbrev handle : ℕ → SysCall → Option ℕ
handle n SysCall.socket = some 3
handle n (SysCall.accept master) = some 4
handle n c = none

-- SIGINT comes during the call with the number 8.
abbrev kernel : ℤ → Kernel
kernel pid = record {
  int = answer pid;
  handle = handle;
  eintr = λ n. false;
  readable = λ n fd. fd == 3;
  byte = λ n. 0;
  signals =
      λ n. if n == 8 then Signal.sigint ∷ [] else if n == 3 then Signal.sigchld 1 ∷ [] else [];
}

abbrev fresh : Process
fresh = record {
  should_stop = false;
  master_pid = pos 0;
  count = start_master;
  log = start_log;
  tick = 0;
  trace = [];
  session = none;
}

abbrev options : List Opt
options = Opt.opt_f ∷ Opt.opt_t (codes "T") ∷ []

-- The key exchange fails, and the session ends.
abbrev session : Session
session = record {
  env = env;
  has_ecdsa_key = false;
  arrivals = arrivals;
  stop = λ n. true;
  addr = codes "10.0.0.1";
  port = 54321;
  start = before;
}

-- With the directory of the keys that is the default.
closes : (c : Config) → c.keys_dir ≡ some (codes "/etc/HaaS/keys/") → Closes session c 10
closes c given = record {
  memory = memory;
  ready = λ n w v. tt;
  told = λ n le. refl;
  no_pairs = refl;
  keys_dir = codes "/etc/HaaS/keys/";
  given = given;
  some_char = omega arith;
  fits = omega arith;
}

abbrev keys_of : Option Config → Option Bytes
keys_of none = none
keys_of (some c) = c.keys_dir

-- The options are accepted, with that directory.
keys_of_options :
    (c : Config)
    → config_parse options false config_init ≡ some c
    → c.keys_dir ≡ some (codes "/etc/HaaS/keys/")
unfolding config_parse config_init
keys_of_options c e = sym (ap keys_of e)

main-Ends_example :
    (back : ℤ) × (p' : Process) × (main (kernel (pos 0)) session options false 10 fresh
      ≡ some (back, p'))
    × (open_handles p'.trace ≡ some [])
    × Released p'.session
    × (p'.log.debug_handle ≡ none)
    × (p'.log.debug_syslog ≡ false)
main-Ends_example =
    main-Ends (kernel (pos 0)) session 8 refl (λ n le. refl) options false 10 fresh (omega arith)
      refl refl refl (λ c e f. closes c (keys_of_options c e))

qhexdebug-start_logging_example :
    qhexdebug libc
      (pos 4)
      (codes "TrapData")
      (pos 18)
      (some counting)
      (start_logging (record (config (pos 0)) { debug_level = 4 }) start_log)
    ≡ none
qhexdebug-start_logging_example =
    qhexdebug-start_logging libc (record (config (pos 0)) { debug_level = 4 }) (codes "TrapData")
      (pos 18) (some counting) refl (omega arith)

-- The listening socket is open.
abbrev listening : Process
listening = record fresh { trace = (SysCall.socket, some 3) ∷ [] }

abbrev limited_config : Config
limited_config = record (config forward_mode_echo) {
  keys_dir = some (codes "/etc/HaaS/keys/");
  conn_limit = pos 2;
}
