-- ===== src/Master/Program/Logging.antt =====
-- src/main.c with src/debug.c: where the log of a session goes.
use haa_s_libssh.Common.{ℕ, ◌≤◌, ◌≡◌, refl, true, false, Option, none, inl, arith}
use haa_s_libssh.Common.Int.{ℤ, pos, leb_ℤ}
use haa_s_libssh.Config.{Bytes, Config}
use haa_s_libssh.Debug.{Libc, start_log, qinit_syslog, qsetlevel, qhexdebug}
use haa_s_libssh.Debug.Dump.{qhexoutput-none}
use haa_s_libssh.Master.Program.{start_logging}

start_logging_daemon :
    (config : Config)
    → config.foreground ≡ false
    → (start_logging config start_log).debug_handle ≡ none
unfolding start_logging qsetlevel qinit_syslog
start_logging_daemon config daemon = rw daemon refl

debug_level-start_logging :
    (config : Config) → (start_logging config start_log).debug_level ≡ pos config.debug_level
unfolding start_logging qsetlevel
debug_level-start_logging config = refl

-- In a daemon with a debug level of at least 4, which is QLEVEL_DEBUG, the first hex dump of relayed
-- data is a fault, whatever the data is: it tests a variable that was never given a value.
pub qhexdebug-start_logging :
    (libc : Libc) (config : Config) (msg : Bytes) (size : ℤ) (value : Option (ℕ → ℕ))
    → config.foreground ≡ false
    → 4 ≤ config.debug_level
    → qhexdebug libc (pos 4) msg size value (start_logging config start_log) ≡ none
unfolding qhexdebug start_logging qsetlevel
qhexdebug-start_logging libc config msg size value daemon high =
    rw (debug_level-start_logging config, level config.debug_level high)
      (qhexoutput-none libc msg size value (start_logging config start_log)
        (inl (start_logging_daemon config daemon)))
  where
    level : (n : ℕ) → 4 ≤ n → leb_ℤ (pos 4) (pos n) ≡ true
    level n h = ground arith
