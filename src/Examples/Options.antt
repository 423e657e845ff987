-- ===== src/Examples/Options.antt =====
-- A command line, and a port.
use haa_s_libssh.Common.{◌+◌, ◌^◌, arith, ◌≡◌, refl, ◌⊎◌, true, false, none, some, List, [], ◌∷◌}
use haa_s_libssh.Common.Int.{pos, minus_one, int32, ◌-ℤ◌}
use haa_s_libssh.Config.{Config, codes, config_init, forward_mode_echo}
use haa_s_libssh.Config.Parse.{Opt, opt_t, opt_p, opt_m, opt_f, config_parse}
use haa_s_libssh.Common.Format.{decimal}
use haa_s_libssh.Config.Number.{parse_int, parse_port}
use haa_s_libssh.Config.Number.RoundTrip.{parse_int-decimal}
use haa_s_libssh.Config.Parse.Valid.{IsUsable, config_parse-IsUsable}

-- The options `-f -t T -p 0x16 -m 4`.
abbrev opts : List Opt
opts = opt_f ∷ opt_t (codes "T") ∷ opt_p (codes "0x16") ∷ opt_m (codes "4") ∷ []

abbrev parsed : Config
parsed = record {
  want_help = false;
  foreground = true;
  debug_level = 0;
  idle_timeout = pos 30;
  session_timeout = minus_one;
  cpu_usage = minus_one;
  process_nice = minus_one;
  conn_limit = pos 30;
  trap_log = some (codes "5");
  haas_log = none;
  trap_port = pos 22;
  forward_mode = forward_mode_echo;
  banner = some (codes "OpenSSH_7.2p2 Ubuntu-4ubuntu2.2");
  keys_dir = some (codes "/etc/HaaS/keys/");
  haas_addr = some (codes "haas-app.nic.cz");
  haas_port = pos 10000;
  haas_token = some (codes "T");
}

accepted : config_parse opts false config_init ≡ some parsed
unfolding config_parse config_init int32 ◌-ℤ◌
accepted = refl

config_parse-IsUsable_example : (parsed.want_help ≡ true) ⊎ ((false ≡ false) × IsUsable parsed)
config_parse-IsUsable_example = config_parse-IsUsable opts false parsed accepted

parse_int-decimal_example :
    (parse_int minus_one (decimal 2222) ≡ some (pos 2222))
    × (parse_port minus_one (decimal 2222) ≡ some (pos 2222))
    × (parse_int minus_one (decimal (2 ^ 32 + 2222)) ≡ some (pos 2222))
parse_int-decimal_example = parse_int-decimal 2222 (omega arith) (omega arith)
