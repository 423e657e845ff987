-- ===== src/Config/Parse.antt =====
-- src/config.c, `ConfigParse`. What `getopt` finds on the command line is a parameter: the options as
-- it returns them, and whether arguments are left over.
pub mod Valid
use haa_s_libssh.Common.{
  ℕ, ◌+◌, Bool, true, false, not, ◌||◌, Option, none, some, List, [], ◌∷◌, is_null, ◌==◌,
  if◌then◌else◌,
}
use haa_s_libssh.Common.Int.{ℤ, pos, minus_one, eqb_ℤ, leb_ℤ, ltb_ℤ, int32}
use haa_s_libssh.Config.{Bytes, codes, Config, forward_mode_fake, forward_mode_max}
use haa_s_libssh.Config.Number.{strtol, is_empty, parse_int, parse_port}

-- What `getopt` returns, with `optarg` or `optopt`.
pub data Opt : Type 0 where
  opt_f opt_d opt_h unexpected : Opt
  opt_p opt_a opt_r opt_b opt_t opt_k opt_i opt_s opt_u opt_n opt_c opt_m : Bytes → Opt
  missing_argument question_mark : ℕ → Opt

-- A number goes into the configuration, or ends the loop with an error.
abbrev put : Option ℤ → (ℤ → Config) → Option Config
put none set = none
put (some i) set = some (set i)

-- A string that was not given before.
abbrev put_string : Option Bytes → Config → Option Config
put_string none c = some c
put_string (some s) c = none

-- The value of `-m`.
parse_mode : ℤ → Bytes → Option ℤ
unfolding strtol
parse_mode value optarg =
    let r = strtol optarg in
    let i = int32 r.0 in
    if not (eqb_ℤ value minus_one)
    then none
    else if not (is_empty r.1)
    then none
    else if ltb_ℤ i (pos 0) || leb_ℤ forward_mode_max i
    then none
    else some i

-- One round of the loop; an error ends it.
parse_option : Opt → Config → Option Config
unfolding parse_int parse_port parse_mode
parse_option opt_f c = some (record c { foreground = true })
parse_option (opt_p s) c = put (parse_port c.trap_port s) (λ i. record c { trap_port = i })
parse_option (opt_a s) c = put_string c.haas_addr (record c { haas_addr = some s })
parse_option (opt_r s) c = put (parse_port c.haas_port s) (λ i. record c { haas_port = i })
parse_option (opt_b s) c = put_string c.banner (record c { banner = some s })
parse_option (opt_t s) c = put_string c.haas_token (record c { haas_token = some s })
parse_option (opt_k s) c = put_string c.keys_dir (record c { keys_dir = some s })
parse_option opt_d c = some (record c { debug_level = c.debug_level + 1 })
parse_option (opt_i s) c = put (parse_int c.idle_timeout s) (λ i. record c { idle_timeout = i })
parse_option (opt_s s) c =
    put (parse_int c.session_timeout s) (λ i. record c { session_timeout = i })
parse_option (opt_u s) c = put (parse_int c.cpu_usage s) (λ i. record c { cpu_usage = i })
parse_option (opt_n s) c = put (parse_int c.process_nice s) (λ i. record c { process_nice = i })
parse_option (opt_c s) c = put (parse_int c.conn_limit s) (λ i. record c { conn_limit = i })
parse_option (opt_m s) c = put (parse_mode c.forward_mode s) (λ i. record c { forward_mode = i })
parse_option (missing_argument optopt) c = none
parse_option opt_h c = some (record c { want_help = true })
parse_option (question_mark optopt) c =
    if optopt == 63 then some (record c { want_help = true }) else none
parse_option unexpected c = some c

parse_options : List Opt → Config → Option Config
unfolding parse_option
parse_options [] c = some c
parse_options (o ∷ os) c = elim (parse_option o c) [ none ↦ none | some d ↦ parse_options os d ]

abbrev number_or : ℤ → ℤ → ℤ
number_or i other = if eqb_ℤ i minus_one then other else i

abbrev string_or : Option Bytes → Bytes → Option Bytes
string_or none other = some other
string_or (some s) other = some s

-- The values of options that were not given.
defaults : Config → Config
defaults c = record c {
  trap_port = number_or c.trap_port (pos 2222);
  haas_addr = string_or c.haas_addr (codes "haas-app.nic.cz");
  haas_port = number_or c.haas_port (pos 10000);
  keys_dir = string_or c.keys_dir (codes "/etc/HaaS/keys/");
  idle_timeout = number_or c.idle_timeout (pos 30);
  conn_limit = number_or c.conn_limit (pos 30);
  banner = string_or c.banner (codes "OpenSSH_7.2p2 Ubuntu-4ubuntu2.2");
  forward_mode = number_or c.forward_mode forward_mode_fake;
}

-- The tests after the loop.
check_options : Bool → Config → Option Config
unfolding defaults
check_options extra c =
    if c.want_help
    then some c
    else if extra
    then none
    else if is_null c.haas_token
    then none
    else some (defaults c)

-- `ConfigParse`: the configuration where it returns 1.
unfoldable pub config_parse : List Opt → Bool → Config → Option Config
unfolding parse_options check_options
config_parse opts extra c = elim (parse_options opts c) [
  | none ↦ none
  | some d ↦ check_options extra d
]
