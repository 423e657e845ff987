-- ===== src/Config.antt =====
-- src/config.h and the start of src/config.c: the configuration, its initial value and its defaults.
pub mod Number
pub mod Parse
use Prim.Native.Char.{code}
use Prim.Native.String.{String}
use haa_s_libssh.Common.{ℕ, Bool, false, Option, none, some, List, [], ◌∷◌}
use haa_s_libssh.Common.Int.{ℤ, pos, minus_one}

-- A C string without its final zero.
abbrev pub Bytes : Type 0
Bytes = List ℕ

abbrev pub codes : String → Bytes
codes String.[] = []
codes (String.◌∷◌ c s) = code c ∷ codes s

-- The enum of the forward modes.
abbrev pub forward_mode_deny : ℤ
forward_mode_deny = pos 0

abbrev pub forward_mode_allow : ℤ
forward_mode_allow = pos 1

abbrev pub forward_mode_fake : ℤ
forward_mode_fake = pos 2

abbrev pub forward_mode_null : ℤ
forward_mode_null = pos 3

abbrev pub forward_mode_echo : ℤ
forward_mode_echo = pos 4

abbrev pub forward_mode_max : ℤ
forward_mode_max = pos 5

pub record Config : Type 0 where
  pub want_help : Bool
  pub foreground : Bool
  pub debug_level : ℕ
  pub idle_timeout : ℤ
  pub session_timeout : ℤ
  pub cpu_usage : ℤ
  pub process_nice : ℤ
  pub conn_limit : ℤ
  pub trap_log : Option Bytes
  pub haas_log : Option Bytes
  pub trap_port : ℤ
  pub forward_mode : ℤ
  pub banner : Option Bytes
  pub keys_dir : Option Bytes
  pub haas_addr : Option Bytes
  pub haas_port : ℤ
  pub haas_token : Option Bytes

-- `ConfigInit`.
unfoldable pub config_init : Config
config_init = record {
  want_help = false;
  foreground = false;
  debug_level = 0;
  idle_timeout = minus_one;
  session_timeout = minus_one;
  cpu_usage = minus_one;
  process_nice = minus_one;
  conn_limit = minus_one;
  trap_log = some (codes "5");
  haas_log = none;
  trap_port = minus_one;
  forward_mode = minus_one;
  banner = none;
  keys_dir = none;
  haas_addr = none;
  haas_port = minus_one;
  haas_token = none;
}
