-- ===== src/Config/Parse/Valid.antt =====
-- src/config.c, `ConfigParse`: a configuration that it accepts is complete and in range.
use haa_s_libssh.Common.{
  ◌≡◌, refl, subst, sym, ◌⊎◌, inl, inr, Bool, true, false, ◌&&◌, ◌||◌, Option, none, some, List, [],
  ◌∷◌, arith, is_null, if◌then◌else◌, Bool-cases,
}
use haa_s_libssh.Common.Int.{ℤ, pos, minus_one, eqb_ℤ, leb_ℤ, ltb_ℤ}
use haa_s_libssh.Config.{Bytes, Config, config_init, forward_mode_max, forward_mode_fake}
use haa_s_libssh.Config.Number.{parse_int, parse_port}
use haa_s_libssh.Config.Parse.{
  Opt, opt_p, opt_r, opt_i, opt_s, opt_u, opt_n, opt_c, opt_m, parse_mode, parse_option,
  parse_options, defaults, number_or, check_options, config_parse, put,
}

abbrev pub positive : ℤ → Bool
positive i = ltb_ℤ (pos 0) i

abbrev pub is_port : ℤ → Bool
is_port i = ltb_ℤ (pos 0) i && ltb_ℤ i (pos 65535)

abbrev pub is_mode : ℤ → Bool
is_mode i = leb_ℤ (pos 0) i && ltb_ℤ i forward_mode_max

-- Not given, or in range.
abbrev pub unset_or : (ℤ → Bool) → ℤ → Bool
unset_or good i = eqb_ℤ i minus_one || good i

-- What holds between the options.
abbrev InRange : Config → Type 0
InRange c =
    (unset_or is_port c.trap_port ≡ true)
    × (unset_or is_port c.haas_port ≡ true)
    × (unset_or is_mode c.forward_mode ≡ true)
    × (unset_or positive c.idle_timeout ≡ true)
    × (unset_or positive c.session_timeout ≡ true)
    × (unset_or positive c.cpu_usage ≡ true)
    × (unset_or positive c.process_nice ≡ true)
    × (unset_or positive c.conn_limit ≡ true)

-- A configuration that the proxy can run with.
pub record IsUsable (c : Config) : Type 0 where
  pub trap_port_ok : is_port c.trap_port ≡ true
  pub haas_port_ok : is_port c.haas_port ≡ true
  pub mode_ok : is_mode c.forward_mode ≡ true
  pub idle_ok : positive c.idle_timeout ≡ true
  pub conns_ok : positive c.conn_limit ≡ true
  pub session_ok : unset_or positive c.session_timeout ≡ true
  pub cpu_ok : unset_or positive c.cpu_usage ≡ true
  pub nice_ok : unset_or positive c.process_nice ≡ true
  pub strings_ok :
      is_null c.haas_token || is_null c.haas_addr || is_null c.keys_dir || is_null c.banner ≡ false

-- What a parser of numbers may give.
abbrev Gives : (ℤ → Bool) → Option ℤ → Type 0
Gives good none = Unit {0}
Gives good (some i) = good i ≡ true

parse_int_lem : (value : ℤ) (s : Bytes) → Gives positive (parse_int value s)
unfolding parse_int
parse_int_lem value s = ground arith

port_from :
    (o : Option ℤ)
    → Gives positive o
    → Gives is_port (elim o [ none ↦ none | some i ↦ if leb_ℤ (pos 65535) i then none else some i ])
port_from none h = tt
port_from (some i) h = ground arith

parse_port_lem : (value : ℤ) (s : Bytes) → Gives is_port (parse_port value s)
unfolding parse_port
parse_port_lem value s = port_from (parse_int value s) (parse_int_lem value s)

parse_mode_lem : (value : ℤ) (s : Bytes) → Gives is_mode (parse_mode value s)
unfolding parse_mode
parse_mode_lem value s = ground arith

-- What holds of a configuration, if there is one.
abbrev Holds : (Config → Type 0) → Option Config → Type 0
Holds P none = Unit {0}
Holds P (some c) = P c

unset_or_good : (good : ℤ → Bool) (i : ℤ) → good i ≡ true → unset_or good i ≡ true
unset_or_good good i h = ground arith

put-Holds :
    (good : ℤ → Bool) (o : Option ℤ) (set : ℤ → Config)
    → Gives good o
    → ((i : ℤ) → unset_or good i ≡ true → InRange (set i))
    → Holds InRange (put o set)
put-Holds good none set h k = tt
put-Holds good (some i) set h k = k i (unset_or_good good i h)

parse_option-InRange : (o : Opt) (c : Config) → InRange c → Holds InRange (parse_option o c)
unfolding parse_option
parse_option-InRange (opt_p str) c (p, r, m, i, s, u, n, k) =
    put-Holds is_port (parse_port c.trap_port str) _ (parse_port_lem c.trap_port str)
      (λ _ h. (h, r, m, i, s, u, n, k))
parse_option-InRange (opt_r str) c (p, r, m, i, s, u, n, k) =
    put-Holds is_port (parse_port c.haas_port str) _ (parse_port_lem c.haas_port str)
      (λ _ h. (p, h, m, i, s, u, n, k))
parse_option-InRange (opt_m str) c (p, r, m, i, s, u, n, k) =
    put-Holds is_mode (parse_mode c.forward_mode str) _ (parse_mode_lem c.forward_mode str)
      (λ _ h. (p, r, h, i, s, u, n, k))
parse_option-InRange (opt_i str) c (p, r, m, i, s, u, n, k) =
    put-Holds positive (parse_int c.idle_timeout str) _ (parse_int_lem c.idle_timeout str)
      (λ _ h. (p, r, m, h, s, u, n, k))
parse_option-InRange (opt_s str) c (p, r, m, i, s, u, n, k) =
    put-Holds positive (parse_int c.session_timeout str) _ (parse_int_lem c.session_timeout str)
      (λ _ h. (p, r, m, i, h, u, n, k))
parse_option-InRange (opt_u str) c (p, r, m, i, s, u, n, k) =
    put-Holds positive (parse_int c.cpu_usage str) _ (parse_int_lem c.cpu_usage str)
      (λ _ h. (p, r, m, i, s, h, n, k))
parse_option-InRange (opt_n str) c (p, r, m, i, s, u, n, k) =
    put-Holds positive (parse_int c.process_nice str) _ (parse_int_lem c.process_nice str)
      (λ _ h. (p, r, m, i, s, u, h, k))
parse_option-InRange (opt_c str) c (p, r, m, i, s, u, n, k) =
    put-Holds positive (parse_int c.conn_limit str) _ (parse_int_lem c.conn_limit str)
      (λ _ h. (p, r, m, i, s, u, n, h))
parse_option-InRange o c v = ground arith

options_from :
    (os : List Opt) (r : Option Config)
    → Holds InRange r
    → ((d : Config) → InRange d → Holds InRange (parse_options os d))
    → Holds InRange (elim r [ none ↦ none | some d ↦ parse_options os d ])
options_from os none h k = tt
options_from os (some d) h k = k d h

parse_options-InRange :
    (os : List Opt) (c : Config) → InRange c → Holds InRange (parse_options os c)
unfolding parse_options
parse_options-InRange [] c v = v
parse_options-InRange (o ∷ os) c v =
    options_from os (parse_option o c) (parse_option-InRange o c v)
      (λ d h. parse_options-InRange os d h)

number_or_lem :
    (good : ℤ → Bool) (i other : ℤ)
    → unset_or good i ≡ true
    → good other ≡ true
    → good (number_or i other) ≡ true
number_or_lem good i other h k = elim (Bool-cases (eqb_ℤ i minus_one)) [
  | inl unset ↦ rw unset k
  | inr given ↦ rw given (rw given at h)
]

strings_there :
    (c : Config)
    → false
        || is_null (defaults c).haas_addr
        || is_null (defaults c).keys_dir
        || is_null (defaults c).banner
      ≡ false
unfolding defaults
strings_there c = ground arith

defaults-IsUsable : (c : Config) → InRange c → is_null c.haas_token ≡ false → IsUsable (defaults c)
unfolding defaults
defaults-IsUsable c (p, r, m, i, s, u, n, k) token = record {
  trap_port_ok = number_or_lem is_port c.trap_port (pos 2222) p refl;
  haas_port_ok = number_or_lem is_port c.haas_port (pos 10000) r refl;
  mode_ok = number_or_lem is_mode c.forward_mode forward_mode_fake m refl;
  idle_ok = number_or_lem positive c.idle_timeout (pos 30) i refl;
  conns_ok = number_or_lem positive c.conn_limit (pos 30) k refl;
  session_ok = s;
  cpu_ok = u;
  nice_ok = n;
  strings_ok = rw token (strings_there c);
}

-- The result of the tests: help is wanted, or nothing is left over and the configuration is usable.
abbrev Accepts : Bool → Config → Type 0
Accepts extra c = (c.want_help ≡ true) ⊎ ((extra ≡ false) × IsUsable c)

check_options-Accepts :
    (extra : Bool) (c : Config) → InRange c → Holds (Accepts extra) (check_options extra c)
unfolding check_options
check_options-Accepts extra c v = elim (Bool-cases c.want_help) [
  | inl help ↦ subst (Holds (Accepts extra)) (sym (if_true help)) (inl help)
  | inr run ↦ subst (Holds (Accepts extra)) (sym (if_false run)) (rest extra)
]
  where
    tests : Bool → Option Config
    tests extra = if extra then none else if is_null c.haas_token then none else some (defaults c)

    if_true : c.want_help ≡ true → (if c.want_help then some c else tests extra) ≡ some c
    if_true h = rw h refl

    if_false : c.want_help ≡ false → (if c.want_help then some c else tests extra) ≡ tests extra
    if_false h = rw h refl

    token_test :
        (b : Bool)
        → b ≡ is_null c.haas_token
        → Holds (Accepts false) (if b then none else some (defaults c))
    token_test true e = tt
    token_test false e = inr (refl, defaults-IsUsable c v (sym e))

    rest : (extra : Bool) → Holds (Accepts extra) (tests extra)
    rest true = tt
    rest false = token_test (is_null c.haas_token) refl

init-InRange : InRange config_init
unfolding config_init
init-InRange = (refl, refl, refl, refl, refl, refl, refl, refl)

-- Where `ConfigParse` accepts a command line, starting from what `ConfigInit` sets, help is wanted, or
-- no argument is left over and the configuration is usable: both ports lie from 1 to 65534, the mode is
-- one of the five, the idle timeout and the limit on connections are above 0, the other numbers are
-- above 0 or -1, and the token, the server's address, the folder of the keys and the banner are there.
pub config_parse-IsUsable :
    (opts : List Opt) (extra : Bool) (c : Config)
    → config_parse opts extra config_init ≡ some c
    → (c.want_help ≡ true) ⊎ ((extra ≡ false) × IsUsable c)
unfolding config_parse
config_parse-IsUsable opts extra c h =
    subst (Holds (Accepts extra)) h (
      checked (parse_options opts config_init)
        (parse_options-InRange opts config_init init-InRange))
  where
    checked :
        (r : Option Config)
        → Holds InRange r
        → Holds (Accepts extra) (elim r [ none ↦ none | some d ↦ check_options extra d ])
    checked none v = tt
    checked (some d) v = check_options-Accepts extra d v
