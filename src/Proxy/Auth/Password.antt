-- ===== src/Proxy/Auth/Password.antt =====
-- src/proxy.c, `HaasConnect`: how long the text for the HaaS server is, and what a long one does.
use haa_s_libssh.Common.{
  ℕ, ◌+◌, ◌≤◌, ◌≡◌, refl, none, some, arith, Bool-cases, inl, inr, length, length-append,
  if◌then◌else◌,
}
use haa_s_libssh.Common.Int.{ℤ, pos}
use haa_s_libssh.Common.Format.{decimal}
use haa_s_libssh.Config.{Bytes}
use haa_s_libssh.World.{Call, Env, Context, World, called}
use haa_s_libssh.World.Ends.{>>-none, bind-none}
use haa_s_libssh.Proxy.Auth.Outcome.{haas_options_lem}
use haa_s_libssh.Proxy.Auth.{
  haas_password_size, token_of, starts_with_dash, haas_password, haas_options, haas_attempt,
  haas_connect_with, haas_finish, trap_auth_password,
}

-- The text for the HaaS server is as long as the attacker's password where the token starts with a
-- dash. Otherwise it is 67 characters longer than the password, the token, the address and the
-- digits of the port together.
pub length-haas_password :
    (c : Context) (password : Bytes)
    → length (haas_password c password) ≡ (
        if starts_with_dash (token_of c.config)
        then length password
        else 67
          + length password
          + length (token_of c.config)
          + length c.sin_addr
          + length (decimal c.sin_port))
unfolding haas_password
length-haas_password c password = elim (Bool-cases (starts_with_dash (token_of c.config))) [
  | inl dash ↦ rw dash refl
  | inr json ↦ rw json (omega (arith, length-append {0}))
]

attempt_overflow :
    (env : Env) (i : ℤ) (session : ℕ) (password : Bytes) (w : World)
    → i ≡ pos 0
    → haas_password_size ≤ length (haas_password w.ctx password)
    → haas_attempt env i session password w ≡ none
unfolding haas_attempt
attempt_overflow env i session password w e long = ground arith

connect_overflow :
    (env : Env) (session : ℕ) (name password : Bytes) (w : World)
    → haas_password_size ≤ length (haas_password w.ctx password)
    → ((n : ℕ) → env.int n (Call.ssh_connect session) ≡ pos 0)
    → haas_connect_with env session name password w ≡ none
unfolding haas_connect_with
connect_overflow env session name password w long up =
    >>-none (haas_options env session name) _ w _ (haas_options_lem env session name w)
      λ w1 (c, h, t).
        let i = env.int w1.tick (Call.ssh_connect session) in
        let w2 = called (Call.ssh_connect session) w1 in
        bind-none (haas_attempt env i session password) (haas_finish env session) w2
          (attempt_overflow env i session password w2 (up w1.tick) (rw c long))

-- Where the text for the HaaS server with its final zero does not fit the buffer of 1024 bytes,
-- `ssh_new` gives a session and `ssh_connect` on it succeeds whenever it is called, a login of the
-- attacker with that password writes behind the buffer.
pub trap_auth_password_overflow :
    (env : Env) (session s : ℕ) (name password : Bytes) (w : World)
    → haas_password_size ≤ length (haas_password w.ctx password)
    → env.ptr w.tick Call.ssh_new ≡ some s
    → ((n : ℕ) → env.int n (Call.ssh_connect s) ≡ pos 0)
    → trap_auth_password env session name password w ≡ none
unfolding trap_auth_password
trap_auth_password_overflow env session s name password w long new up =
    rw (new, connect_overflow env s name password (called Call.ssh_new w) long up) refl
