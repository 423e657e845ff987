-- ===== src/Proxy/Auth.antt =====
-- src/proxy.c: the login of the attacker, which is a login at the HaaS server with his password.
pub mod Outcome
pub mod Password
use haa_s_libssh.Common.{
  ℕ, suc, ◌+◌, Bool, true, false, not, Option, none, some, List, [], ◌∷◌, ◌++◌, ltb, leb, ◌==◌,
  is_null, if◌then◌else◌, length,
}
use haa_s_libssh.Common.Int.{ℤ, pos, nonzero, eqb_ℤ, ltb_ℤ}
use haa_s_libssh.Common.Format.{decimal}
use haa_s_libssh.Config.{Bytes, Config, codes}
use haa_s_libssh.World.{
  Call, SshOption, Env, Context, World, M, ◌>>=◌, ◌>>◌, fault, pure, skip, when, context, update,
  run, ask_int, ask_ptr, called,
}
use haa_s_libssh.Proxy.Timers.{idle_timer_reset}

abbrev pub max_retries : ℕ
max_retries = 3

-- The size of `HaasPassword`.
abbrev pub haas_password_size : ℕ
haas_password_size = 1024

-- The token, which `ConfigParse` has made sure of.
abbrev pub token_of : Config → Bytes
token_of c = elim c.haas_token [ none ↦ [] | some t ↦ t ]

abbrev pub starts_with_dash : Bytes → Bool
starts_with_dash [] = false
starts_with_dash (b ∷ bs) = b == b'-'

-- The text that goes to the HaaS server as the password.
unfoldable pub haas_password : Context → Bytes → Bytes
haas_password c password =
    if starts_with_dash (token_of c.config)
    then password
    else codes "{"
      ++ (codes " \"pass\": \""
          ++ (password
              ++ (codes "\","
                  ++ (codes " \"device_token\": \""
                      ++ (token_of c.config
                          ++ (codes "\","
                              ++ (codes " \"remote\": \""
                                  ++ (c.sin_addr
                                      ++ (codes "\","
                                          ++ (codes " \"remote_port\": \""
                                              ++ (decimal c.sin_port
                                                  ++ (codes "\"" ++ codes " }"))))))))))))

module _ (env : Env) where
  haas_banner : ℕ → M (Unit {0})
  haas_banner session = do
    banner ← ask_ptr env (Call.ssh_get_issue_banner session)
    elim banner [ none ↦ skip | some b ↦ run (Call.ssh_string_free_char b) ]

  haas_password_login : ℕ → Bytes → M Bool
  haas_password_login session password = do
    i ← ask_int env (Call.ssh_userauth_password session password)
    pure (eqb_ℤ i env.ssh_auth_success)

  -- The part of `HaasAuthenticate` after the attempt to log in with no password.
  haas_methods : ℕ → Bytes → M Bool
  unfolding haas_banner haas_password_login
  haas_methods session password = do
    haas_banner session
    method ← ask_int env (Call.ssh_userauth_list session)
    if env.has_password_method method then haas_password_login session password else pure false

  -- `HaasAuthenticate`.
  unfoldable pub haas_authenticate : ℕ → Bytes → M Bool
  unfolding haas_methods
  haas_authenticate session password = do
    ret ← ask_int env (Call.ssh_userauth_none session)
    if eqb_ℤ ret env.ssh_auth_error then pure false else haas_methods session password

  -- The options of the HaaS session, up to the message callback.
  pub haas_options : ℕ → Bytes → M (Unit {0})
  haas_options session name = do
    c ← context
    run (Call.ssh_options_set session (SshOption.host c.config.haas_addr))
    run (Call.ssh_options_set session (SshOption.port c.config.haas_port))
    run (Call.ssh_options_set session (SshOption.timeout 60))
    run (Call.ssh_set_callbacks (some session) c.client_ssh_cb)
    when c.config.foreground (run (Call.ssh_options_set session (SshOption.user name)))
    elim c.config.haas_log [
      | none ↦ skip
      | some level ↦ run (Call.ssh_options_set session (SshOption.log_verbosity level))
    ]
    run (Call.ssh_set_message_callback (some session))

  -- The text is built in a buffer on the stack; with its final zero it has to fit.
  haas_login : ℕ → Bytes → M Bool
  unfolding haas_authenticate
  haas_login session password = do
    c ← context
    let text = haas_password c password
    if ltb (length text) haas_password_size then haas_authenticate session text else fault

  -- Where the login failed the session is given up.
  haas_finish : ℕ → Bool → M Bool
  haas_finish session true = do update (λ c. record c { haas_session = some session }); pure true
  haas_finish session false = do
    run (Call.ssh_disconnect session)
    run (Call.ssh_free session)
    pure false

  haas_attempt : ℤ → ℕ → Bytes → M Bool
  unfolding haas_login
  haas_attempt i session password = if nonzero i then pure false else haas_login session password

  haas_connect_with : ℕ → Bytes → Bytes → M Bool
  unfolding haas_options haas_attempt haas_finish
  haas_connect_with session name password = do
    haas_options session name
    i ← ask_int env (Call.ssh_connect session)
    accepted ← haas_attempt i session password
    haas_finish session accepted

  -- `HaasConnect`.
  unfoldable pub haas_connect : Bytes → Bytes → M Bool
  unfolding haas_connect_with
  haas_connect name password = do
    session ← ask_ptr env Call.ssh_new
    elim session [ none ↦ pure false | some s ↦ haas_connect_with s name password ]

  -- `TrapAuthNone`, `TrapAuthPubkey` and `TrapAuthGssapiMic` refuse.
  unfoldable pub trap_auth_none : M ℤ
  unfolding idle_timer_reset
  trap_auth_none = do idle_timer_reset env; pure env.ssh_auth_denied

  unfoldable pub trap_auth_pubkey : M ℤ
  unfolding idle_timer_reset
  trap_auth_pubkey = do idle_timer_reset env; pure env.ssh_auth_denied

  unfoldable pub trap_auth_gssapi_mic : M ℤ
  unfolding idle_timer_reset
  trap_auth_gssapi_mic = do idle_timer_reset env; pure env.ssh_auth_denied

  -- The retry that is one too many ends the session.
  too_many : ℕ → M (Unit {0})
  too_many session = do
    c ← context
    when (leb max_retries c.retries)
        (do run (Call.ssh_disconnect session); update (λ c. record c { error = true }))

  password_result : ℕ → Bool → M ℤ
  unfolding too_many
  password_result session true = do
    update (λ c. record c { authenticated = true })
    pure env.ssh_auth_success
  password_result session false = do
    update (λ c. record c { retries = c.retries + 1 })
    too_many session
    pure env.ssh_auth_denied

  -- The part of `TrapAuthPassword` after the attempt to connect.
  password_end : ℕ → Bool → M ℤ
  unfolding password_result idle_timer_reset
  password_end session i = do back ← password_result session i; idle_timer_reset env; pure back

  -- `TrapAuthPassword`, called by libssh for the trap's session.
  unfoldable pub trap_auth_password : ℕ → Bytes → Bytes → M ℤ
  unfolding haas_connect password_end
  trap_auth_password session name password = do
    i ← haas_connect name password
    password_end session i
