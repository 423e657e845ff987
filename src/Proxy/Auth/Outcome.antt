-- ===== src/Proxy/Auth/Outcome.antt =====
-- src/proxy.c, `TrapAuthPassword`: what a login changes, whatever libssh answers.
use haa_s_libssh.Common.{
  ℕ, suc, ◌+◌, ◌≤◌, ◌<◌, ◌≡◌, refl, ap, subst, ◌⊎◌, inl, inr, Bool, true, false, some, List, ◌∷◌,
  arith, length, leb, ◌||◌, lt→ltb, ◌∙◌,
}
use haa_s_libssh.Common.Int.{ℤ, nonzero, eqb_ℤ, eqb_ℤ→eq}
use haa_s_libssh.Config.{Bytes}
use haa_s_libssh.FwPool.{Heap}
use haa_s_libssh.World.{Call, Env, Context, World, called}
use haa_s_libssh.World.Ends.{Ends, >>=-Ends, >>-Ends, if-Ends, option-Ends, Ends-mono}
use haa_s_libssh.Proxy.Auth.{
  haas_authenticate, haas_banner, haas_methods, haas_password_login, max_retries,
  haas_password_size, haas_password, haas_connect, trap_auth_password, haas_options, haas_login,
  haas_finish, haas_connect_with, haas_attempt, password_end,
}

-- The heap of pairs, and the address that `malloc` gives out next.
abbrev pub memory_of : World → Heap × ℕ
memory_of w = (w.heap, w.next)

pub haas_options_lem :
    (env : Env) (session : ℕ) (name : Bytes) (w : World)
    → Ends
        (haas_options env session name w)
        (λ _ w'. (w'.ctx ≡ w.ctx) × (memory_of w' ≡ memory_of w) × (w.tick ≤ w'.tick))
unfolding haas_options
haas_options_lem env session name w = ground arith

-- The last call before the world `w'` was an accepted login of the session with the text.
abbrev JustAccepted : Env → ℕ → Bytes → World → Type 0
JustAccepted env session text w' =
    (n : ℕ) × (w'.tick ≡ suc n)
    × (env.int n (Call.ssh_userauth_password session text) ≡ env.ssh_auth_success)

abbrev Tried : Env → ℕ → Bytes → World → Bool → World → Type 0
Tried env session text w accepted w' =
    (w'.ctx ≡ w.ctx)
    × (memory_of w' ≡ memory_of w)
    × (w.tick < w'.tick)
    × (accepted ≡ true → JustAccepted env session text w')

haas_password_login_lem :
    (env : Env) (session : ℕ) (text : Bytes) (w : World)
    → Ends (haas_password_login env session text w) (Tried env session text w)
unfolding haas_password_login
haas_password_login_lem env session text w =
    (refl, refl, omega arith, λ h. (w.tick, refl, eqb_ℤ→eq _ _ h))

haas_banner_lem :
    (env : Env) (session : ℕ) (w : World)
    → Ends
        (haas_banner env session w)
        (λ _ w'. (w'.ctx ≡ w.ctx) × (memory_of w' ≡ memory_of w) × (w.tick ≤ w'.tick))
unfolding haas_banner
haas_banner_lem env session w = ground arith

haas_methods_lem :
    (env : Env) (session : ℕ) (text : Bytes) (w : World)
    → Ends (haas_methods env session text w) (Tried env session text w)
unfolding haas_methods
haas_methods_lem env session text w =
    >>-Ends (haas_banner env session) _ w _ _ (haas_banner_lem env session w) λ w1 (c, h, t).
      let w2 = called (Call.ssh_userauth_list session) w1 in
      if-Ends (env.has_password_method (env.int w1.tick (Call.ssh_userauth_list session))) _ _ w2 _
        (λ _. (c, h, omega arith, λ k. (suc w1.tick, refl, eqb_ℤ→eq _ _ k)))
        (λ _. (c, h, omega arith, λ k. cc))

haas_authenticate_lem :
    (env : Env) (session : ℕ) (text : Bytes) (w : World)
    → Ends (haas_authenticate env session text w) (Tried env session text w)
unfolding haas_authenticate
haas_authenticate_lem env session text w =
    let w1 = called (Call.ssh_userauth_none session) w in
    if-Ends (eqb_ℤ (env.int w.tick (Call.ssh_userauth_none session)) env.ssh_auth_error) _ _ w1 _
      (λ _. (refl, refl, omega arith, λ k. cc))
      (λ _.
        Ends-mono (haas_methods env session text w1) _ _ (haas_methods_lem env session text w1)
          λ b w' (c, h, t, a). (c, h, omega arith, a))

-- The text fits its buffer.
abbrev pub Fits : Context → Bytes → Type 0
Fits c password = length (haas_password c password) < haas_password_size

haas_login_lem :
    (env : Env) (session : ℕ) (password : Bytes) (w : World)
    → Fits w.ctx password
    → Ends (haas_login env session password w) (Tried env session (haas_password w.ctx password) w)
unfolding haas_login
haas_login_lem env session password w fits =
    rw (lt→ltb _ _ fits) (haas_authenticate_lem env session (haas_password w.ctx password) w)

-- The HaaS server accepted the text for the session `s`, in a call of this run.
abbrev pub Accepted : Env → Bytes → World → World → Type 0
Accepted env password w w' =
    (s : ℕ) × (n : ℕ) × (w'.ctx.haas_session ≡ some s)
    × (w.tick ≤ n)
    × (n < w'.tick)
    × (env.int n (Call.ssh_userauth_password s (haas_password w.ctx password))
        ≡ env.ssh_auth_success)

abbrev Connected : Env → Bytes → World → Bool → World → Type 0
Connected env password w accepted w' =
    (memory_of w' ≡ memory_of w)
    × (w'.ctx ≡ record w.ctx { haas_session = w'.ctx.haas_session })
    × (accepted ≡ false → w'.ctx ≡ w.ctx)
    × (accepted ≡ true → Accepted env password w w')

haas_finish_lem :
    (env : Env) (session : ℕ) (password : Bytes) (w : World) (b : Bool) (w3 : World)
    → Tried env session (haas_password w.ctx password) w b w3
    → Ends (haas_finish env session b w3) (Connected env password w)
unfolding haas_finish
haas_finish_lem env session password w true w3 (c, h, t, a) =
    let (n, last, ok) = a refl in
    (
      h,
      ap (λ (x : Context). record x { haas_session = some session }) c,
      λ k. cc,
      λ _. (session, n, refl, omega arith, omega arith, ok),
    )
haas_finish_lem env session password w false w3 (c, h, t, a) = (h, ground arith, λ k. c, λ k. cc)

haas_connect_with_lem :
    (env : Env) (session : ℕ) (name password : Bytes) (w : World)
    → Fits w.ctx password
    → Ends (haas_connect_with env session name password w) (Connected env password w)
unfolding haas_connect_with
haas_connect_with_lem env session name password w fits =
    >>-Ends (haas_options env session name) _ w
      (λ w'. (w'.ctx ≡ w.ctx) × (memory_of w' ≡ memory_of w) × (w.tick ≤ w'.tick)) _
      (haas_options_lem env session name w)
      λ w1 (c1, h1, t1).
        let w2 = called (Call.ssh_connect session) w1 in
        let i = env.int w1.tick (Call.ssh_connect session) in
        >>=-Ends (haas_attempt env i session password) (haas_finish env session) w2
          (Tried env session (haas_password w.ctx password) w) _
          (if-Ends (nonzero i) _ _ w2 (Tried env session (haas_password w.ctx password) w)
            (λ _. (c1, h1, omega arith, λ k. cc))
            (λ _.
              Ends-mono (haas_login env session password w2) _ _
                (haas_login_lem env session password w2 (rw c1 fits))
                λ b w3 (c, h, t, a). (c ∙ c1, h ∙ h1, omega arith, λ k. rw c1 at (a k))))
          (λ b w3 q. haas_finish_lem env session password w b w3 q)

haas_connect_lem :
    (env : Env) (name password : Bytes) (w : World)
    → Fits w.ctx password
    → Ends (haas_connect env name password w) (Connected env password w)
unfolding haas_connect
haas_connect_lem env name password w fits =
    let w1 = called Call.ssh_new w in
    option-Ends (env.ptr w.tick Call.ssh_new) _ (λ s. haas_connect_with env s name password) w1
      (Connected env password w) (λ _. (refl, refl, λ k. refl, λ k. cc))
      (λ s _.
        Ends-mono (haas_connect_with env s name password w1) _ _
          (haas_connect_with_lem env s name password w1 fits)
          λ b w' (h, c, refusal, grant). (
            h,
            c,
            refusal,
            λ k. let (s', n, e, lo, hi, ok) = grant k in (s', n, e, omega arith, hi, ok),
          ))

abbrev pub Outcome : Env → ℕ → Bytes → World → ℤ → World → Type 0
Outcome env session password w code w' =
    (memory_of w' ≡ memory_of w)
    × (((code ≡ env.ssh_auth_success)
          × Accepted env password w w'
          × (w'.ctx ≡ record w.ctx {
            authenticated = true;
            haas_session = w'.ctx.haas_session;
            idle_timer = w'.ctx.idle_timer;
          }))
        ⊎ ((code ≡ env.ssh_auth_denied)
            × (w'.ctx ≡ record w.ctx {
              retries = w.ctx.retries + 1;
              error = w.ctx.error || leb max_retries (w.ctx.retries + 1);
              idle_timer = w'.ctx.idle_timer;
            })
            × ((w.ctx.retries + 1 < max_retries)
                ⊎ ((t : List Call) × (w'.trace
                      ≡ Call.gettimeofday ∷ Call.ssh_disconnect session ∷ t)))))

refused_lem :
    (env : Env) (session : ℕ) (w : World)
    → Ends (password_end env session false w) (λ code w'.
      (memory_of w' ≡ memory_of w)
      × (code ≡ env.ssh_auth_denied)
      × (w'.ctx ≡ record w.ctx {
        retries = w.ctx.retries + 1;
        error = w.ctx.error || leb max_retries (w.ctx.retries + 1);
        idle_timer = w'.ctx.idle_timer;
      })
      × ((w.ctx.retries + 1 < max_retries)
          ⊎ ((t : List Call) × (w'.trace ≡ Call.gettimeofday ∷ Call.ssh_disconnect session ∷ t))))
unfolding password_end
refused_lem env session w = ground arith

password_end_lem :
    (env : Env) (session : ℕ) (password : Bytes) (w : World) (b : Bool) (w1 : World)
    → Connected env password w b w1
    → Ends (password_end env session b w1) (Outcome env session password w)
unfolding password_end
password_end_lem env session password w true w1 (h, c, refusal, grant) =
    let (s, n, e, lo, hi, ok) = grant refl in
    (h, inl (refl, (s, n, e, lo, omega arith, ok), ground arith))
password_end_lem env session password w false w1 (h, c, refusal, grant) =
    Ends-mono (password_end env session false w1) _ _ (refused_lem env session w1)
      λ code w' (h', e, c', t'). (
        h' ∙ h,
        inr (
          e,
          c'
              ∙ ap
                  (λ (x : Context). record x {
                    retries = x.retries + 1;
                    error = x.error || leb max_retries (x.retries + 1);
                    idle_timer = w'.ctx.idle_timer;
                  })
                  (refusal refl),
          subst
              (λ (x : Context).
                (x.retries + 1 < max_retries)
                ⊎ ((t : List Call) × (w'.trace
                      ≡ Call.gettimeofday ∷ Call.ssh_disconnect session ∷ t)))
              (refusal refl) t',
        ),
      )

-- A login never faults while the text for the HaaS server fits its buffer, and has two outcomes. It
-- is granted: then the HaaS server accepted that text in a call of this run, and the context holds
-- that session and is authenticated. Or it is refused: then the retry is counted, and with the third
-- the error is set and the attacker's session is disconnected. Nothing else changes but the idle
-- timer.
pub trap_auth_password-Outcome :
    (env : Env) (session : ℕ) (name password : Bytes) (w : World)
    → Fits w.ctx password
    → Ends (trap_auth_password env session name password w) (Outcome env session password w)
unfolding trap_auth_password
trap_auth_password-Outcome env session name password w fits =
    >>=-Ends (haas_connect env name password) _ w _ _ (haas_connect_lem env name password w fits)
      (password_end_lem env session password w)
