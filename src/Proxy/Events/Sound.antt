-- ===== src/Proxy/Events/Sound.antt =====
-- src/proxy.c: whatever events come, a session stays sound.
use haa_s_libssh.Common.{
  ℕ, ◌≡◌, refl, ◌∙◌, ap, sym, subst, ◌⊎◌, inl, inr, false, Option, none, some, is_null, Bool-cases,
  ◌&&◌,
}
use haa_s_libssh.Common.Int.{ℤ}
use haa_s_libssh.Config.{Bytes, Config, forward_mode_deny, forward_mode_fake}
use haa_s_libssh.FwPair.{FwPair}
use haa_s_libssh.FwPool.{Heap}
use haa_s_libssh.FwPool.Owned.{Owned}
use haa_s_libssh.World.{Env, Context, World}
use haa_s_libssh.World.Ends.{Ends, Ends-mono}
use haa_s_libssh.Common.Ends.{Ends-leaves}
use haa_s_libssh.Proxy.Auth.Outcome.{Fits, Outcome}
use haa_s_libssh.Proxy.Forward.{Message, trap_message}
use haa_s_libssh.Proxy.Forward.Modes.{trap_message_ignored, trap_message_fake}
use haa_s_libssh.Proxy.Forward.Framed.{trap_message-Framed}
use haa_s_libssh.Proxy.Forward.Register.{HasPool, HasMemory}
use haa_s_libssh.Proxy.Forward.Register.Accepted.{trap_message-HasPool}
use haa_s_libssh.Proxy.Open.Paired.{IsPaired}
use haa_s_libssh.Proxy.Events.{Event}
use haa_s_libssh.Proxy.Events.Framed.{SameLogin, SamePairs, SameChannels, Calm}

-- There is a pool that owns its pairs, or none is needed.
abbrev pub PoolIsSound : World → Type 0
PoolIsSound w =
    ((w.ctx.forward_pool ≡ none)
      × ((w.ctx.config.forward_mode ≡ forward_mode_deny)
          ⊎ (w.ctx.config.forward_mode ≡ forward_mode_fake)))
    ⊎ HasPool 0 w

-- The session is sound: its pool is, the two session channels exist together, and it is
-- authenticated only with a session at the HaaS server.
pub record IsSound (w : World) : Type 0 where
  pub pool : PoolIsSound w
  pub paired : IsPaired w.ctx
  pub login : (w.ctx.authenticated ≡ false) ⊎ (is_null w.ctx.haas_session ≡ false)

-- What libssh takes care of when it makes a callback: the pair of a forwarded channel is not freed.
-- A password is one that fits.
abbrev pub Ready : World → Event → Type 0
Ready w (Event.auth_password session name password) = Fits w.ctx password
Ready w (Event.on_forward_data a session channel bytes is_stderr) =
    (pair : FwPair) × (w.heap a ≡ some pair)
Ready w (Event.on_forward_eof a channel) = (pair : FwPair) × (w.heap a ≡ some pair)
Ready w (Event.on_forward_close a) = (pair : FwPair) × (w.heap a ≡ some pair)
Ready w _ = Unit {0}

pub pool-kept :
    (w w' : World) → SamePairs w w' → w'.ctx.config ≡ w.ctx.config → PoolIsSound w → PoolIsSound w'
pool-kept w w' (f, h, n) c (inl (e, modes)) = inl (
  f ∙ e,
  subst
      (λ (k : Config). (k.forward_mode ≡ forward_mode_deny) ⊎ (k.forward_mode ≡ forward_mode_fake))
      (sym c) modes,
)
pool-kept w w' (f, h, n) c (inr (p, e, o, le)) =
    inr (
      p,
      f ∙ e,
      subst (λ g. Owned g w'.next p) (sym h) (subst (λ k. Owned w.heap k p) (sym n) o),
      le,
    )

pub login-kept :
    (w w' : World)
    → SameLogin w.ctx w'.ctx
    → (w.ctx.authenticated ≡ false) ⊎ (is_null w.ctx.haas_session ≡ false)
    → (w'.ctx.authenticated ≡ false) ⊎ (is_null w'.ctx.haas_session ≡ false)
login-kept w w' (s, a, c) (inl e) = inl (a ∙ e)
login-kept w w' (s, a, c) (inr e) = inr (ap is_null s ∙ e)

pub IsSound-Calm : (w w' : World) → Calm w w' → IsSound w → IsSound w'
IsSound-Calm w w' ((s, a, c), pairs, (t, h)) v = record {
  pool = pool-kept w w' pairs c v.pool;
  paired = record { together = ap is_null h ∙ v.paired.together ∙ sym (ap is_null t) };
  login = login-kept w w' (s, a, c) v.login;
}

-- Only the pool, the idle timer and fields that a sound session does not look at have changed.
pub IsSound-pool :
    (w w' : World)
    → SameLogin w.ctx w'.ctx
    → SameChannels w.ctx w'.ctx
    → PoolIsSound w'
    → IsSound w
    → IsSound w'
IsSound-pool w w' same (t, h) pool v = record {
  pool = pool;
  paired = record { together = ap is_null h ∙ v.paired.together ∙ sym (ap is_null t) };
  login = login-kept w w' same v.login;
}

pub password-IsSound :
    (env : Env) (session : ℕ) (password : Bytes) (w : World) (code : ℤ) (w' : World)
    → Outcome env session password w code w'
    → IsSound w
    → IsSound w'
password-IsSound env session password w code w' (mem, inl (_, (s, n, e, _, _, _), c)) v = record {
  pool =
      pool-kept w w'
        (
          ap (λ (x : Context). x.forward_pool) c,
          ap (λ (m : Heap × ℕ). m.0) mem,
          ap (λ (m : Heap × ℕ). m.1) mem,
        )
        (ap (λ (x : Context). x.config) c) v.pool;
  paired = record {
    together =
        ap (λ (x : Context). is_null x.haas_channel) c
        ∙ v.paired.together
        ∙ sym (ap (λ (x : Context). is_null x.trap_channel) c);
  };
  login = inr (ap is_null e);
}
password-IsSound env session password w code w' (mem, inr (_, c, _)) v =
    IsSound-Calm w w'
      (
        (subst (SameLogin w.ctx) (sym c) (refl, refl, refl)),
        (
          ap (λ (x : Context). x.forward_pool) c,
          ap (λ (m : Heap × ℕ). m.0) mem,
          ap (λ (m : Heap × ℕ). m.1) mem,
        ),
        (subst (SameChannels w.ctx) (sym c) (refl, refl)),
      )
      v

message_quiet :
    (env : Env) (msg : Option Message) (w : World)
    → (w.ctx.config.forward_mode ≡ forward_mode_deny)
      ⊎ (w.ctx.config.forward_mode ≡ forward_mode_fake)
    → Ends
        (trap_message env msg w)
        (λ _ w'. w'.ctx ≡ record w.ctx { idle_timer = w'.ctx.idle_timer })
message_quiet env msg w (inl deny) =
    Ends-mono (trap_message env msg w) _ _ (trap_message_ignored env msg w (inr deny))
      (λ _ w' (_, c, _, _). c)
message_quiet env none w (inr fake) =
    Ends-mono (trap_message env none w) _ _ (trap_message_ignored env none w (inl refl))
      (λ _ w' (_, c, _, _). c)
message_quiet env (some m) w (inr fake) =
    elim (Bool-cases (m.is_channel_open && m.is_direct_tcpip)) [
      | inl direct ↦
          Ends-mono (trap_message env (some m) w) _ _ (trap_message_fake env m w direct fake)
            (λ _ w' (_, c, _, _). c)
      | inr other ↦
          Ends-mono (trap_message env (some m) w) _ _
            (trap_message_ignored env (some m) w (inl other)) (λ _ w' (_, c, _, _). c)
    ]

pub message-IsSound :
    (env : Env) (msg : Option Message) (w : World)
    → HasMemory env
    → IsSound w
    → PoolIsSound w
    → Ends (trap_message env msg w) (λ _ w'. IsSound w')
message-IsSound env msg w mem v (inl (e, modes)) =
    Ends-mono (trap_message env msg w) _ _ (message_quiet env msg w modes) λ _ w' c.
      IsSound-pool w w' (subst (SameLogin w.ctx) (sym c) (refl, refl, refl))
        (subst (SameChannels w.ctx) (sym c) (refl, refl))
        (inl (
          ap (λ (x : Context). x.forward_pool) c ∙ e,
          subst
              (λ (k : Config).
                (k.forward_mode ≡ forward_mode_deny) ⊎ (k.forward_mode ≡ forward_mode_fake))
              (sym (ap (λ (x : Context). x.config) c)) modes,
        ))
        v
message-IsSound env msg w mem v (inr has) =
    Ends-mono (trap_message env msg w) _ _
      (Ends-leaves (trap_message env msg w) _ _ (trap_message-HasPool env msg 0 w mem has)
        (trap_message-Framed env msg w))
      λ _ w' (has', (c, _)).
        IsSound-pool w w' (subst (SameLogin w.ctx) (sym c) (refl, refl, refl))
          (subst (SameChannels w.ctx) (sym c) (refl, refl)) (inr has') v
