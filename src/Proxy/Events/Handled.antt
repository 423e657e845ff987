-- ===== src/Proxy/Events/Handled.antt =====
-- src/proxy.c: each event leaves a sound session sound.
use haa_s_libssh.Common.{ℕ, ◌≡◌, refl, ◌∙◌, ap, sym, subst, ◌⊎◌, inl, inr, none, some, List, arith}
use haa_s_libssh.Config.{forward_mode_deny, forward_mode_fake}
use haa_s_libssh.FwPair.{FwPair}
use haa_s_libssh.World.{Timeval, Call, Env, Context, World, skip}
use haa_s_libssh.World.Ends.{Ends, option-Ends, >>=-Ends, Ends-mono}
use haa_s_libssh.Proxy.Auth.Outcome.{trap_auth_password-Outcome}
use haa_s_libssh.Proxy.Forward.{trap_message, haas_message}
use haa_s_libssh.Proxy.Forward.Register.{HasMemory}
use haa_s_libssh.Proxy.Auth.{
  trap_auth_none, trap_auth_pubkey, trap_auth_gssapi_mic, trap_auth_password,
}
use haa_s_libssh.Proxy.Channel.{trap_channel}
use haa_s_libssh.Proxy.Channel.Haas.{haas_channel}
use haa_s_libssh.Proxy.Open.{trap_new_channel, trap_service_request}
use haa_s_libssh.Proxy.ForwardChannel.{forward_data, forward_eof, forward_close}
use haa_s_libssh.Proxy.Sweep.{handle_forwards}
use haa_s_libssh.Proxy.Sweep.Polled.{PolledWorld}
use haa_s_libssh.Proxy.Sweep.Safe.{Owned-polled, handle_forwards-Handled}
use haa_s_libssh.Proxy.Events.{Event, forwards_step, handle}
use haa_s_libssh.Proxy.Events.Framed.{
  SameLogin, SameChannels, trap_channel-Calm, haas_channel-Calm, trap_new_channel-frame,
  forward_data-Calm, forward_eof-Calm, forward_close-PolledWorld,
}
use haa_s_libssh.Proxy.Events.Sound.{
  IsSound, PoolIsSound, Ready, IsSound-Calm, IsSound-pool, pool-kept, login-kept, password-IsSound,
  message-IsSound,
}

closed_pool : (w w' : World) → PolledWorld w w' → PoolIsSound w → PoolIsSound w'
closed_pool w w' (c, n, p) (inl none_needed) = inl (
    subst
      (λ (x : Context).
        (x.forward_pool ≡ none)
        × ((x.config.forward_mode ≡ forward_mode_deny)
            ⊎ (x.config.forward_mode ≡ forward_mode_fake)))
      (sym c) none_needed)
closed_pool w w' (c, n, p) (inr (q, e, o, le)) =
    inr (q, ap (λ (x : Context). x.forward_pool) c ∙ e, Owned-polled w w' q (c, n, p) o, le)

close-IsSound :
    (env : Env) (a : ℕ) (pair : FwPair) (w : World)
    → w.heap a ≡ some pair
    → IsSound w
    → Ends (forward_close env (some a) w) (λ _ w'. IsSound w')
close-IsSound env a pair w h v =
    Ends-mono (forward_close env (some a) w) _ _ (forward_close-PolledWorld env a pair w h)
      λ _ w' polled.
        IsSound-pool w w' (subst (SameLogin w.ctx) (sym polled.0) (refl, refl, refl))
          (subst (SameChannels w.ctx) (sym polled.0) (refl, refl)) (closed_pool w w' polled v.pool)
          v

pub forwards-IsSound :
    (env : Env) (w : World) → IsSound w → Ends (forwards_step env w) (λ _ w'. IsSound w')
unfolding forwards_step
forwards-IsSound env w v =
    option-Ends w.ctx.forward_pool skip (λ p. handle_forwards env) w _ (λ _. v)
      λ p e. elim v.pool [
        | inl (none_there, _) ↦ absurd (ground arith)
        | inr (q, eq, o, le) ↦
            Ends-mono (handle_forwards env w) _ _ (handle_forwards-Handled env q w eq o)
              λ _ w' (q', mid, c, own, _, _, _, _).
                IsSound-pool w w' (subst (SameLogin w.ctx) (sym c) (refl, refl, refl))
                  (subst (SameChannels w.ctx) (sym c) (refl, refl))
                  (inr (q', ap (λ (x : Context). x.forward_pool) c, own, omega arith)) v
      ]

-- A callback that restarts the idle timer, and no more.
idle-IsSound :
    (w : World) (timer : Timeval) (tick : ℕ) (trace : List Call)
    → IsSound w
    → IsSound (record w { ctx = record w.ctx { idle_timer = timer }; tick = tick; trace = trace })
idle-IsSound w timer tick trace v =
    IsSound-Calm w _ ((refl, refl, refl), (refl, refl, refl), (refl, refl)) v

-- Between two waits and in each callback: a sound session handles every event that is ready with no
-- fault, whatever libssh and the system answer while there is memory, and is sound again.
pub handle-IsSound :
    (env : Env) (e : Event) (w : World)
    → HasMemory env
    → IsSound w
    → Ready w e
    → Ends (handle env e w) (λ _ w'. IsSound w')
unfolding handle trap_auth_none trap_auth_pubkey trap_auth_gssapi_mic trap_service_request
    haas_message
handle-IsSound env Event.auth_none w mem v r = idle-IsSound w _ _ _ v
handle-IsSound env Event.auth_pubkey w mem v r = idle-IsSound w _ _ _ v
handle-IsSound env Event.auth_gssapi_mic w mem v r = idle-IsSound w _ _ _ v
handle-IsSound env Event.service_request w mem v r = idle-IsSound w _ _ _ v
handle-IsSound env Event.on_haas_message w mem v r = idle-IsSound w _ _ _ v
handle-IsSound env (Event.auth_password session name password) w mem v fits =
    >>=-Ends (trap_auth_password env session name password) _ w _ _
      (trap_auth_password-Outcome env session name password w fits)
      λ code w' o. password-IsSound env session password w code w' o v
handle-IsSound env (Event.channel_open_request_session session) w mem v r =
    >>=-Ends (trap_new_channel env session) _ w _ _ (trap_new_channel-frame env session w v.paired)
      λ _ w' (same, pairs, paired). record {
        pool = pool-kept w w' pairs same.2 v.pool;
        paired = paired;
        login = login-kept w w' same v.login;
      }
handle-IsSound env (Event.on_trap_channel e) w mem v r =
    >>=-Ends (trap_channel env e) _ w _ _ (trap_channel-Calm env e w)
      λ _ w' calm. IsSound-Calm w w' calm v
handle-IsSound env (Event.on_haas_channel e) w mem v r =
    >>=-Ends (haas_channel env e) _ w _ _ (haas_channel-Calm env e w)
      λ _ w' calm. IsSound-Calm w w' calm v
handle-IsSound env (Event.on_trap_message msg) w mem v r =
    >>=-Ends (trap_message env msg) _ w _ _ (message-IsSound env msg w mem v v.pool)
      λ _ w' sound. sound
handle-IsSound env (Event.on_forward_data a session channel bytes is_stderr) w mem v (pair, h) =
    >>=-Ends (forward_data env (some a) session channel bytes is_stderr) _ w _ _
      (forward_data-Calm env a pair session channel bytes is_stderr w h)
      λ _ w' calm. IsSound-Calm w w' calm v
handle-IsSound env (Event.on_forward_eof a channel) w mem v (pair, h) =
    Ends-mono (forward_eof env (some a) channel w) _ _ (forward_eof-Calm env a pair channel w h)
      λ _ w' calm. IsSound-Calm w w' calm v
handle-IsSound env (Event.on_forward_close a) w mem v (pair, h) = close-IsSound env a pair w h v
handle-IsSound env Event.forwards w mem v r = forwards-IsSound env w v
