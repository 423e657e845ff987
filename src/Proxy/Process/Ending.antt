-- ===== src/Proxy/Process/Ending.antt =====
-- src/proxy.c, `ProxyProcess`: once the process is told to stop it ends, with no fault.
use native.Mathlib.Decide.{dec_le}
use haa_s_libssh.Common.{
  ℕ, zero, suc, ◌+◌, ◌≤◌, ◌<◌, ◌≡◌, refl, ◌∙◌, ap, sym, subst, Bool, true, false, not, ◌&&◌, Option,
  none, some, is_null, arith, List, inl, inr,
}
use haa_s_libssh.Common.Int.{pos, nonzero}
use haa_s_libssh.FwPool.{Heap, get}
use haa_s_libssh.FwPool.Contents.{get_inside}
use haa_s_libssh.FwPool.Done.{fw_pool_done}
use haa_s_libssh.FwPool.Done.Emptied.{fw_pool_done-Owned}
use haa_s_libssh.Config.{Bytes, Config}
use haa_s_libssh.Proxy.Session.{start_context}
use haa_s_libssh.Proxy.Session.Runs.{start_world, start-IsSound}
use haa_s_libssh.Proxy.Open.{session_close}
use haa_s_libssh.World.{Call, Env, Context, World, M, ◌>>◌, skip, called, when, run}
use haa_s_libssh.World.Ends.{Ends, >>=-Ends, >>-Ends, if-Ends, when-Ends, Ends-mono}
use haa_s_libssh.Proxy.Timers.{idle_timer_reset}
use haa_s_libssh.Proxy.Forward.Register.{HasMemory}
use haa_s_libssh.Proxy.Events.Sound.{IsSound, Ready}
use haa_s_libssh.Proxy.Process.{
  Arrivals, Verdict, again, failed, leave, teardown, proxy_process, login_round, login_loop,
  leave_haas, relay_round, relay_loop, relay, after_login, start_timers, main_loop,
}
use haa_s_libssh.Proxy.Process.Rounds.{
  login_round-IsSound, relay_round-IsSound, called-IsSound, idle_timer_reset-IsSound,
  start_timers-IsSound,
}

-- The rule for the three ends of a round.
verdict-Ends :
    {A : Type 0} (v : Verdict) (l m n : M A) (w : World) (Q : A → World → Type 0)
    → Ends (l w) Q
    → Ends (m w) Q
    → Ends (n w) Q
    → Ends ((elim v as (λ _. M A) [ again ↦ l | failed ↦ m | leave ↦ n ]) w) Q
verdict-Ends again l m n w Q h i j = h
verdict-Ends failed l m n w Q h i j = i
verdict-Ends leave l m n w Q h i j = j

module _ (env : Env) (arrivals : Arrivals) (stop : ℕ → Bool) (mem : HasMemory env)
    (ready : (n : ℕ) (w : World) → IsSound w → Ready w (arrivals.event_at n w)) (last : ℕ)
    (stops : (k : ℕ) → last ≤ k → stop k ≡ true) where
  before_last : (k : ℕ) → stop k ≡ false → k < last
  before_last k h = elim (dec_le last k) [
    | yes le ↦ let s = stops k le in absurd (ground arith)
    | no lt ↦ omega arith
  ]

  login_loop-IsSound :
      (fuel k : ℕ) (w : World)
      → k ≤ last
      → last < k + fuel
      → IsSound w
      → Ends (login_loop env arrivals stop k fuel w) (λ r w'. IsSound w' × (r.1 ≤ suc last))
  unfolding login_loop
  login_loop-IsSound zero k w le enough v = absurd (omega arith)
  login_loop-IsSound (suc fuel) k w le enough v =
      if-Ends (stop k) _ _ w _ (λ _. (v, omega arith))
        λ running.
          let lt = before_last k running in
          >>=-Ends (login_round env arrivals stop) _ w _ _
            (login_round-IsSound env arrivals stop mem ready w v)
            λ verdict w1 v1.
              verdict-Ends verdict (login_loop env arrivals stop (suc k) fuel) _ _ w1 _
                (login_loop-IsSound fuel (suc k) w1 lt (omega arith) v1) (v1, omega arith)
                (v1, omega arith)

  relay_loop-IsSound :
      (fuel k : ℕ) (w : World)
      → k ≤ last
      → last < k + fuel
      → IsSound w
      → Ends (relay_loop env arrivals stop k fuel w) (λ _ w'. IsSound w')
  unfolding relay_loop
  relay_loop-IsSound zero k w le enough v = absurd (omega arith)
  relay_loop-IsSound (suc fuel) k w le enough v =
      if-Ends (stop k) _ _ w _ (λ _. v)
        λ running.
          let lt = before_last k running in
          >>=-Ends (relay_round env arrivals stop) _ w _ _
            (relay_round-IsSound env arrivals stop mem ready w v)
            λ verdict w1 v1.
              verdict-Ends verdict (relay_loop env arrivals stop (suc k) fuel) skip skip w1 _
                (relay_loop-IsSound fuel (suc k) w1 lt (omega arith) v1) v1 v1

  relay-IsSound :
      (k : ℕ) (w : World)
      → k ≤ last
      → IsSound w
      → Ends (relay env arrivals stop k (suc last) w) (λ _ w'. IsSound w')
  unfolding relay
  relay-IsSound k w le v =
      let w1 = called (Call.ssh_event_add_session w.ctx.haas_session) w in
      >>-Ends (idle_timer_reset env)
        (relay_loop env arrivals stop k (suc last) >> leave_haas env arrivals stop) w1 IsSound _
        (idle_timer_reset-IsSound env arrivals stop mem ready w1
          (called-IsSound env arrivals stop mem ready _ w v))
        λ w2 v2.
          >>-Ends (relay_loop env arrivals stop k (suc last)) (leave_haas env arrivals stop) w2
            IsSound _ (relay_loop-IsSound (suc last) k w2 le (omega arith) v2)
            (λ w3 v3.
              called-IsSound env arrivals stop mem ready
                (Call.ssh_event_remove_session w3.ctx.haas_session) w3 v3)

  after_login-IsSound :
      (result : Bool × ℕ) (w : World)
      → result.1 ≤ suc last
      → IsSound w
      → Ends (after_login env arrivals stop (suc last) result w) (λ _ w'. IsSound w')
  unfolding after_login
  after_login-IsSound result w le v =
      when-Ends
        (not result.0
          && not (stop result.1)
          && (not (is_null w.ctx.trap_channel) && w.ctx.authenticated))
        (relay env arrivals stop (suc result.1) (suc last)) w IsSound
        (λ go_on.
          let running : stop result.1 ≡ false = ground arith in
          relay-IsSound (suc result.1) w (before_last result.1 running) v)
        (λ _. v)

  main_loop-IsSound :
      (w : World) → IsSound w → Ends (main_loop env arrivals stop (suc last) w) (λ _ w'. IsSound w')
  unfolding main_loop
  main_loop-IsSound w v =
      let w1 =
        called (Call.ssh_event_add_session w.ctx.trap_session)
          (called Call.ssh_event_new (called (Call.ssh_set_auth_methods w.ctx.trap_session) w)) in
      >>-Ends (start_timers env arrivals stop) _ w1 IsSound _
        (start_timers-IsSound env arrivals stop mem ready w1 (
          called-IsSound env arrivals stop mem ready _ _ (
            called-IsSound env arrivals stop mem ready _ _
              (called-IsSound env arrivals stop mem ready _ w v))))
        λ w2 v2.
          >>=-Ends (login_loop env arrivals stop 0 (suc last)) _ w2 _ _
            (login_loop-IsSound (suc last) 0 w2 (omega arith) (omega arith) v2)
            λ result w3 (v3, le).
              >>-Ends (after_login env arrivals stop (suc last) result) _ w3 IsSound _
                (after_login-IsSound result w3 le v3)
                (λ w4 v4.
                  called-IsSound env arrivals stop mem ready _ _
                    (called-IsSound env arrivals stop mem ready _ w4 v4))

-- No pair that the context's pool names is left on the heap.
abbrev pub AllReleased : World → Type 0
AllReleased w = (j a : ℕ) → get w.ctx.forward_pool (pos j) ≡ some a → w.heap a ≡ none

released_pool :
    (env : Env) (w : World)
    → IsSound w
    → Ends (fw_pool_done env w.ctx.forward_pool w) (λ _ w'. (w'.ctx ≡ w.ctx) × AllReleased w')
released_pool env w v = elim v.pool [
  | inl (e, _) ↦
      subst (λ o. Ends (fw_pool_done env o w) (λ _ w'. (w'.ctx ≡ w.ctx) × AllReleased w')) (sym e)
        (unfold fw_pool_done in (refl, λ j a h. absurd (unfold get in ground arith)))
  | inr (p, e, o, _) ↦
      subst (λ q. Ends (fw_pool_done env q w) (λ _ w'. (w'.ctx ≡ w.ctx) × AllReleased w')) (sym e)
        (Ends-mono (fw_pool_done env (some p) w) _ _ (fw_pool_done-Owned env p w o)
          λ _ w' (c, gone, _). (
            c,
            λ j a h.
                let h' : get (some p) (pos j) ≡ some a =
                  ap (λ q. get q (pos j)) (sym (ap (λ (x : Context). x.forward_pool) c ∙ e)) ∙ h in
                gone j a (get_inside p j a h') h',
          ))
]

session_close_lem :
    (env : Env) (session channel : Option ℕ) (w : World)
    → Ends (session_close env session channel w) (λ _ w'. (w'.ctx ≡ w.ctx) × (w'.heap ≡ w.heap))
unfolding session_close
session_close_lem env session channel w = ground arith

pub teardown-AllReleased :
    (env : Env) (arrivals : Arrivals) (stop : ℕ → Bool) (w : World)
    → IsSound w
    → Ends (teardown env arrivals stop w) (λ _ w'. AllReleased w')
unfolding teardown
teardown-AllReleased env arrivals stop w v =
    let end_trap = session_close env w.ctx.trap_session w.ctx.trap_channel in
    >>-Ends (fw_pool_done env w.ctx.forward_pool) _ w _ _ (released_pool env w v) λ w1 (c1, gone).
      >>-Ends (session_close env w.ctx.haas_session w.ctx.haas_channel)
        (run Call.ssh_bind_free >> end_trap) w1 _ _ (session_close_lem env _ _ w1)
        λ w2 (c2, h2).
          let w3 = called Call.ssh_bind_free w2 in
          Ends-mono (end_trap w3) _ _ (session_close_lem env _ _ w3) λ _ w4 (c4, h4) j a e.
            ap (λ (g : Heap). g a) (h4 ∙ h2)
            ∙ gone j a (ap (λ (x : Context). get x.forward_pool (pos j)) (sym (c4 ∙ c2)) ∙ e)

-- `ProxyProcess`, from the key exchange on and with the context that it prepares, ends with no
-- fault in its own memory where the reads of `ShouldStop` give 1 from the one with the number
-- `last` on and the fuel of each loop is one more than that. At its end no pair of its pool is left
-- on the heap. This holds whatever libssh and the system answer, while there is memory, and
-- whatever callbacks come in any order, as long as in a sound session they are for pairs that are
-- not freed and with passwords that fit the buffer. Whether libssh is handed a freed channel is not
-- part of it.
pub proxy_process-AllReleased :
    (env : Env) (arrivals : Arrivals) (stop : ℕ → Bool) (last : ℕ) (addr : Bytes) (port : ℕ)
    (config : Config) (session : Option ℕ) (next tick : ℕ) (trace : List Call)
    → HasMemory env
    → ((n : ℕ) (w : World) → IsSound w → Ready w (arrivals.event_at n w))
    → ((k : ℕ) → last ≤ k → stop k ≡ true)
    → Ends
        (proxy_process env arrivals stop
          (suc last)
          (start_world (start_context addr port config session true) next tick trace))
        (λ _ w'. AllReleased w')
unfolding proxy_process
proxy_process-AllReleased env arrivals stop last addr port config session next tick trace mem ready
      stops =
    let w = start_world (start_context addr port config session true) next tick trace in
    let v = start-IsSound addr port config session next tick trace in
    let call = Call.ssh_handle_key_exchange w.ctx.trap_session in
    let w1 = called call w in
    let v1 = called-IsSound env arrivals stop mem ready call w v in
    >>-Ends (when (not (nonzero (env.int w.tick call))) (main_loop env arrivals stop (suc last)))
      (teardown env arrivals stop) w1 IsSound _
      (when-Ends (not (nonzero (env.int w.tick call))) (main_loop env arrivals stop (suc last)) w1
        IsSound (λ _. main_loop-IsSound env arrivals stop mem ready last stops w1 v1) (λ _. v1))
      (λ w2 v2. teardown-AllReleased env arrivals stop w2 v2)
