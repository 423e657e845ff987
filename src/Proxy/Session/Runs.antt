-- ===== src/Proxy/Session/Runs.antt =====
-- src/proxy.c, `ProxyProcess`: a session as a sequence of events.
use haa_s_libssh.Common.{
  ℕ, ◌≡◌, refl, ◌⊎◌, inl, inr, true, Bool-cases, Option, none, some, List, [], arith, subst,
}
use haa_s_libssh.Common.Int.{eqb_ℤ, eqb_ℤ→eq}
use haa_s_libssh.Config.{Bytes, Config, forward_mode_deny, forward_mode_fake}
use haa_s_libssh.FwPool
use haa_s_libssh.FwPool.{FwPool, Heap}
use haa_s_libssh.FwPool.Owned.{Owned}
use haa_s_libssh.World.{Call, Env, Context, World}
use haa_s_libssh.World.Ends.{Ends}
use haa_s_libssh.Proxy.Forward.Register.{HasMemory}
use haa_s_libssh.Proxy.Events.{Event, handle}
use haa_s_libssh.Proxy.Events.Sound.{IsSound, Ready}
use haa_s_libssh.Proxy.Events.Handled.{handle-IsSound}
use haa_s_libssh.Proxy.Session.{start_pool, start_context}

-- What a session can go through: events that are ready, each handled with no fault.
pub data Run (env : Env) : World → World → Type 0 where
  done : {w : World} → Run env w w
  next_event :
      {w w1 w2 : World} (e : Event)
      → Ready w e
      → handle env e w ≡ some (tt, w1)
      → Run env w1 w2
      → Run env w w2

handled :
    (env : Env) (r : Option (Unit {0} × World)) (w1 : World)
    → r ≡ some (tt, w1)
    → Ends r (λ _ w'. IsSound w')
    → IsSound w1
handled env r w1 e h = subst (λ r. Ends r (λ _ w'. IsSound w')) e h

Run-IsSound : (env : Env) {w w' : World} → HasMemory env → IsSound w → Run env w w' → IsSound w'
Run-IsSound env mem v done = v
Run-IsSound env {w} mem v (next_event {w1 = w1} e ready h rest) =
    Run-IsSound env mem (handled env (handle env e w) w1 h (handle-IsSound env e w mem v ready))
      rest

-- The start of a process: there are no pairs.
abbrev pub start_world : Context → ℕ → ℕ → List Call → World
start_world c next tick trace = record {
  ctx = c;
  heap = λ a. none;
  next = next;
  tick = tick;
  trace = trace;
}

empty_pool : FwPool
empty_pool = record { used = 0; alloc = 0; items = [] }

empty-Owned : (next : ℕ) → Owned (λ a. none) next empty_pool
unfolding empty_pool
empty-Owned next = record {
  wf = record { fits = omega arith; block = refl };
  fresh = λ b h. refl;
  items = λ j h. absurd (omega arith);
  distinct = λ i j hi hj e. absurd (omega arith);
}

start_pool_lem :
    (config : Config)
    → ((start_pool config true ≡ none)
        × ((config.forward_mode ≡ forward_mode_deny) ⊎ (config.forward_mode ≡ forward_mode_fake)))
      ⊎ (start_pool config true ≡ some empty_pool)
unfolding FwPool.init empty_pool
start_pool_lem config = elim (Bool-cases (eqb_ℤ config.forward_mode forward_mode_deny)) [
  | inl deny ↦ inl (rw deny refl, inl (eqb_ℤ→eq _ _ deny))
  | inr other ↦ elim (Bool-cases (eqb_ℤ config.forward_mode forward_mode_fake)) [
    | inl fake ↦ inl (rw (other, fake) refl, inr (eqb_ℤ→eq _ _ fake))
    | inr pool ↦ inr (rw (other, pool) refl)
  ]
]

pub start-IsSound :
    (addr : Bytes) (port : ℕ) (config : Config) (session : Option ℕ) (next tick : ℕ)
    (trace : List Call)
    → IsSound (start_world (start_context addr port config session true) next tick trace)
unfolding start_context
start-IsSound addr port config session next tick trace = record {
  pool = elim (start_pool_lem config) [
    | inl quiet ↦ inl quiet
    | inr made ↦ inr (empty_pool, made, empty-Owned next, unfold empty_pool in omega arith)
  ];
  paired = record { together = refl };
  login = inl refl;
}

-- A session that starts with the context of `ProxyProcess`, in any mode and with memory for its
-- pool and its pairs, handles every event with no fault in its own memory, however many it has
-- handled before and whatever libssh and the system answered. The events are callbacks for pairs
-- that are not freed, passwords that fit the buffer, and all others, in any order. After it the
-- pool owns its pairs, the two session channels exist together or not at all, and the session is
-- authenticated only with a session at the HaaS server. Whether libssh is handed a freed channel is
-- not part of it.
pub start_context-handle :
    (env : Env) (addr : Bytes) (port : ℕ) (config : Config) (session : Option ℕ) (next tick : ℕ)
    (trace : List Call) (w : World) (e : Event)
    → HasMemory env
    → Run env (start_world (start_context addr port config session true) next tick trace) w
    → Ready w e
    → Ends (handle env e w) (λ _ w'. IsSound w')
start_context-handle env addr port config session next tick trace w e mem run ready =
    handle-IsSound env e w mem
      (Run-IsSound env mem (start-IsSound addr port config session next tick trace) run) ready
