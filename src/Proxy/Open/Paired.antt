-- ===== src/Proxy/Open/Paired.antt =====
-- src/proxy.c, `TrapNewChannel`: the two session channels exist together or not at all.
use haa_s_libssh.Common.{
  ℕ, suc, ◌≡◌, ◌⊎◌, Bool, true, false, Option, none, some, List, [], ◌∷◌, arith, is_null, ◌==◌,
  ◌||◌, ◌&&◌,
}
use haa_s_libssh.World.{Call, Env, Context, World}
use haa_s_libssh.World.Ends.{Ends}
use haa_s_libssh.Proxy.Open.{trap_new_channel}

-- A channel to the HaaS server exists exactly when the attacker's does.
pub record IsPaired (c : Context) : Type 0 where
  pub together : is_null c.haas_channel ≡ is_null c.trap_channel

abbrev is_free_of : ℕ → Call → Bool
is_free_of a (Call.ssh_channel_free (some b)) = b == a
is_free_of a _ = false

-- A channel is freed somewhere in a trace.
abbrev pub was_freed : ℕ → List Call → Bool
was_freed a [] = false
was_freed a (c ∷ cs) = is_free_of a c || was_freed a cs

-- The first handle, and where there is one the second too, is freed or NULL.
abbrev pub all_freed : Option ℕ → Option ℕ → List Call → Bool
all_freed none h trace = true
all_freed (some t) none trace = was_freed t trace
all_freed (some t) (some h) trace = was_freed t trace && was_freed h trace

-- Where the attacker's channel and the HaaS channel exist together or not at all, a request for a
-- session channel ends with no fault and keeps that. It changes the channels and the idle timer
-- only, returns the attacker's channel, and makes no call but to read the clock where there is one
-- already. Where there is none at its end, each channel that it created on the way is freed.
pub trap_new_channel-IsPaired :
    (env : Env) (session : ℕ) (w : World)
    → IsPaired w.ctx
    → Ends (trap_new_channel env session w) (λ r w'.
      IsPaired w'.ctx
      × (r ≡ w'.ctx.trap_channel)
      × (w'.heap ≡ w.heap)
      × (w'.ctx ≡ record w.ctx {
        trap_channel = w'.ctx.trap_channel;
        haas_channel = w'.ctx.haas_channel;
        idle_timer = w'.ctx.idle_timer;
      })
      × ((w.ctx.trap_channel ≡ none) ⊎ (w'.trace ≡ Call.gettimeofday ∷ w.trace))
      × ((is_null w'.ctx.trap_channel ≡ false)
          ⊎ (all_freed
                (env.ptr w.tick (Call.ssh_channel_new (some session)))
                (env.ptr (suc w.tick) (Call.ssh_channel_new w.ctx.haas_session))
                w'.trace
              ≡ true)))
unfolding trap_new_channel
trap_new_channel-IsPaired env session w v = ground arith
