-- ===== src/Proxy/ForwardChannel/Crossing.antt =====
-- src/proxy.c, `ForwardChannelDataCallback`: where the data of a forwarded channel go.
use haa_s_libssh.Common.{
  ℕ, suc, ◌-◌, ◌^◌, ◌≤◌, ◌<◌, ◌⊎◌, ◌≡◌, ◌≢◌, Bool, true, Option, some, List, [], ◌∷◌, ◌++◌, arith,
  length,
}
use haa_s_libssh.Common.Int.{ℤ, pos, negsuc}
use haa_s_libssh.Config.{Bytes, forward_mode_allow, forward_mode_null, forward_mode_echo}
use haa_s_libssh.FwPair.{FwPair}
use haa_s_libssh.World.{Call, Env, World}
use haa_s_libssh.World.Ends.{Ends}
use haa_s_libssh.Proxy.ForwardChannel.{forward_data, write_call}

-- Data that are written to a channel of a session without blocking, newest call first.
abbrev pub written : Option ℕ → Option ℕ → Bytes → Bool → ℤ → List Call
written session channel bytes is_stderr mode =
    Call.ssh_set_blocking session mode
    ∷ write_call channel bytes is_stderr
    ∷ Call.ssh_set_blocking session (pos 0)
    ∷ Call.ssh_is_blocking session
    ∷ []

-- Only the idle timer changes, and the calls are these.
abbrev pub Sends : World → List Call → World → Type 0
Sends w calls w' =
    (w'.trace ≡ Call.gettimeofday ∷ (calls ++ w.trace))
    × (w'.heap ≡ w.heap)
    × (w'.ctx ≡ record w.ctx { idle_timer = w'.ctx.idle_timer })

-- In the allow mode, the data of one of the two different channels of a pair in use are written to
-- the other one, in the session of that one: from the source to the HaaS session and from the
-- destiny to the trap's. The data are unchanged, the answer is that of the write, the blocking mode
-- is restored, and only the idle timer changes.
pub forward_data_crosses :
    (env : Env) (a s d : ℕ) (p : FwPair) (session : Option ℕ) (bytes : Bytes) (is_stderr : Bool)
    (w : World)
    → w.heap a ≡ some p
    → p.context ≡ true
    → p.source.channel ≡ some s
    → p.destiny.channel ≡ some d
    → s ≢ d
    → w.ctx.config.forward_mode ≡ forward_mode_allow
    → Ends (forward_data env (some a) session s bytes is_stderr w) (λ r w'.
      Sends w
        (written w.ctx.haas_session
          (some d)
          bytes
          is_stderr
          (env.int w.tick (Call.ssh_is_blocking w.ctx.haas_session)))
        w'
      × (r ≡ env.int (suc (suc w.tick)) (write_call (some d) bytes is_stderr)))
      × Ends (forward_data env (some a) session d bytes is_stderr w) (λ r w'.
        Sends w
          (written w.ctx.trap_session
            (some s)
            bytes
            is_stderr
            (env.int w.tick (Call.ssh_is_blocking w.ctx.trap_session)))
          w'
        × (r ≡ env.int (suc (suc w.tick)) (write_call (some s) bytes is_stderr)))
unfolding forward_data
forward_data_crosses env a s d p session bytes is_stderr w h live src dst ne m =
    (ground arith, ground arith)

-- In the echo mode the data of a pair in use are written back unchanged to the channel that they
-- came from, without blocking; the answer is that of the write, the blocking mode is restored, and
-- only the idle timer changes.
pub forward_data_echoes :
    (env : Env) (a c : ℕ) (p : FwPair) (session : Option ℕ) (bytes : Bytes) (is_stderr : Bool)
    (w : World)
    → w.heap a ≡ some p
    → p.context ≡ true
    → w.ctx.config.forward_mode ≡ forward_mode_echo
    → Ends (forward_data env (some a) session c bytes is_stderr w) (λ r w'.
      Sends w
        (written session (some c) bytes is_stderr (env.int w.tick (Call.ssh_is_blocking session)))
        w'
      × (r ≡ env.int (suc (suc w.tick)) (write_call (some c) bytes is_stderr)))
unfolding forward_data
forward_data_echoes env a c p session bytes is_stderr w h live m = ground arith

-- Nothing is written, and at most the idle timer changes.
abbrev pub Keeps : World → World → Type 0
Keeps w w' =
    ((w'.trace ≡ w.trace) ⊎ (w'.trace ≡ Call.gettimeofday ∷ w.trace))
    × (w'.heap ≡ w.heap)
    × (w'.ctx ≡ record w.ctx { idle_timer = w'.ctx.idle_timer })

-- The answer to data of which none are written: an error, or, for a pair in use in the null mode, their
-- number, which from 2147483648 on has wrapped to a negative int.
abbrev pub Swallowed : Env → World → FwPair → Bytes → ℤ → Type 0
Swallowed env w p bytes r =
    (r ≡ env.ssh_error)
    ⊎ ((p.context ≡ true)
        × (w.ctx.config.forward_mode ≡ forward_mode_null)
        × (length bytes < 2 ^ 31 → r ≡ pos (length bytes))
        × (2 ^ 31 ≤ length bytes → length bytes < 2 ^ 32 → r ≡ negsuc (2 ^ 32 - length bytes - 1)))
