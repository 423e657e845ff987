-- ===== src/Proxy/Forward/Register/Accepted.antt =====
-- src/proxy.c, `TrapMessageCallback`: an accepted request is the newest pair of the pool.
use haa_s_libssh.Common.{
  ℕ, ◌≡◌, refl, ◌∙◌, ap, subst, sym, ◌⊎◌, inl, inr, Bool, true, false, not, ◌&&◌, Option, none,
  some, arith, Bool-cases,
}
use haa_s_libssh.Common.Int.{ℤ, pos, eqb_ℤ}
use haa_s_libssh.Config.{forward_mode_deny, forward_mode_echo, forward_mode_null}
use haa_s_libssh.FwPool
use haa_s_libssh.FwPool.{FwPool, Heap}
use haa_s_libssh.FwPool.Owned.{Owned}
use haa_s_libssh.World.{Call, Env, World, pure}
use haa_s_libssh.World.Ends.{Ends, >>-Ends, >>=-Ends, if-Ends, Ends-mono}
use haa_s_libssh.Proxy.Forward.{
  Message, Request, connect_dst, accept_src, fake_refusal, register, close_request, forward_request,
  handle_message, trap_message,
}
use haa_s_libssh.Proxy.Forward.Register.{
  Kept, HasPool, asked_for, HasMemory, Registered, Kept-HasPool, connect_dst_lem, accept_src_lem,
  fake_refusal_lem, close_request_lem, register_lem,
}

register_closing :
    (env : Env) (m : Message) (r : Request) (w : World)
    → r.closing ≡ true
    → register env m r w ≡ some (r, w)
unfolding register
register_closing env m r w h = ground arith

register-HasPool :
    (env : Env) (m : Message) (r : Request) (n : ℕ) (w : World)
    → HasMemory env
    → HasPool n w
    → Ends (register env m r w) (λ _ w'. HasPool n w')
register-HasPool env m r n w mem (p, e, o, le) = elim (Bool-cases r.closing) [
  | inl shut ↦
      subst (λ x. Ends x (λ _ w'. HasPool n w')) (sym (register_closing env m r w shut))
        (p, e, o, le)
  | inr open_ ↦
      Ends-mono (register env m r w) _ _ (register_lem env m r p w mem e o open_)
        λ _ w' (_, (p', q, e', f, own, count, _, _)).
          let same : some p ≡ some p' = sym e ∙ e' in
          let u : p.used ≡ p'.used = cc in (q, f, own, omega arith)
]

forward_request-HasPool :
    (env : Env) (m : Message) (mode : ℤ) (n : ℕ) (w : World)
    → HasMemory env
    → HasPool n w
    → Ends (forward_request env m mode w) (λ _ w'. HasPool n w')
unfolding forward_request
forward_request-HasPool env m mode n w mem h =
    >>=-Ends (connect_dst env m mode) _ w _ _ (connect_dst_lem env m mode w) λ dst w1 k1.
      >>=-Ends (accept_src env dst.0 dst.1) _ w1 _ _ (accept_src_lem env dst.0 dst.1 w1) λ r w2 k2.
        >>=-Ends (fake_refusal env mode r) _ w2 _ _ (fake_refusal_lem env mode r w2) λ faked w3 k3.
          >>=-Ends (register env m faked) _ w3 _ _
            (register-HasPool env m faked n w3 mem
              (Kept-HasPool n w2 w3 k3 (Kept-HasPool n w1 w2 k2 (Kept-HasPool n w w1 k1 h))))
            λ kept w4 h4.
              >>-Ends (close_request env kept) _ w4 _ _ (close_request_lem env kept w4)
                λ w5 k5. Kept-HasPool n w4 w5 k5 h4

handle_message-HasPool :
    (env : Env) (msg : Option Message) (n : ℕ) (w : World)
    → HasMemory env
    → HasPool n w
    → Ends (handle_message env msg w) (λ _ w'. HasPool n w')
unfolding handle_message
handle_message-HasPool env none n w mem h = h
handle_message-HasPool env (some m) n w mem h =
    if-Ends
      (m.is_channel_open
        && m.is_direct_tcpip
        && not (eqb_ℤ w.ctx.config.forward_mode forward_mode_deny))
      (forward_request env m w.ctx.config.forward_mode) (pure (pos 1)) w _
      (λ _. forward_request-HasPool env m w.ctx.config.forward_mode n w mem h) (λ _. h)

-- While the allocator gives blocks and the pool owns its pairs, handling a message of any kind in
-- any mode ends with no fault in the proxy's own memory, whatever libssh answers, and the pool goes
-- on owning its pairs: if there were at least `n` there are still.
pub trap_message-HasPool :
    (env : Env) (msg : Option Message) (n : ℕ) (w : World)
    → HasMemory env
    → HasPool n w
    → Ends (trap_message env msg w) (λ _ w'. HasPool n w')
unfolding trap_message
trap_message-HasPool env msg n w mem h =
    >>=-Ends (handle_message env msg) _ w _ _ (handle_message-HasPool env msg n w mem h)
      λ back w1 h1. h1

-- The request that the echo and the null mode make of an accepted channel.
abbrev pub one_sided : ℕ → Request
one_sided s = record { src = some s; dst = none; accept = true; closing = false }

abbrev KeepsToItself : ℤ → Type 0
KeepsToItself mode = (mode ≡ forward_mode_echo) ⊎ (mode ≡ forward_mode_null)

no_dst :
    (env : Env) (m : Message) (mode : ℤ) (w : World)
    → KeepsToItself mode
    → Ends (connect_dst env m mode w) (λ d w'. (d ≡ (none, true)) × (w' ≡ w))
unfolding connect_dst
no_dst env m mode w h = ground arith

its_src :
    (env : Env) (s : ℕ) (dst : Option ℕ × Bool) (w w1 : World)
    → dst ≡ (none, true)
    → w1 ≡ w
    → env.ptr w.tick Call.ssh_message_channel_request_open_reply_accept ≡ some s
    → Ends (accept_src env dst.0 dst.1 w1) (λ r w'. (r ≡ one_sided s) × Kept w w')
unfolding accept_src
its_src env s dst w w1 d same h = rw (d, same, h) (refl, (refl, refl, refl))

not_faked :
    (env : Env) (mode : ℤ) (r : Request) (w : World)
    → KeepsToItself mode
    → Ends (fake_refusal env mode r w) (λ r' w'. (r' ≡ r) × (w' ≡ w))
unfolding fake_refusal
not_faked env mode r w h = ground arith

Registered-later :
    (m : Message) (r : Request) (w w' w'' : World)
    → Registered m r w w'
    → Kept w' w''
    → Registered m r w w''
Registered-later m r w w' w'' (p, q, e, f, own, count, new, made) (kf, kh, kn) = (
  p,
  q,
  e,
  kf ∙ f,
  subst (λ g. Owned g w''.next q) (sym kh) (subst (λ k. Owned w'.heap k q) (sym kn) own),
  count,
  new,
  ap (λ (g : Heap). g w.next) kh ∙ made,
)

Registered-earlier :
    (m : Message) (r : Request) (w w1 w' : World)
    → Kept w w1
    → Registered m r w1 w'
    → Registered m r w w'
Registered-earlier m r w w1 w' (kf, kh, kn) (p, q, e, f, own, count, new, made) = (
  p,
  q,
  sym kf ∙ e,
  f,
  own,
  count,
  subst (λ k. FwPool.get (some q) (pos p.used) ≡ some k) kn new,
  subst (λ k. w'.heap k ≡ some (asked_for m r k)) kn made,
)

forward_request-Registered :
    (env : Env) (m : Message) (mode : ℤ) (s : ℕ) (p : FwPool) (w : World)
    → HasMemory env
    → w.ctx.forward_pool ≡ some p
    → Owned w.heap w.next p
    → KeepsToItself mode
    → env.ptr w.tick Call.ssh_message_channel_request_open_reply_accept ≡ some s
    → Ends (forward_request env m mode w) (λ r w'. (r ≡ pos 0) × Registered m (one_sided s) w w')
unfolding forward_request
forward_request-Registered env m mode s p w mem e o own_mode new =
    >>=-Ends (connect_dst env m mode) _ w _ _ (no_dst env m mode w own_mode) λ dst w1 (d, same).
      >>=-Ends (accept_src env dst.0 dst.1) _ w1 _ _ (its_src env s dst w w1 d same new)
        λ r w2 (er, k2).
          >>=-Ends (fake_refusal env mode r) _ w2 _ _ (not_faked env mode r w2 own_mode)
            λ faked w3 (ef, same3).
              let k3 : Kept w w3 = rw same3 k2 in
              let request : faked ≡ one_sided s = ef ∙ er in
              let (p3, e3, o3, _) = Kept-HasPool p.used w w3 k3 (p, e, o, omega arith) in
              >>=-Ends (register env m faked) _ w3 _ _
                (register_lem env m faked p3 w3 mem e3 o3 (ap (λ (r : Request). r.closing) request))
                λ kept w4 (ek, reg).
                  >>-Ends (close_request env kept) _ w4 _ _ (close_request_lem env kept w4) λ w5 k5.
                    (
                      ground arith,
                      subst (λ r. Registered m r w w5) request
                          (Registered-later m faked w w4 w5
                            (Registered-earlier m faked w w3 w4 k3 reg) k5),
                    )

handle_message-Registered :
    (env : Env) (m : Message) (s : ℕ) (p : FwPool) (w : World)
    → HasMemory env
    → w.ctx.forward_pool ≡ some p
    → Owned w.heap w.next p
    → m.is_channel_open ≡ true
    → m.is_direct_tcpip ≡ true
    → KeepsToItself w.ctx.config.forward_mode
    → env.ptr w.tick Call.ssh_message_channel_request_open_reply_accept ≡ some s
    → Ends (handle_message env (some m) w) (λ r w'. (r ≡ pos 0) × Registered m (one_sided s) w w')
unfolding handle_message
handle_message-Registered env m s p w mem e o opens direct mode new =
    if-Ends
      (m.is_channel_open
        && m.is_direct_tcpip
        && not (eqb_ℤ w.ctx.config.forward_mode forward_mode_deny))
      (forward_request env m w.ctx.config.forward_mode) (pure (pos 1)) w _
      (λ _. forward_request-Registered env m w.ctx.config.forward_mode s p w mem e o mode new)
      (λ refused. absurd (ground arith))

-- In the echo and in the null mode, with memory, a request for a direct connection whose channel the
-- attacker is given is accepted: the answer is 0, and the pool has one pair more, at its end, which is
-- allocated, names the two ends of the request and holds that channel as its source and no other. The
-- pool owns its pairs still.
pub trap_message-Registered :
    (env : Env) (m : Message) (s : ℕ) (p : FwPool) (w : World)
    → HasMemory env
    → w.ctx.forward_pool ≡ some p
    → Owned w.heap w.next p
    → m.is_channel_open ≡ true
    → m.is_direct_tcpip ≡ true
    → KeepsToItself w.ctx.config.forward_mode
    → env.ptr w.tick Call.ssh_message_channel_request_open_reply_accept ≡ some s
    → Ends (trap_message env (some m) w) (λ r w'. (r ≡ pos 0) × Registered m (one_sided s) w w')
unfolding trap_message
trap_message-Registered env m s p w mem e o opens direct mode new =
    >>=-Ends (handle_message env (some m)) _ w _ _
      (handle_message-Registered env m s p w mem e o opens direct mode new) λ back w1 h1. h1
