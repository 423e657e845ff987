-- ===== src/Proxy/Forward/Framed.antt =====
-- src/proxy.c, `TrapMessageCallback`: a request for forwarding leaves the session itself alone.
use haa_s_libssh.Common.{ℕ, ◌≤◌, ◌≡◌, refl, Bool, true, false, not, ◌&&◌, Option, none, some, arith}
use haa_s_libssh.Common.Int.{ℤ, eqb_ℤ, minus_one}
use haa_s_libssh.Config.{forward_mode_deny}
use haa_s_libssh.FwPair.Life.{fw_pair_alloc, fw_pair_release}
use haa_s_libssh.World.{Env, Context, World}
use haa_s_libssh.World.Leaves.{Leaves, >>=-Leaves, >>-Leaves, if-Leaves}
use haa_s_libssh.Proxy.Timers.{idle_timer_reset}
use haa_s_libssh.Proxy.Forward.{
  Message, Request, connect_dst, accept_src, fake_refusal, pool_add, fill_pair, keep_pair, register,
  close_request, forward_request, handle_message, trap_message,
}

-- Only the pool and the idle timer may change in the context, and no call is taken back.
abbrev pub Framed : Context → ℕ → World → Type 0
Framed c lo w' =
    (w'.ctx ≡ record c { forward_pool = w'.ctx.forward_pool; idle_timer = w'.ctx.idle_timer })
    × (lo ≤ w'.tick)

module _ (env : Env) (c : Context) (lo : ℕ) where
  connect_dst-Framed :
      (m : Message) (mode : ℤ) (w : World)
      → Framed c lo w
      → Leaves (connect_dst env m mode w) (Framed c lo)
  unfolding connect_dst
  connect_dst-Framed m mode w h = ground arith

  accept_src-Framed :
      (dst : Option ℕ) (accept : Bool) (w : World)
      → Framed c lo w
      → Leaves (accept_src env dst accept w) (Framed c lo)
  unfolding accept_src
  accept_src-Framed dst true w h = ground arith
  accept_src-Framed dst false w h = h

  fake_refusal-Framed :
      (mode : ℤ) (r : Request) (w : World)
      → Framed c lo w
      → Leaves (fake_refusal env mode r w) (Framed c lo)
  unfolding fake_refusal
  fake_refusal-Framed mode r w h = ground arith

  fw_pair_alloc-Framed : (w : World) → Framed c lo w → Leaves (fw_pair_alloc env w) (Framed c lo)
  unfolding fw_pair_alloc
  fw_pair_alloc-Framed w h = ground arith

  pool_add-Framed :
      (item : Option ℕ) (w : World) → Framed c lo w → Leaves (pool_add env item w) (Framed c lo)
  unfolding pool_add
  pool_add-Framed item w h = ground arith

  fill_pair-Framed :
      (m : Message) (r : Request) (item : Option ℕ) (w : World)
      → Framed c lo w
      → Leaves (fill_pair env m r item w) (Framed c lo)
  unfolding fill_pair
  fill_pair-Framed m r item w h = ground arith

  fw_pair_release-Framed :
      (item : Option ℕ) (w : World)
      → Framed c lo w
      → Leaves (fw_pair_release env item w) (Framed c lo)
  unfolding fw_pair_release
  fw_pair_release-Framed none w h = h
  fw_pair_release-Framed (some a) w h = ground arith

  keep_pair-Framed :
      (m : Message) (r : Request) (item : Option ℕ) (index : ℤ) (w : World)
      → Framed c lo w
      → Leaves (keep_pair env m r item index w) (Framed c lo)
  unfolding keep_pair
  keep_pair-Framed m r item index w h =
      if-Leaves (eqb_ℤ index minus_one) _ _ w _
        (>>-Leaves (fw_pair_release env item) _ w _ _ (fw_pair_release-Framed item w h) (λ w' k. k))
        (>>-Leaves (fill_pair env m r item) _ w _ _ (fill_pair-Framed m r item w h) (λ w' k. k))

  register-Framed :
      (m : Message) (r : Request) (w : World)
      → Framed c lo w
      → Leaves (register env m r w) (Framed c lo)
  unfolding register
  register-Framed m r w h = if-Leaves r.closing _ _ w _ h (
      >>=-Leaves (fw_pair_alloc env) _ w _ _ (fw_pair_alloc-Framed w h) λ pair w1 h1.
        >>=-Leaves (pool_add env pair) _ w1 _ _ (pool_add-Framed pair w1 h1)
          λ index w2 h2. keep_pair-Framed m r pair index w2 h2)

  close_request-Framed :
      (r : Request) (w : World) → Framed c lo w → Leaves (close_request env r w) (Framed c lo)
  unfolding close_request
  close_request-Framed r w h = ground arith

  forward_request-Framed :
      (m : Message) (mode : ℤ) (w : World)
      → Framed c lo w
      → Leaves (forward_request env m mode w) (Framed c lo)
  unfolding forward_request
  forward_request-Framed m mode w h =
      >>=-Leaves (connect_dst env m mode) _ w _ _ (connect_dst-Framed m mode w h) λ dst w1 h1.
        >>=-Leaves (accept_src env dst.0 dst.1) _ w1 _ _ (accept_src-Framed dst.0 dst.1 w1 h1)
          λ r w2 h2.
            >>=-Leaves (fake_refusal env mode r) _ w2 _ _ (fake_refusal-Framed mode r w2 h2)
              λ faked w3 h3.
                >>=-Leaves (register env m faked) _ w3 _ _ (register-Framed m faked w3 h3)
                  λ kept w4 h4.
                    >>-Leaves (close_request env kept) _ w4 _ _ (close_request-Framed kept w4 h4)
                      (λ w5 h5. h5)

  handle_message-Framed :
      (msg : Option Message) (w : World)
      → Framed c lo w
      → Leaves (handle_message env msg w) (Framed c lo)
  unfolding handle_message
  handle_message-Framed none w h = h
  handle_message-Framed (some m) w h =
      if-Leaves
        (m.is_channel_open
          && m.is_direct_tcpip
          && not (eqb_ℤ w.ctx.config.forward_mode forward_mode_deny))
        (forward_request env m w.ctx.config.forward_mode) _ w _
        (forward_request-Framed m w.ctx.config.forward_mode w h) h

  idle-Framed : (w : World) → Framed c lo w → Leaves (idle_timer_reset env w) (Framed c lo)
  unfolding idle_timer_reset
  idle-Framed w h = ground arith

-- If it ends with no fault, `TrapMessageCallback` changes nothing in the context but the pool and the
-- idle timer, and takes no call back.
pub trap_message-Framed :
    (env : Env) (msg : Option Message) (w : World)
    → Leaves (trap_message env msg w) (Framed w.ctx w.tick)
unfolding trap_message
trap_message-Framed env msg w =
    >>=-Leaves (handle_message env msg) _ w _ _
      (handle_message-Framed env w.ctx w.tick msg w (refl, omega arith))
      (λ back w1 h1. idle-Framed env w.ctx w.tick w1 h1)
