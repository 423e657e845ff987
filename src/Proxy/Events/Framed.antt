-- ===== src/Proxy/Events/Framed.antt =====
-- src/proxy.c: what a handler leaves alone in the session.
use haa_s_libssh.Common.{ℕ, ◌≡◌, Bool, Option, some, arith}
use haa_s_libssh.Config.{Bytes}
use haa_s_libssh.FwPair.{FwPair}
use haa_s_libssh.World.{Env, Context, World}
use haa_s_libssh.World.Ends.{Ends}
use haa_s_libssh.Proxy.Channel.{ChannelEvent, signal, trap_channel}
use haa_s_libssh.Proxy.Channel.Haas.{haas_channel}
use haa_s_libssh.Proxy.ForwardChannel.{forward_close, forward_data, forward_eof}
use haa_s_libssh.Proxy.Sweep.Polled.{PolledWorld, set_closed_lem}
use haa_s_libssh.Proxy.Open.{trap_new_channel}
use haa_s_libssh.Proxy.Open.Paired.{IsPaired}

-- The login and the configuration are as before.
abbrev pub SameLogin : Context → Context → Type 0
SameLogin c c' =
    (c'.haas_session ≡ c.haas_session)
    × (c'.authenticated ≡ c.authenticated)
    × (c'.config ≡ c.config)

-- The pairs and the pool are as before.
abbrev pub SamePairs : World → World → Type 0
SamePairs w w' =
    (w'.ctx.forward_pool ≡ w.ctx.forward_pool) × (w'.heap ≡ w.heap) × (w'.next ≡ w.next)

abbrev pub SameChannels : Context → Context → Type 0
SameChannels c c' = (c'.trap_channel ≡ c.trap_channel) × (c'.haas_channel ≡ c.haas_channel)

abbrev pub Calm : World → World → Type 0
Calm w w' = SameLogin w.ctx w'.ctx × SamePairs w w' × SameChannels w.ctx w'.ctx

pub trap_channel-Calm :
    (env : Env) (e : ChannelEvent) (w : World) → Ends (trap_channel env e w) (λ _ w'. Calm w w')
unfolding trap_channel
trap_channel-Calm env (signal name) w = ground arith
trap_channel-Calm env e w = ground arith

pub haas_channel-Calm :
    (env : Env) (e : ChannelEvent) (w : World) → Ends (haas_channel env e w) (λ _ w'. Calm w w')
unfolding haas_channel
haas_channel-Calm env (signal name) w = ground arith
haas_channel-Calm env e w = ground arith

pub trap_new_channel-frame :
    (env : Env) (session : ℕ) (w : World)
    → IsPaired w.ctx
    → Ends
        (trap_new_channel env session w)
        (λ _ w'. SameLogin w.ctx w'.ctx × SamePairs w w' × IsPaired w'.ctx)
unfolding trap_new_channel
trap_new_channel-frame env session w v = ground arith

pub forward_data-Calm :
    (env : Env) (a : ℕ) (pair : FwPair) (session : Option ℕ) (channel : ℕ) (bytes : Bytes)
    (is_stderr : Bool) (w : World)
    → w.heap a ≡ some pair
    → Ends (forward_data env (some a) session channel bytes is_stderr w) (λ _ w'. Calm w w')
unfolding forward_data
forward_data-Calm env a pair session channel bytes is_stderr w h = ground arith

pub forward_eof-Calm :
    (env : Env) (a : ℕ) (pair : FwPair) (channel : ℕ) (w : World)
    → w.heap a ≡ some pair
    → Ends (forward_eof env (some a) channel w) (λ _ w'. Calm w w')
unfolding forward_eof
forward_eof-Calm env a pair channel w h = ground arith

pub forward_close-PolledWorld :
    (env : Env) (a : ℕ) (pair : FwPair) (w : World)
    → w.heap a ≡ some pair
    → Ends (forward_close env (some a) w) (λ _ w'. PolledWorld w w')
unfolding forward_close
forward_close-PolledWorld env a pair w h = set_closed_lem a pair w h
