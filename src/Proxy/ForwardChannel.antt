-- ===== src/Proxy/ForwardChannel.antt =====
-- src/proxy.c: the callbacks of a forwarded channel. Their user data is the pair of the channel.
pub mod Crossing
use haa_s_libssh.Common.{ℕ, Bool, true, false, Option, none, some, length, if◌then◌else◌, ◌==◌}
use haa_s_libssh.Common.Int.{ℤ, pos, eqb_ℤ, int32}
use haa_s_libssh.Config.{Bytes, forward_mode_allow, forward_mode_null, forward_mode_echo}
use haa_s_libssh.FwPair.{FwPair}
use haa_s_libssh.World.{
  Call, Env, Context, World, M, ◌>>=◌, ◌>>◌, pure, skip, fault, when, context, run, ask_int, load,
  update_pair,
}
use haa_s_libssh.Proxy.Timers.{idle_timer_reset}

-- `Channel==Pair->Source.Channel`.
abbrev pub is_source : FwPair → ℕ → Bool
is_source p channel = elim p.source.channel [ none ↦ false | some c ↦ channel == c ]

-- The other end: its session and its channel.
abbrev pub other_end : Context → FwPair → ℕ → Option ℕ × Option ℕ
other_end c p channel =
    if is_source p channel
    then (c.haas_session, p.destiny.channel)
    else (c.trap_session, p.source.channel)

abbrev pub write_call : Option ℕ → Bytes → Bool → Call
write_call channel bytes true = Call.ssh_channel_write_stderr channel bytes
write_call channel bytes false = Call.ssh_channel_write channel bytes

module _ (env : Env) where
  write_on : Option ℕ → Option ℕ → Bytes → Bool → M ℤ
  write_on session channel bytes is_stderr = do
    blocking ← ask_int env (Call.ssh_is_blocking session)
    run (Call.ssh_set_blocking session (pos 0))
    back ← ask_int env (write_call channel bytes is_stderr)
    run (Call.ssh_set_blocking session blocking)
    pure back

  -- The three tests of the mode; they exclude one another.
  forward_by_mode : ℤ → FwPair → Option ℕ → ℕ → Bytes → Bool → M ℤ
  unfolding write_on
  forward_by_mode mode p session channel bytes is_stderr = do
    c ← context
    let far = other_end c p channel
    if eqb_ℤ mode forward_mode_allow
        then write_on far.0 far.1 bytes is_stderr
        else if eqb_ℤ mode forward_mode_echo
        then write_on session (some channel) bytes is_stderr
        else if eqb_ℤ mode forward_mode_null
        then pure (int32 (pos (length bytes)))
        else pure env.ssh_error

  data_of_pair : FwPair → Option ℕ → ℕ → Bytes → Bool → M ℤ
  unfolding forward_by_mode idle_timer_reset
  data_of_pair p session channel bytes is_stderr = do
    c ← context
    back ← forward_by_mode c.config.forward_mode p session channel bytes is_stderr
    idle_timer_reset env
    pure back

  -- `ForwardChannelDataCallback`.
  unfoldable pub forward_data : Option ℕ → Option ℕ → ℕ → Bytes → Bool → M ℤ
  unfolding data_of_pair
  forward_data none session channel bytes is_stderr = pure env.ssh_error
  forward_data (some a) session channel bytes is_stderr = do
    p ← load a
    if p.context then data_of_pair p session channel bytes is_stderr else pure env.ssh_error

  eof_of_pair : FwPair → ℕ → M (Unit {0})
  unfolding idle_timer_reset
  eof_of_pair p channel = do
    c ← context
    let far = other_end c p channel
    when (eqb_ℤ c.config.forward_mode forward_mode_allow) (run (Call.ssh_channel_send_eof far.1))
    idle_timer_reset env

  -- `ForwardChannelEofCallback`.
  unfoldable pub forward_eof : Option ℕ → ℕ → M (Unit {0})
  unfolding eof_of_pair
  forward_eof none channel = skip
  forward_eof (some a) channel = do p ← load a; when p.context (eof_of_pair p channel)

  -- `ForwardChannelCloseCallback`, which does not test the pair for NULL.
  unfoldable pub forward_close : Option ℕ → M (Unit {0})
  forward_close none = fault
  forward_close (some a) = update_pair a (λ p. record p { closed = true })
