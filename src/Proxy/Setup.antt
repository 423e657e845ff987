-- ===== src/Proxy/Setup.antt =====
-- src/proxy.c, `ProxyProcess`: what it does before the key exchange, and the whole of it. The headers
-- of libssh decide by a macro whether there is a key for ECDSA.
pub mod Whole
pub mod Overlong
use haa_s_libssh.Common.{
  ℕ, zero, suc, ◌+◌, ◌-◌, ◌/◌, ◌*◌, Bool, true, false, not, ◌||◌, Option, none, some, List, [], ◌∷◌,
  ◌++◌, length, leb, ◌==◌, if◌then◌else◌,
}
use haa_s_libssh.Common.Int.{ℤ, pos, nonzero, eqb_ℤ, int32, ◌+ℤ◌, ◌-ℤ◌, ◌*ℤ◌}
use haa_s_libssh.Config.{Bytes, codes, Config, forward_mode_deny, forward_mode_fake}
use haa_s_libssh.World.{
  Call, BindOption, CallbackSet, Timeval, Env, Context, World, M, ◌>>=◌, ◌>>◌, pure, skip, fault,
  when, context, update, run, ask_int, ask_ptr,
}
use haa_s_libssh.Proxy.Session.{start_context}
use haa_s_libssh.Proxy.Process.{Arrivals, proxy_process}

-- `KeyPath[1024]`, with the final zero.
abbrev pub key_path_size : ℕ
key_path_size = 1024

abbrev pub last_of : Bytes → Option ℕ
last_of [] = none
last_of (c ∷ []) = some c
last_of (c ∷ d ∷ s) = last_of (d ∷ s)

abbrev pub end_with_slash : Option ℕ → Bytes → Option Bytes
end_with_slash none s = none
end_with_slash (some c) s = if c == b'/' then some s else some (s ++ b'/' ∷ [])

-- The directory with a slash at its end, in `KeyPath`. A directory that does not fit is a fault, and so
-- is an empty one, of which the character before the first is read.
unfoldable pub key_dir : Bytes → Option Bytes
key_dir s = if leb key_path_size (length s) then none else end_with_slash (last_of s) s

-- `KeyPath` with the name of a key behind the directory.
unfoldable pub key_path : Bytes → Bytes → Option Bytes
key_path dir name =
    if leb key_path_size (length dir + length name) then none else some (dir ++ name)

module _ (env : Env) (has_ecdsa_key : Bool) where
  -- One key; a path that does not fit is a fault.
  unfoldable pub set_key : Option ℕ → (Bytes → BindOption) → Option Bytes → M (Unit {0})
  set_key bind option none = fault
  set_key bind option (some path) = run (Call.ssh_bind_options_set bind (option path))

  unfoldable pub set_keys : Option ℕ → Option Bytes → M (Unit {0})
  set_keys bind none = fault
  set_keys bind (some dir) = do
    set_key bind BindOption.bind_dsa_key (key_path dir (codes "ssh_host_dsa_key"))
    set_key bind BindOption.bind_rsa_key (key_path dir (codes "ssh_host_rsa_key"))
    when has_ecdsa_key
        (set_key bind BindOption.bind_ecdsa_key (key_path dir (codes "ssh_host_ecc_key")))

  -- `sprintf` of NULL is a fault.
  abbrev pub keys_in : Option Bytes → Option Bytes
  keys_in none = none
  keys_in (some dir) = key_dir dir

  unfoldable pub set_log : Option ℕ → Option Bytes → M (Unit {0})
  set_log bind none = skip
  set_log bind (some log) = run (Call.ssh_bind_options_set bind (BindOption.bind_log_verbosity log))

  -- The listening side, which takes over the client's socket.
  unfoldable pub set_up : Config → ℕ → M (Option ℕ)
  set_up config socket = do
    session ← ask_ptr env Call.ssh_new
    bind ← ask_ptr env Call.ssh_bind_new
    set_log bind config.trap_log
    run (Call.ssh_set_callbacks session (some CallbackSet.server_ssh_cb))
    set_keys bind (keys_in config.keys_dir)
    run (Call.ssh_bind_options_set bind (BindOption.bind_banner config.banner))
    run (Call.ssh_bind_accept_fd bind session socket)
    pure session

  -- The pool of the context is allocated in the modes that forward something.
  unfoldable pub pool_memory : Config → M Bool
  pool_memory config =
      if eqb_ℤ config.forward_mode forward_mode_deny || eqb_ℤ config.forward_mode forward_mode_fake
      then pure true
      else do i ← ask_int env Call.malloc; pure (nonzero i)

  -- The context, and the callbacks that point to it.
  unfoldable pub prepare : Config → Bytes → ℕ → Option ℕ → M (Unit {0})
  prepare config addr port session = do
    allocated ← pool_memory config
    update (λ c. start_context addr port config session allocated)
    run (Call.ssh_set_server_callbacks session CallbackSet.trap_session_cb)
    run (Call.ssh_set_message_callback session)

  -- The milliseconds between two times, as the int that the log shows.
  unfoldable pub elapsed : Timeval → Timeval → ℤ
  elapsed start_tv stop_tv =
      let seconds = int32 (pos stop_tv.tv_sec -ℤ pos start_tv.tv_sec) in
      int32 (
        int32 (int32 (seconds *ℤ pos 1000) +ℤ pos (stop_tv.tv_usec / 1000))
        -ℤ pos (start_tv.tv_usec / 1000))

  abbrev pub gettimeofday : M Timeval
  gettimeofday w = (run Call.gettimeofday >> pure (env.clock w.tick)) w

  -- `ProxyProcess`, with the milliseconds that it logs at its end.
  unfoldable pub whole_process : Arrivals → (ℕ → Bool) → ℕ → Config → Bytes → ℕ → ℕ → M ℤ
  whole_process arrivals stop fuel config addr port socket = do
    start_tv ← gettimeofday
    session ← set_up config socket
    prepare config addr port session
    proxy_process env arrivals stop fuel
    stop_tv ← gettimeofday
    pure (elapsed start_tv stop_tv)
