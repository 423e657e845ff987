-- ===== src/Proxy/Setup/Whole.antt =====
-- src/proxy.c, `ProxyProcess`: the whole of it ends with no fault where the directory of the keys fits.
use haa_s_libssh.Common.{
  ℕ, suc, ◌+◌, ◌≤◌, ◌<◌, ◌≡◌, refl, ap, sym, subst, ◌∙◌, Bool, true, false, ◌||◌, Option, none,
  some, [], ◌∷◌, ◌++◌, length, length-append, leb, ◌==◌, Bool-cases, inl, inr, arith,
}
use haa_s_libssh.Common.Int.{ℤ, eqb_ℤ}
use haa_s_libssh.Config.{Bytes, codes, Config, forward_mode_deny, forward_mode_fake}
use haa_s_libssh.FwPool.{Heap}
use haa_s_libssh.World.{Call, BindOption, CallbackSet, Env, Context, World, pure, called}
use haa_s_libssh.World.Ends.{Ends, >>=-Ends, >>-Ends, if-Ends, when-Ends}
use haa_s_libssh.Proxy.Forward.Register.{HasMemory}
use haa_s_libssh.Proxy.Events.Sound.{IsSound, Ready}
use haa_s_libssh.Proxy.Session.{start_context}
use haa_s_libssh.Proxy.Process.{Arrivals, proxy_process}
use haa_s_libssh.Proxy.Process.Ending.{AllReleased, proxy_process-AllReleased}
use haa_s_libssh.Proxy.Setup.{
  last_of, end_with_slash, key_dir, key_path, set_key, set_keys, keys_in, set_log, set_up,
  pool_memory, prepare, whole_process,
}

last_of-some : (c : ℕ) (s : Bytes) → (d : ℕ) × (last_of (c ∷ s) ≡ some d)
last_of-some c [] = (c, refl)
last_of-some c (d ∷ s) = last_of-some d s

slashed :
    (c : ℕ) (s : Bytes)
    → (dir : Bytes) × (end_with_slash (some c) s ≡ some dir) × (length dir ≤ length s + 1)
slashed c s = elim (Bool-cases (c == b'/')) [
  | inl there ↦ (s, rw there refl, omega arith)
  | inr missing ↦ (s ++ b'/' ∷ [], rw missing refl, omega (arith, length-append s (b'/' ∷ [])))
]

-- The directory with its slash.
key_dir-some :
    (s : Bytes)
    → 0 < length s
    → length s < 1024
    → (dir : Bytes) × (key_dir s ≡ some dir) × (length dir ≤ length s + 1)
unfolding key_dir
key_dir-some [] some_char fits = absurd (omega arith)
key_dir-some (c ∷ s) some_char fits =
    let (d, e) = last_of-some c s in
    let (dir, f, le) = slashed d (c ∷ s) in (dir, rw (below (length (c ∷ s)) fits, e) f, le)
  where
    below : (n : ℕ) → n < 1024 → leb 1024 n ≡ false
    below n h = ground arith

key_path-some :
    (dir name : Bytes) → length dir + length name < 1024 → key_path dir name ≡ some (dir ++ name)
unfolding key_path
key_path-some dir name fits = rw (below (length dir + length name) fits) refl
  where
    below : (n : ℕ) → n < 1024 → leb 1024 n ≡ false
    below n h = ground arith

-- There is no pair on the heap.
abbrev pub IsEmpty : ℕ → World → Type 0
IsEmpty next w = (w.heap ≡ (λ a. none)) × (w.next ≡ next)

module _ (env : Env) (has_ecdsa_key : Bool) where
  set_key-IsEmpty :
      (bind : Option ℕ) (option : Bytes → BindOption) (dir name : Bytes) (next : ℕ) (w : World)
      → length dir + length name < 1024
      → IsEmpty next w
      → Ends (set_key env has_ecdsa_key bind option (key_path dir name) w) (λ _ w'. IsEmpty next w')
  unfolding set_key
  set_key-IsEmpty bind option dir name next w fits v = rw (key_path-some dir name fits) v

  set_keys-IsEmpty :
      (bind : Option ℕ) (dir : Bytes) (next : ℕ) (w : World)
      → length dir + 16 < 1024
      → IsEmpty next w
      → Ends (set_keys env has_ecdsa_key bind (some dir) w) (λ _ w'. IsEmpty next w')
  unfolding set_keys
  set_keys-IsEmpty bind dir next w fits v =
      let Q : Unit {0} → World → Type 0 = λ _ w'. IsEmpty next w' in
      >>-Ends
        (set_key env has_ecdsa_key bind BindOption.bind_dsa_key
          (key_path dir (codes "ssh_host_dsa_key")))
        _ w (IsEmpty next) Q
        (set_key-IsEmpty bind BindOption.bind_dsa_key dir (codes "ssh_host_dsa_key") next w fits v)
        (λ w1 v1.
          >>-Ends
            (set_key env has_ecdsa_key bind BindOption.bind_rsa_key
              (key_path dir (codes "ssh_host_rsa_key")))
            _ w1 (IsEmpty next) Q
            (set_key-IsEmpty bind BindOption.bind_rsa_key dir (codes "ssh_host_rsa_key") next w1
              fits v1)
            (λ w2 v2.
              when-Ends has_ecdsa_key _ w2 (IsEmpty next)
                (λ _.
                  set_key-IsEmpty bind BindOption.bind_ecdsa_key dir (codes "ssh_host_ecc_key") next
                    w2 fits v2)
                (λ _. v2)))

  set_log-IsEmpty :
      (bind : Option ℕ) (o : Option Bytes) (next : ℕ) (w : World)
      → IsEmpty next w
      → Ends (set_log env has_ecdsa_key bind o w) (λ _ w'. IsEmpty next w')
  unfolding set_log
  set_log-IsEmpty bind none next w v = v
  set_log-IsEmpty bind (some log) next w v = v

  set_up-IsEmpty :
      (config : Config) (dir : Bytes) (socket next : ℕ) (w : World)
      → keys_in env has_ecdsa_key config.keys_dir ≡ some dir
      → length dir + 16 < 1024
      → IsEmpty next w
      → Ends (set_up env has_ecdsa_key config socket w) (λ _ w'. IsEmpty next w')
  unfolding set_up
  set_up-IsEmpty config dir socket next w e fits v =
      let w1 = called Call.ssh_new w in
      let bind = env.ptr w1.tick Call.ssh_bind_new in
      let Q : Option ℕ → World → Type 0 = λ _ w'. IsEmpty next w' in
      >>-Ends (set_log env has_ecdsa_key bind config.trap_log) _ (called Call.ssh_bind_new w1)
        (IsEmpty next) Q (set_log-IsEmpty bind config.trap_log next (called Call.ssh_bind_new w1) v)
        (λ w2 v2.
          let session = env.ptr w.tick Call.ssh_new in
          let w3 = called (Call.ssh_set_callbacks session (some CallbackSet.server_ssh_cb)) w2 in
          >>-Ends (set_keys env has_ecdsa_key bind (keys_in env has_ecdsa_key config.keys_dir)) _ w3
            (IsEmpty next) Q
            (subst (λ o. Ends (set_keys env has_ecdsa_key bind o w3) (λ _ w'. IsEmpty next w'))
              (sym e) (set_keys-IsEmpty bind dir next w3 fits v2))
            (λ w4 v4. v4))

  pool_memory_given :
      (config : Config) (next : ℕ) (w : World)
      → HasMemory env
      → IsEmpty next w
      → Ends (pool_memory env has_ecdsa_key config w) (λ given w'. (given ≡ true) × IsEmpty next w')
  unfolding pool_memory
  pool_memory_given config next w mem v =
      if-Ends
        (eqb_ℤ config.forward_mode forward_mode_deny || eqb_ℤ config.forward_mode forward_mode_fake)
        (pure true) _ w (λ given w'. (given ≡ true) × IsEmpty next w') (λ _. (refl, v))
        (λ _. (mem.malloc_ok w.tick, v))

  -- The context is the one that a session starts with.
  prepare_lem :
      (config : Config) (addr : Bytes) (port : ℕ) (session : Option ℕ) (next : ℕ) (w : World)
      → HasMemory env
      → IsEmpty next w
      → Ends
          (prepare env has_ecdsa_key config addr port session w)
          (λ _ w'. IsEmpty next w' × (w'.ctx ≡ start_context addr port config session true))
  unfolding prepare
  prepare_lem config addr port session next w mem v =
      >>=-Ends (pool_memory env has_ecdsa_key config) _ w
        (λ given w'. (given ≡ true) × IsEmpty next w')
        (λ _ w'. IsEmpty next w' × (w'.ctx ≡ start_context addr port config session true))
        (pool_memory_given config next w mem v)
        (λ given w1 (e, v1). (v1, ap (start_context addr port config session) e))

  module _ (arrivals : Arrivals) (stop : ℕ → Bool) (last : ℕ) (mem : HasMemory env)
      (ready : (n : ℕ) (w : World) → IsSound w → Ready w (arrivals.event_at n w))
      (stops : (k : ℕ) → last ≤ k → stop k ≡ true) where
    prepared-AllReleased :
        (addr : Bytes) (port : ℕ) (config : Config) (session : Option ℕ) (next : ℕ) (w : World)
        → IsEmpty next w
        → w.ctx ≡ start_context addr port config session true
        → Ends (proxy_process env arrivals stop (suc last) w) (λ _ w'. AllReleased w')
    prepared-AllReleased addr port config session next w (no_pairs, fresh) c =
        from_start w.ctx w.heap w.next c no_pairs fresh
      where
        from_start :
            (ctx : Context) (heap : Heap) (n : ℕ)
            → ctx ≡ start_context addr port config session true
            → heap ≡ (λ a. none)
            → n ≡ next
            → Ends
                (proxy_process env arrivals stop
                  (suc last)
                  (record { ctx = ctx; heap = heap; next = n; tick = w.tick; trace = w.trace }))
                (λ _ w'. AllReleased w')
        from_start ctx heap n e f g =
            rw (e, f, g)
              (proxy_process-AllReleased env arrivals stop last addr port config session next w.tick
                w.trace mem ready stops)

    -- `ProxyProcess` as a whole, from the first call to the last, ends with no fault in its own memory
    -- where the reads of `ShouldStop` give 1 from the one with the number `last` on and the fuel of each
    -- loop is one more than that. At its end no pair of its pool is left on the heap. The directory of
    -- the keys is not empty and has at most 1006 characters, so that its paths fit their buffer. This
    -- holds whatever libssh and the system answer, while there is memory, and whatever callbacks come in
    -- any order, as long as in a sound session they are for pairs that are not freed and with passwords
    -- that fit the buffer. Whether libssh is handed a freed channel is not part of it.
    pub whole_process-AllReleased :
        (config : Config) (keys_dir addr : Bytes) (port socket next : ℕ) (w : World)
        → config.keys_dir ≡ some keys_dir
        → 0 < length keys_dir
        → length keys_dir ≤ 1006
        → IsEmpty next w
        → Ends
            (whole_process env has_ecdsa_key arrivals stop (suc last) config addr port socket w)
            (λ _ w'. AllReleased w')
    unfolding whole_process
    whole_process-AllReleased config keys_dir addr port socket next w given some_char fits v =
        let (dir, e, le) = key_dir-some keys_dir some_char (omega arith) in
        let keys : keys_in env has_ecdsa_key config.keys_dir ≡ some dir =
          ap (keys_in env has_ecdsa_key) given ∙ e in
        let Q : ℤ → World → Type 0 = λ _ w'. AllReleased w' in
        >>=-Ends (set_up env has_ecdsa_key config socket) _ (called Call.gettimeofday w)
          (λ _ w'. IsEmpty next w') Q
          (set_up-IsEmpty config dir socket next (called Call.gettimeofday w) keys (omega arith) v)
          (λ session w1 v1.
            >>-Ends (prepare env has_ecdsa_key config addr port session) _ w1
              (λ w'. IsEmpty next w' × (w'.ctx ≡ start_context addr port config session true)) Q
              (prepare_lem config addr port session next w1 mem v1)
              (λ w2 v2.
                >>-Ends (proxy_process env arrivals stop (suc last)) _ w2 AllReleased Q
                  (prepared-AllReleased addr port config session next w2 v2.0 v2.1) (λ w3 v3. v3)))
