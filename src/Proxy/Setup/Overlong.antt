-- ===== src/Proxy/Setup/Overlong.antt =====
-- src/proxy.c, `ProxyProcess`: a directory of the keys whose paths do not fit `KeyPath`.
use haa_s_libssh.Common.{
  ℕ, ◌+◌, ◌≤◌, ◌≡◌, refl, ap, ◌∙◌, Bool, true, Option, none, some, [], ◌∷◌, ◌++◌, length,
  length-append, leb, ◌==◌, ◌⊎◌, inl, inr, Bool-cases, arith,
}
use haa_s_libssh.Common.Ends.{>>=-none, >>-none}
use haa_s_libssh.Config.{Bytes, Config}
use haa_s_libssh.World.{Call, BindOption, CallbackSet, Env, World, ◌>>◌, M, called}
use haa_s_libssh.Proxy.Process.{Arrivals}
use haa_s_libssh.Proxy.Setup.{
  last_of, end_with_slash, key_dir, key_path, set_key, set_keys, keys_in, set_log, set_up,
  whole_process,
}

-- What is empty, or so long that no key fits behind it.
abbrev pub Misfits : Bytes → Type 0
Misfits s = (s ≡ []) ⊎ (1008 ≤ length s)

too_long : (n : ℕ) → 1024 ≤ n → leb 1024 n ≡ true
too_long n h = ground arith

module _ (env : Env) (has_ecdsa_key : Bool) where
  set_keys_overlong :
      (bind : Option ℕ) (dir : Bytes) (w : World)
      → 1008 ≤ length dir
      → set_keys env has_ecdsa_key bind (some dir) w ≡ none
  unfolding set_keys set_key key_path
  set_keys_overlong bind dir w long = rw (too_long (length dir + 16) (omega arith)) refl

  set_keys_slashed :
      (bind : Option ℕ) (s : Bytes) (o : Option ℕ) (w : World)
      → 1008 ≤ length s
      → set_keys env has_ecdsa_key bind (end_with_slash o s) w ≡ none
  unfolding set_keys
  set_keys_slashed bind s none w long = refl
  set_keys_slashed bind s (some c) w long = elim (Bool-cases (c == b'/')) [
    | inl there ↦ rw there (set_keys_overlong bind s w long)
    | inr missing ↦
        rw missing
          (set_keys_overlong bind (s ++ b'/' ∷ []) w (omega (arith, length-append s (b'/' ∷ []))))
  ]

  set_keys-none :
      (bind : Option ℕ) (s : Bytes) (w : World)
      → Misfits s
      → set_keys env has_ecdsa_key bind (key_dir s) w ≡ none
  unfolding key_dir set_keys
  set_keys-none bind s w (inl empty) = rw empty refl
  set_keys-none bind s w (inr long) = elim (Bool-cases (leb 1024 (length s))) [
    | inl full ↦ rw full refl
    | inr fits ↦ rw fits (set_keys_slashed bind s (last_of s) w long)
  ]

  -- The log of libssh stands in the way of nothing.
  set_log-none :
      {A : Type 0} (bind : Option ℕ) (log : Option Bytes) (rest : M A) (w : World)
      → ((w' : World) → rest w' ≡ none)
      → (set_log env has_ecdsa_key bind log >> rest) w ≡ none
  unfolding set_log
  set_log-none bind none rest w faults = faults w
  set_log-none bind (some log) rest w faults =
      faults (called (Call.ssh_bind_options_set bind (BindOption.bind_log_verbosity log)) w)

  set_up-none :
      (config : Config) (s : Bytes) (socket : ℕ) (w : World)
      → config.keys_dir ≡ some s
      → Misfits s
      → set_up env has_ecdsa_key config socket w ≡ none
  unfolding set_up
  set_up-none config s socket w given misfits =
      let w1 = called Call.ssh_new w in
      let session = env.ptr w.tick Call.ssh_new in
      let bind = env.ptr w1.tick Call.ssh_bind_new in
      set_log-none bind config.trap_log _ (called Call.ssh_bind_new w1) (λ w2.
        let w3 = called (Call.ssh_set_callbacks session (some CallbackSet.server_ssh_cb)) w2 in
        >>-none (set_keys env has_ecdsa_key bind (keys_in env has_ecdsa_key config.keys_dir)) _ w3 (
          ap (λ o. set_keys env has_ecdsa_key bind (keys_in env has_ecdsa_key o) w3) given
          ∙ set_keys-none bind s w3 misfits))

  -- Whatever libssh answers and whatever else is configured, `ProxyProcess` runs into a fault in its own
  -- memory, before the key exchange and whatever its fuel, where the directory of the keys is empty or
  -- has at least 1008 characters.
  pub whole_process-none :
      (arrivals : Arrivals) (stop : ℕ → Bool) (fuel : ℕ) (config : Config) (s addr : Bytes)
      (port socket : ℕ) (w : World)
      → config.keys_dir ≡ some s
      → Misfits s
      → whole_process env has_ecdsa_key arrivals stop fuel config addr port socket w ≡ none
  unfolding whole_process
  whole_process-none arrivals stop fuel config s addr port socket w given misfits =
      >>=-none (set_up env has_ecdsa_key config socket) _ (called Call.gettimeofday w)
        (set_up-none config s socket (called Call.gettimeofday w) given misfits)
