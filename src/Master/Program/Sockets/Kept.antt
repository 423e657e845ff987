-- ===== src/Master/Program/Sockets/Kept.antt =====
-- src/main.c: `CreateTCPServer` opens one handle or none, and `ProcessConsole` and `daemonize` keep
-- the handles as they are. Reading is not interrupted any more from the call `t` on.
use haa_s_libssh.Common.{
  ℕ, suc, ◌≡◌, refl, true, Option, none, some, List, ◌∷◌, if◌then◌else◌, arith,
}
use haa_s_libssh.Common.Ends.{Ends, if-Ends}
use haa_s_libssh.Common.Int.{ℤ, nonzero}
use haa_s_libssh.Master.System.{
  SysCall, Kernel, Process, P, called, run, ask, ask_handle, ◌>>=◌, ◌>>◌, pure,
}
use haa_s_libssh.Master.Server.{port_bits, refused, listen_on, bind_to, set_up, create_tcp_server}
use haa_s_libssh.Master.Program.Sockets.{
  effect, stops, Holds, Holds-le, called-Holds, take_out_first,
}

-- The handles with the one of a result.
abbrev pub with_handle : Option ℕ → List ℕ → List ℕ
with_handle none hs = hs
with_handle (some h) hs = h ∷ hs

module _ (k : Kernel) (t : ℕ) (arrives : stops (k.signals t) ≡ true) where
  -- A call that the rest goes on from.
  pub ask_on :
      {B : Type 0} (c : SysCall) (f : ℤ → P B) (lo : ℕ) (hs hs' : List ℕ) (p : Process)
      (Q : B → Process → Type 0)
      → Holds t lo hs p
      → effect c none hs ≡ some hs'
      → ((i : ℤ) (p' : Process) → Holds t lo hs' p' → Ends (f i p') Q)
      → Ends ((ask k c >>= f) p) Q
  ask_on c f lo hs hs' p Q v e g = g (k.int p.tick c) (called k c none p) (
      Holds-le t (suc lo) lo hs' (called k c none p) (omega arith)
        (called-Holds k t arrives c none lo hs hs' p v e))

  pub run_on :
      {B : Type 0} (c : SysCall) (m : P B) (lo : ℕ) (hs hs' : List ℕ) (p : Process)
      (Q : B → Process → Type 0)
      → Holds t lo hs p
      → effect c none hs ≡ some hs'
      → ((p' : Process) → Holds t lo hs' p' → Ends (m p') Q)
      → Ends ((run k c >> m) p) Q
  run_on c m lo hs hs' p Q v e g = g (called k c none p) (
      Holds-le t (suc lo) lo hs' (called k c none p) (omega arith)
        (called-Holds k t arrives c none lo hs hs' p v e))

  -- A call that opens a handle, or none.
  pub open_on :
      {B : Type 0} (c : SysCall) (f : Option ℕ → P B) (lo : ℕ) (hs : List ℕ) (p : Process)
      (Q : B → Process → Type 0)
      → Holds t lo hs p
      → ((r : Option ℕ) → effect c r hs ≡ some (with_handle r hs))
      → ((r : Option ℕ) (p' : Process) → Holds t lo (with_handle r hs) p' → Ends (f r p') Q)
      → Ends ((ask_handle k c >>= f) p) Q
  open_on c f lo hs p Q v e g =
      let r = k.handle p.tick c in
      g r (called k c r p) (
        Holds-le t (suc lo) lo (with_handle r hs) (called k c r p) (omega arith)
          (called-Holds k t arrives c r lo hs (with_handle r hs) p v (e r)))

  -- The condition of a function that opens a handle or none, and of one that opens none.
  abbrev pub Opens : ℕ → List ℕ → Option ℕ → Process → Type 0
  Opens lo hs r p = Holds t lo (with_handle r hs) p

  refused-Opens :
      (s lo : ℕ) (hs : List ℕ) (p : Process)
      → Holds t lo (s ∷ hs) p
      → Ends (refused k s p) (Opens lo hs)
  refused-Opens s lo hs p v =
      run_on (SysCall.close s) (pure none) lo (s ∷ hs) hs p (Opens lo hs) v (take_out_first s hs)
        (λ p' v'. v')

  listen_on-Opens :
      (s lo : ℕ) (hs : List ℕ) (p : Process)
      → Holds t lo (s ∷ hs) p
      → Ends (listen_on k s p) (Opens lo hs)
  unfolding listen_on
  listen_on-Opens s lo hs p v =
      ask_on (SysCall.listen s 10) (λ i. if nonzero i then refused k s else pure (some s)) lo
        (s ∷ hs) (s ∷ hs) p (Opens lo hs) v refl
        (λ i p' v'.
          if-Ends (nonzero i) (refused k s) (pure (some s)) p' (Opens lo hs)
            (λ _. refused-Opens s lo hs p' v') (λ _. v'))

  bind_to-Opens :
      (port : ℤ) (s lo : ℕ) (hs : List ℕ) (p : Process)
      → Holds t lo (s ∷ hs) p
      → Ends (bind_to k port s p) (Opens lo hs)
  unfolding bind_to
  bind_to-Opens port s lo hs p v =
      ask_on (SysCall.bind s (port_bits port))
        (λ i. if nonzero i then refused k s else listen_on k s) lo (s ∷ hs) (s ∷ hs) p (Opens lo hs)
        v refl
        (λ i p' v'.
          if-Ends (nonzero i) (refused k s) (listen_on k s) p' (Opens lo hs)
            (λ _. refused-Opens s lo hs p' v') (λ _. listen_on-Opens s lo hs p' v'))

  set_up-Opens :
      (port : ℤ) (s lo : ℕ) (hs : List ℕ) (p : Process)
      → Holds t lo (s ∷ hs) p
      → Ends (set_up k port s p) (Opens lo hs)
  unfolding set_up
  set_up-Opens port s lo hs p v =
      ask_on (SysCall.setsockopt s) (λ i. if nonzero i then refused k s else bind_to k port s) lo
        (s ∷ hs) (s ∷ hs) p (Opens lo hs) v refl
        (λ i p' v'.
          if-Ends (nonzero i) (refused k s) (bind_to k port s) p' (Opens lo hs)
            (λ _. refused-Opens s lo hs p' v') (λ _. bind_to-Opens port s lo hs p' v'))

  socket_effect :
      (hs : List ℕ) (r : Option ℕ) → effect SysCall.socket r hs ≡ some (with_handle r hs)
  socket_effect hs none = refl
  socket_effect hs (some h) = refl

  server_result :
      (port : ℤ) (r : Option ℕ) (lo : ℕ) (hs : List ℕ) (p : Process)
      → Holds t lo (with_handle r hs) p
      → Ends
          ((elim r as (λ _. P (Option ℕ)) [ none ↦ pure none | some s ↦ set_up k port s ]) p)
          (Opens lo hs)
  server_result port none lo hs p v = v
  server_result port (some s) lo hs p v = set_up-Opens port s lo hs p v

  -- The socket is open where it is returned, and closed on all other ways.
  pub create_tcp_server-Opens :
      (port : ℤ) (lo : ℕ) (hs : List ℕ) (p : Process)
      → Holds t lo hs p
      → Ends (create_tcp_server k port p) (Opens lo hs)
  unfolding create_tcp_server
  create_tcp_server-Opens port lo hs p v =
      open_on SysCall.socket
        (λ r. elim r as (λ _. P (Option ℕ)) [ none ↦ pure none | some s ↦ set_up k port s ]) lo hs p
        (Opens lo hs) v (socket_effect hs) (λ r p' v'. server_result port r lo hs p' v')
