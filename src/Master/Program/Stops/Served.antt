-- ===== src/Master/Program/Stops/Served.antt =====
-- src/main.c: the loop of `main` with its rounds, and what stands around it.
use haa_s_libssh.Common.{
  ℕ, zero, suc, ◌+◌, ◌≤◌, ◌<◌, ◌≡◌, refl, Bool, true, false, Option, none, some, List, ◌∷◌,
  Bool-cases, inl, inr, arith, ltb, ltb→lt,
}
use haa_s_libssh.Common.Ends.{Ends, Ends-mono, >>=-Ends, >>-Ends, if-Ends}
use haa_s_libssh.Common.Int.{ℤ, pos, ltb_ℤ}
use haa_s_libssh.Config.{Config}
use haa_s_libssh.Master.System.{SysCall, Kernel, Session, Process, P, called, pure}
use haa_s_libssh.Master.Program.{
  Next, on_ready, on_select, round, serve, proxy_init, proxy_done, close_master, serve_clients,
}
use haa_s_libssh.Master.Program.Sockets.{
  effect, stops, Holds, Holds-le, called-Holds, take_out_first,
}
use haa_s_libssh.Master.Program.Sockets.Kept.{with_handle}
use haa_s_libssh.Master.Program.Sockets.Background.{Keeps, exactly}
use haa_s_libssh.Master.Program.Stops.{After, on_ready-After}
use haa_s_libssh.Master.Program.Sessions.{Closes}

-- A process that goes on does not know of the signal yet.
not_yet : (t tick : ℕ) (b : Bool) → (t < tick → b ≡ true) → b ≡ false → tick ≤ t
not_yet t tick b told going = elim (Bool-cases (ltb t tick)) [
  | inl after ↦ absurd (clash b (told (ltb→lt t tick after)) going)
  | inr before ↦ ground arith
]
  where
    clash : (b : Bool) → b ≡ true → b ≡ false → ⊥
    clash true h j = cc
    clash false h j = cc

module _ (k : Kernel) (s : Session) (t : ℕ) (arrives : stops (k.signals t) ≡ true)
    (calm : (n : ℕ) → t ≤ n → k.eintr n ≡ false) where
  on_select-After :
      (config : Config) (master n fuel lo : ℕ) (i : ℤ) (hs : List ℕ) (p : Process)
      → t < fuel
      → Closes s config fuel
      → Holds t lo (master ∷ hs) p
      → Ends (on_select k s config master n fuel i p) (After k s t arrives calm master lo hs)
  unfolding on_select
  on_select-After config master n fuel lo i hs p enough g v =
      let Done : Next → Process → Type 0 = After k s t arrives calm master lo hs in
      if-Ends (ltb_ℤ i (pos 0)) _ _ p Done
        (λ _. if-Ends (k.eintr n) _ (pure Next.leave) p Done (λ _. v) (λ _. v))
        (λ _.
          if-Ends (ltb_ℤ (pos 0) i) (on_ready k s config master n fuel) (pure Next.again) p Done
            (λ _. on_ready-After k s t arrives calm config master n fuel lo hs p enough g v)
            (λ _. v))

  -- A round makes a call.
  round-After :
      (config : Config) (master fuel lo : ℕ) (hs : List ℕ) (p : Process)
      → t < fuel
      → Closes s config fuel
      → Holds t lo (master ∷ hs) p
      → Ends (round k s config master fuel p) (After k s t arrives calm master (suc lo) hs)
  unfolding round
  round-After config master fuel lo hs p enough g v =
      on_select-After config master p.tick fuel (suc lo) (k.int p.tick SysCall.select) hs
        (called k SysCall.select none p) enough g
        (called-Holds k t arrives SysCall.select none lo (master ∷ hs) (master ∷ hs) p v refl)

  -- The next round, or the end of the loop.
  served :
      (config : Config) (master fuel n tick lo : ℕ) (hs : List ℕ) (next : Next) (p : Process)
      → lo ≤ suc tick
      → After k s t arrives calm master (suc tick) hs next p
      → (Holds t (suc tick) (master ∷ hs) p
          → Ends
              (serve k s config master fuel n p)
              (λ r p'. Holds t (suc tick) (with_handle r hs) p'))
      → Ends
          ((elim next as (λ _. P (Option ℕ)) [
            | Next.again ↦ serve k s config master fuel n
            | Next.leave ↦ pure (some master)
            | Next.in_child ↦ pure none
          ])
            p)
          (λ r p'. Holds t lo (with_handle r hs) p')
  served config master fuel n tick lo hs Next.again p le v loop =
      Ends-mono (serve k s config master fuel n p)
        (λ r p'. Holds t (suc tick) (with_handle r hs) p')
        (λ r p'. Holds t lo (with_handle r hs) p') (loop v)
        (λ r p' v'. Holds-le t (suc tick) lo (with_handle r hs) p' le v')
  served config master fuel n tick lo hs Next.leave p le v loop =
      Holds-le t (suc tick) lo (master ∷ hs) p le v
  served config master fuel n tick lo hs Next.in_child p le v loop =
      Holds-le t (suc tick) lo hs p le v

  pub serve-Opens :
      (config : Config) (master fuel n lo : ℕ) (hs : List ℕ) (p : Process)
      → t < fuel
      → Closes s config fuel
      → 0 < n
      → suc t < lo + n
      → Holds t lo (master ∷ hs) p
      → Ends (serve k s config master fuel n p) (λ r p'. Holds t lo (with_handle r hs) p')
  unfolding serve
  serve-Opens config master fuel zero lo hs p inner g some_fuel enough v = absurd (omega arith)
  serve-Opens config master fuel (suc n) lo hs p inner g some_fuel enough v =
      if-Ends p.should_stop (pure (some master)) _ p (λ r p'. Holds t lo (with_handle r hs) p')
        (λ _. v)
        (λ going.
          >>=-Ends (round k s config master fuel) _ p
            (After k s t arrives calm master (suc p.tick) hs)
            (λ r p'. Holds t lo (with_handle r hs) p')
            (round-After config master fuel p.tick hs p inner g (exactly lo (master ∷ hs) p v))
            (λ next p1 v1.
              served config master fuel n p.tick lo hs next p1 (omega (arith, v.0)) v1 (λ v2.
                let early = not_yet t p.tick p.should_stop v.1 going in
                serve-Opens config master fuel n (suc p.tick) hs p1 inner g
                  (omega (arith, early, v.0)) (omega (arith, v.0)) v2)))

  -- What is left behind the loop.
  close_master-Keeps :
      (r : Option ℕ) (lo : ℕ) (hs : List ℕ) (p : Process)
      → Holds t lo (with_handle r hs) p
      → Ends (close_master k s r p) (Keeps k t arrives lo hs)
  unfolding close_master
  close_master-Keeps none lo hs p v = v
  close_master-Keeps (some h) lo hs p v =
      Holds-le t (suc lo) lo hs (called k (SysCall.close h) none p) (omega arith)
        (called-Holds k t arrives (SysCall.close h) none lo (h ∷ hs) hs p v (take_out_first h hs))

  -- A call that opens and closes nothing.
  pub plain_call :
      (c : SysCall) (lo : ℕ) (hs : List ℕ) (p : Process)
      → effect c none hs ≡ some hs
      → Holds t lo hs p
      → Holds t lo hs (called k c none p)
  plain_call c lo hs p e v =
      Holds-le t (suc lo) lo hs (called k c none p) (omega arith)
        (called-Holds k t arrives c none lo hs hs p v e)

  pub serve_clients-Keeps :
      (config : Config) (master fuel lo : ℕ) (hs : List ℕ) (p : Process)
      → suc t < fuel
      → Closes s config fuel
      → Holds t lo (master ∷ hs) p
      → Ends (serve_clients k s config master fuel p) (Keeps k t arrives lo hs)
  unfolding serve_clients proxy_init proxy_done
  serve_clients-Keeps config master fuel lo hs p enough g v =
      let p1 = called k SysCall.ssh_init none p in
      let v1 : Holds t lo (master ∷ hs) p1 =
        plain_call SysCall.ssh_init lo (master ∷ hs) p refl v in
      >>=-Ends (serve k s config master fuel fuel) _ p1 (λ r p'. Holds t lo (with_handle r hs) p')
        (Keeps k t arrives lo hs)
        (serve-Opens config master fuel fuel lo hs p1 (omega arith) g (omega arith) (omega arith)
          v1)
        (λ r p2 v2.
          >>-Ends (close_master k s r) (proxy_done k s) p2 (Holds t lo hs) (Keeps k t arrives lo hs)
            (close_master-Keeps r lo hs p2 v2)
            (λ p3 v3. plain_call SysCall.ssh_finalize lo hs p3 refl v3))
