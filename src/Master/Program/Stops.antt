-- ===== src/Master/Program/Stops.antt =====
-- src/main.c: the loop of `main` ends when the process is told to stop, and each round closes the
-- handle of its client.
pub mod Served
pub mod Ended
use haa_s_libssh.Common.{
  ℕ, zero, suc, ◌+◌, ◌≤◌, ◌<◌, ◌≡◌, refl, subst, length, Bool, true, false, not, ◌&&◌, Option, none,
  some, List, [], ◌∷◌, is_null, if◌then◌else◌, Bool-cases, inl, inr, arith,
}
use haa_s_libssh.Common.Ends.{Ends, Ends-mono, >>=-Ends, >>-Ends, if-Ends, when-Ends}
use haa_s_libssh.Common.Int.{ℤ, pos, minus_one, eqb_ℤ, ltb_ℤ, leb_ℤ, nonzero}
use haa_s_libssh.Config.{Bytes, Config}
use haa_s_libssh.World.{World}
use haa_s_libssh.Proxy.Forward.Register.{HasMemory}
use haa_s_libssh.Proxy.Events.Sound.{IsSound, Ready}
use haa_s_libssh.Proxy.Process.Ending.{AllReleased}
use haa_s_libssh.Proxy.Setup.{whole_process}
use haa_s_libssh.Proxy.Setup.Whole.{whole_process-AllReleased}
use haa_s_libssh.Master.System.{
  SysCall, Kernel, Session, Process, P, called, run, ask, ask_handle, process, ◌>>=◌, ◌>>◌, pure,
  update, when,
}
use haa_s_libssh.Master.Server.{process_console}
use haa_s_libssh.Master.Program.{
  Next, one_more_child, count_dead, accept_client, run_session, child_process, count_child,
  start_child, welcome, on_master, on_console, then_console, on_ready, on_select, round,
}
use haa_s_libssh.Master.Program.Sockets.{
  effect, stops, Holds, Holds-le, called-Holds, take_out_first, take_out_second,
}
use haa_s_libssh.Master.Program.Sockets.Kept.{with_handle, ask_on, run_on}
use haa_s_libssh.Master.Program.Sockets.Background.{
  Keeps, exactly, and_right, early_tick, left_over, further, process_console-Keeps,
}
use haa_s_libssh.Master.Program.Sessions.{Closes, session_ends}

some_inj : {a b : World} → some a ≡ some b → a ≡ b
some_inj h = cc

module _ (k : Kernel) (s : Session) (t : ℕ) (arrives : stops (k.signals t) ≡ true)
    (calm : (n : ℕ) → t ≤ n → k.eintr n ≡ false) where
  -- The handles behind a round: the child has none that it got from the master.
  abbrev pub After : ℕ → ℕ → List ℕ → Next → Process → Type 0
  After master lo hs Next.in_child p = Holds t lo hs p
  After master lo hs next p = Holds t lo (master ∷ hs) p

  -- What `accept` answered, and how the loop goes on after an interrupt.
  accepted_Opens :
      (master fuel lo : ℕ) (hs : List ℕ) (p : Process) (r : Option ℕ)
      → Holds t lo hs p
      → ((p1 : Process)
          → k.eintr p.tick ≡ true
          → Holds t (suc p.tick) hs p1
          → Ends
              (accept_client k s master fuel p1)
              (λ r' p'. Holds t (suc p.tick) (with_handle r' hs) p'))
      → Ends
          ((if is_null r && k.eintr p.tick then accept_client k s master fuel else pure r)
            (called k (SysCall.accept master) r p))
          (λ r' p'. Holds t lo (with_handle r' hs) p')
  accepted_Opens master fuel lo hs p (some c) v loop =
      Holds-le t (suc lo) lo (c ∷ hs) (called k (SysCall.accept master) (some c) p) (omega arith)
        (called-Holds k t arrives (SysCall.accept master) (some c) lo hs (c ∷ hs) p v refl)
  accepted_Opens master fuel lo hs p none v loop =
      let p1 = called k (SysCall.accept master) none p in
      let v1 : Holds t (suc p.tick) hs p1 =
        called-Holds k t arrives (SysCall.accept master) none p.tick hs hs p (exactly lo hs p v)
          refl in
      if-Ends (k.eintr p.tick) (accept_client k s master fuel) (pure none) p1
        (λ r' p'. Holds t lo (with_handle r' hs) p')
        (λ e.
          Ends-mono (accept_client k s master fuel p1)
            (λ r' p'. Holds t (suc p.tick) (with_handle r' hs) p')
            (λ r' p'. Holds t lo (with_handle r' hs) p') (loop p1 e v1)
            (λ r' p' v'. Holds-le t (suc p.tick) lo (with_handle r' hs) p' (omega (arith, v.0)) v'))
        (λ _. Holds-le t (suc p.tick) lo hs p1 (omega (arith, v.0)) v1)

  accept_client-Opens :
      (master fuel lo : ℕ) (hs : List ℕ) (p : Process)
      → 0 < fuel
      → t < lo + fuel
      → Holds t lo hs p
      → Ends (accept_client k s master fuel p) (λ r p'. Holds t lo (with_handle r hs) p')
  unfolding accept_client
  accept_client-Opens master zero lo hs p some_fuel enough v = absurd (omega arith)
  accept_client-Opens master (suc fuel) lo hs p some_fuel enough v =
      accepted_Opens master fuel lo hs p (k.handle p.tick (SysCall.accept master)) v (λ p1 e v1.
        accept_client-Opens master fuel (suc p.tick) hs p1
          (left_over lo t fuel p.tick enough (early_tick k t calm p.tick e) v.0)
          (further lo t fuel p.tick enough v.0) v1)

  -- The session ends, and leaves the handles of `main` to it.
  run_session-Holds :
      (config : Config) (fuel child lo : ℕ) (hs : List ℕ) (p : Process)
      → 0 < fuel
      → Closes s config fuel
      → Holds t lo hs p
      → Ends (run_session k s config fuel child p) (λ _ p'. Holds t lo hs p')
  unfolding run_session
  run_session-Holds config fuel child lo hs p some_fuel g (le, stop, open_now, over) =
      session_over
        (whole_process s.env s.has_ecdsa_key s.arrivals s.stop fuel config s.addr s.port child
          s.start)
        (session_ends s config fuel child some_fuel g)
    where
      session_over :
          (r : Option (ℤ × World))
          → Ends r (λ _ w. AllReleased w)
          → Ends
              (elim r as (λ _. Option (Unit {0} × Process)) [
                | none ↦ none
                | some (msec, w) ↦ some (tt, record p { session = some w })
              ])
              (λ _ p'. Holds t lo hs p')
      session_over none h = absurd h
      session_over (some (msec, w)) h =
          (le, stop, open_now, λ w' e. subst AllReleased (some_inj e) h)

  child_process-After :
      (config : Config) (fuel master child lo : ℕ) (hs : List ℕ) (p : Process)
      → 0 < fuel
      → Closes s config fuel
      → Holds t lo (child ∷ master ∷ hs) p
      → Ends (child_process k s config fuel master child p) (After master lo hs)
  unfolding child_process
  child_process-After config fuel master child lo hs p some_fuel g v =
      let last : P Next = run k (SysCall.close child) >> pure Next.in_child in
      run_on k t arrives (SysCall.close master) (run_session k s config fuel child >> last) lo
        (child ∷ master ∷ hs) (child ∷ hs) p (After master lo hs) v
        (take_out_second child master hs)
        (λ p1 v1.
          >>-Ends (run_session k s config fuel child) last p1 (Holds t lo (child ∷ hs))
            (After master lo hs)
            (run_session-Holds config fuel child lo (child ∷ hs) p1 some_fuel g v1)
            (λ p2 v2.
              run_on k t arrives (SysCall.close child) (pure Next.in_child) lo (child ∷ hs) hs p2
                (After master lo hs) v2 (take_out_first child hs) (λ p3 v3. v3)))

  -- The client's handle is closed, and the loop goes on.
  closed_After :
      (master child lo : ℕ) (hs : List ℕ) (p : Process)
      → Holds t lo (child ∷ master ∷ hs) p
      → Ends ((run k (SysCall.close child) >> pure Next.again) p) (After master lo hs)
  closed_After master child lo hs p v =
      run_on k t arrives (SysCall.close child) (pure Next.again) lo (child ∷ master ∷ hs)
        (master ∷ hs) p (After master lo hs) v (take_out_first child (master ∷ hs)) (λ p' v'. v')

  start_child-After :
      (config : Config) (fuel master child lo : ℕ) (hs : List ℕ) (p : Process)
      → 0 < fuel
      → Closes s config fuel
      → Holds t lo (child ∷ master ∷ hs) p
      → Ends (start_child k s config fuel master child p) (After master lo hs)
  unfolding start_child
  start_child-After config fuel master child lo hs p some_fuel g v =
      ask_on k t arrives SysCall.fork _ lo (child ∷ master ∷ hs) (child ∷ master ∷ hs) p
        (After master lo hs) v refl
        (λ i p1 v1.
          if-Ends (eqb_ℤ i (pos 0)) (child_process k s config fuel master child)
            (count_child k s i >> (run k (SysCall.close child) >> pure Next.again)) p1
            (After master lo hs)
            (λ _. child_process-After config fuel master child lo hs p1 some_fuel g v1)
            (λ _.
              >>-Ends (count_child k s i) (run k (SysCall.close child) >> pure Next.again) p1
                (Holds t lo (child ∷ master ∷ hs)) (After master lo hs)
                (when-Ends (not (eqb_ℤ i minus_one))
                  (update (λ p. record p { count = one_more_child p.count })) p1
                  (Holds t lo (child ∷ master ∷ hs)) (λ _. v1) (λ _. v1))
                (λ p2 v2. closed_After master child lo hs p2 v2)))

  welcome-After :
      (config : Config) (fuel master child lo : ℕ) (hs : List ℕ) (p : Process)
      → 0 < fuel
      → Closes s config fuel
      → Holds t lo (child ∷ master ∷ hs) p
      → Ends (welcome k s config fuel master child p) (After master lo hs)
  unfolding welcome
  welcome-After config fuel master child lo hs p some_fuel g v =
      if-Ends (leb_ℤ config.conn_limit p.count.child_count)
        (run k (SysCall.close child) >> pure Next.again) (start_child k s config fuel master child)
        p (After master lo hs) (λ _. closed_After master child lo hs p v)
        (λ _. start_child-After config fuel master child lo hs p some_fuel g v)

  welcomed :
      (config : Config) (fuel master : ℕ) (r : Option ℕ) (lo : ℕ) (hs : List ℕ) (p : Process)
      → 0 < fuel
      → Closes s config fuel
      → Holds t lo (with_handle r (master ∷ hs)) p
      → Ends
          ((elim r as (λ _. P Next) [
            | none ↦ pure Next.again
            | some c ↦ welcome k s config fuel master c
          ])
            p)
          (After master lo hs)
  welcomed config fuel master none lo hs p some_fuel g v = v
  welcomed config fuel master (some c) lo hs p some_fuel g v =
      welcome-After config fuel master c lo hs p some_fuel g v

  on_master-After :
      (config : Config) (master fuel lo : ℕ) (hs : List ℕ) (p : Process)
      → t < fuel
      → Closes s config fuel
      → Holds t lo (master ∷ hs) p
      → Ends (on_master k s config master fuel p) (After master lo hs)
  unfolding on_master
  on_master-After config master fuel lo hs p enough g v =
      >>=-Ends (accept_client k s master fuel) _ p
        (λ r p'. Holds t lo (with_handle r (master ∷ hs)) p') (After master lo hs)
        (accept_client-Opens master fuel lo (master ∷ hs) p (omega arith) (omega arith) v)
        (λ r p1 v1. welcomed config fuel master r lo hs p1 (omega arith) g v1)

  leave_or_again :
      (b : Bool) (master lo : ℕ) (hs : List ℕ) (p : Process)
      → Holds t lo (master ∷ hs) p
      → After master lo hs (if b then Next.leave else Next.again) p
  leave_or_again true master lo hs p v = v
  leave_or_again false master lo hs p v = v

  on_console-After :
      (master fuel lo : ℕ) (hs : List ℕ) (p : Process)
      → t < fuel
      → Holds t lo (master ∷ hs) p
      → Ends (on_console k s fuel p) (After master lo hs)
  unfolding on_console
  on_console-After master fuel lo hs p enough v =
      >>=-Ends (process_console k 0 fuel) _ p (Keeps k t arrives lo (master ∷ hs))
        (After master lo hs)
        (process_console-Keeps k t arrives calm 0 fuel lo (master ∷ hs) p enough v)
        (λ i p1 v1. leave_or_again (nonzero i) master lo hs p1 v1)

  then_console-After :
      (typed : Bool) (next : Next) (master fuel lo : ℕ) (hs : List ℕ) (p : Process)
      → t < fuel
      → After master lo hs next p
      → Ends (then_console k s typed fuel next p) (After master lo hs)
  unfolding then_console
  then_console-After typed Next.in_child master fuel lo hs p enough v = v
  then_console-After typed Next.leave master fuel lo hs p enough v = v
  then_console-After typed Next.again master fuel lo hs p enough v =
      if-Ends typed (on_console k s fuel) (pure Next.again) p (After master lo hs)
        (λ _. on_console-After master fuel lo hs p enough v) (λ _. v)

  pub on_ready-After :
      (config : Config) (master n fuel lo : ℕ) (hs : List ℕ) (p : Process)
      → t < fuel
      → Closes s config fuel
      → Holds t lo (master ∷ hs) p
      → Ends (on_ready k s config master n fuel p) (After master lo hs)
  unfolding on_ready
  on_ready-After config master n fuel lo hs p enough g v =
      >>=-Ends (if k.readable n master then on_master k s config master fuel else pure Next.again)
        (then_console k s (config.foreground && k.readable n 0) fuel) p (After master lo hs)
        (After master lo hs)
        (if-Ends (k.readable n master) (on_master k s config master fuel) (pure Next.again) p
          (After master lo hs) (λ _. on_master-After config master fuel lo hs p enough g v)
          (λ _. v))
        (λ next p1 v1.
          then_console-After (config.foreground && k.readable n 0) next master fuel lo hs p1 enough
            v1)
