-- ===== src/Master/Program/Counting/Pieces.antt =====
-- src/main.c: what the calls and the forks of a round do to the count.
use haa_s_libssh.Common.{
  ℕ, zero, suc, refl, true, ◌&&◌, Option, none, some, List, [], ◌∷◌, is_null, Bool-cases, inl, inr,
}
use haa_s_libssh.Common.Ends.{Leaves, >>-Leaves, if-Leaves}
use haa_s_libssh.Common.Int.{ℤ, pos, minus_one, eqb_ℤ}
use haa_s_libssh.World.{World}
use haa_s_libssh.Config.{Config}
use haa_s_libssh.Master.{Master, Point, fork_failed, advance, goes_on, Steps, after}
use haa_s_libssh.Master.System.{
  SysCall, Signal, Kernel, Session, Process, caught, deliver, called, run, ◌>>◌, pure,
}
use haa_s_libssh.Proxy.Setup.{whole_process}
use haa_s_libssh.Master.Server.{read_byte}
use haa_s_libssh.Master.Program.{
  Next, accept_client, run_session, child_process, count_child, start_child,
}
use haa_s_libssh.Master.Program.Counting.{one_more_child-Steps, Steps-append, reap-Steps}

module _ (limit : ℤ) (m : Master) where
  -- The count has come to a point of the loop by the steps of the relation.
  abbrev pub At : Point → Process → Type 0
  At point p = Steps limit Point.at_select m point p.count

  deliver-At : (l : List Signal) (point : Point) (p : Process) → At point p → At point (deliver l p)
  unfolding caught
  deliver-At [] point p v = v
  deliver-At (Signal.sigpipe ∷ l) point p v = deliver-At l point p v
  deliver-At (Signal.sigint ∷ l) point p v = deliver-At l point (record p { should_stop = true }) v
  deliver-At (Signal.sighup ∷ l) point p v = deliver-At l point (record p { should_stop = true }) v
  deliver-At (Signal.sigchld n ∷ l) point p v =
      deliver-At l point (caught (Signal.sigchld n) p)
        (Steps-append v (reap-Steps limit point n p.count))

module _ (k : Kernel) (s : Session) (limit : ℤ) (m : Master) where
  pub called-At :
      (c : SysCall) (h : Option ℕ) (point : Point) (p : Process)
      → At limit m point p
      → At limit m point (called k c h p)
  called-At c h point p v = deliver-At limit m (k.signals p.tick) point p v

  pub accept_client-At :
      (master fuel : ℕ) (point : Point) (p : Process)
      → At limit m point p
      → Leaves (accept_client k s master fuel p) (At limit m point)
  unfolding accept_client
  accept_client-At master zero point p v = tt
  accept_client-At master (suc fuel) point p v =
      let r = k.handle p.tick (SysCall.accept master) in
      let p1 = called k (SysCall.accept master) r p in
      let v1 = called-At (SysCall.accept master) r point p v in
      if-Leaves (is_null r && k.eintr p.tick) (accept_client k s master fuel) (pure r) p1
        (At limit m point) (accept_client-At master fuel point p1 v1) v1

  pub read_byte-At :
      (fd fuel : ℕ) (point : Point) (p : Process)
      → At limit m point p
      → Leaves (read_byte k fd fuel p) (At limit m point)
  unfolding read_byte
  read_byte-At fd zero point p v = tt
  read_byte-At fd (suc fuel) point p v =
      let c = SysCall.read fd in
      let p1 = called k c none p in
      let v1 = called-At c none point p v in
      if-Leaves (eqb_ℤ (k.int p.tick c) minus_one && k.eintr p.tick) (read_byte k fd fuel)
        (pure (k.int p.tick c, k.byte p.tick)) p1 (At limit m point)
        (read_byte-At fd fuel point p1 v1) v1

  run_session-At :
      (config : Config) (fuel child : ℕ) (point : Point) (p : Process)
      → At limit m point p
      → Leaves (run_session k s config fuel child p) (At limit m point)
  unfolding run_session
  run_session-At config fuel child point p v = session_over (
      whole_process s.env s.has_ecdsa_key s.arrivals s.stop fuel config s.addr s.port child s.start)
    where
      session_over :
          (r : Option (ℤ × World))
          → Leaves
              (elim r as (λ _. Option (Unit {0} × Process)) [
                | none ↦ none
                | some (msec, w) ↦ some (tt, record p { session = some w })
              ])
              (At limit m point)
      session_over none = tt
      session_over (some (msec, w)) = v

  -- The child goes on with the count that it got.
  child_process-At :
      (config : Config) (fuel master child : ℕ) (point : Point) (p : Process)
      → At limit m point p
      → Leaves (child_process k s config fuel master child p) (At limit m point)
  unfolding child_process
  child_process-At config fuel master child point p v =
      let p1 = called k (SysCall.close master) none p in
      >>-Leaves (run_session k s config fuel child)
        (run k (SysCall.close child) >> pure Next.in_child) p1 (At limit m point) (At limit m point)
        (run_session-At config fuel child point p1
          (called-At (SysCall.close master) none point p v))
        (λ p2 v2. called-At (SysCall.close child) none point p2 v2)

  -- A fork that failed, and what the child sees.
  not_counted : (p : Process) → At limit m Point.below_limit p → At limit m Point.at_select p
  unfolding advance
  not_counted p v = after v (goes_on fork_failed refl)

  count_child-At :
      (pid : ℤ) (p : Process)
      → At limit m Point.below_limit p
      → Leaves (count_child k s pid p) (At limit m Point.at_select)
  count_child-At pid p v = elim (Bool-cases (eqb_ℤ pid minus_one)) [
    | inl failed ↦ rw failed (not_counted p v)
    | inr forked ↦ rw forked (Steps-append v (one_more_child-Steps limit p.count))
  ]

  pub start_child-At :
      (config : Config) (fuel master child : ℕ) (p : Process)
      → At limit m Point.below_limit p
      → Leaves (start_child k s config fuel master child p) (At limit m Point.at_select)
  unfolding start_child
  start_child-At config fuel master child p v =
      let pid = k.int p.tick SysCall.fork in
      let p1 = called k SysCall.fork none p in
      let v1 = called-At SysCall.fork none Point.below_limit p v in
      let Done : Process → Type 0 = At limit m Point.at_select in
      if-Leaves (eqb_ℤ pid (pos 0)) (child_process k s config fuel master child)
        (count_child k s pid >> (run k (SysCall.close child) >> pure Next.again)) p1 Done
        (child_process-At config fuel master child Point.at_select p1 (not_counted p1 v1))
        (>>-Leaves (count_child k s pid) (run k (SysCall.close child) >> pure Next.again) p1 Done
          Done (count_child-At pid p1 v1)
          (λ p2 v2. called-At (SysCall.close child) none Point.at_select p2 v2))
