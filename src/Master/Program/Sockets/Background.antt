-- ===== src/Master/Program/Sockets/Background.antt =====
-- src/main.c: `ProcessConsole` and `daemonize` leave no handle behind, and the read ends if it is not
-- interrupted any more from the call `t` on.
use haa_s_libssh.Common.{
  ℕ, zero, suc, ◌+◌, ◌≤◌, ◌<◌, ◌≡◌, refl, Bool, true, false, not, ◌&&◌, Option, none, some, List,
  ◌∷◌, Bool-cases, inl, inr, arith, ltb, ltb→lt,
}
use haa_s_libssh.Common.Ends.{Ends, Ends-mono, >>=-Ends, >>-Ends, if-Ends, when-Ends}
use haa_s_libssh.Common.Int.{ℤ, pos, minus_one, eqb_ℤ, ltb_ℤ}
use haa_s_libssh.Master.System.{SysCall, Kernel, Process, P, called, run, pure, when}
use haa_s_libssh.Master.Server.{
  read_byte, process_console, dup_from, settle, detach, grandchild, second_fork, new_session,
  daemonize,
}
use haa_s_libssh.Master.Program.Sockets.{
  effect, stops, Holds, Holds-le, called-Holds, take_out_first,
}
use haa_s_libssh.Master.Program.Sockets.Kept.{with_handle, ask_on, open_on}

-- The number of calls so far, exactly.
pub exactly : {t : ℕ} (lo : ℕ) (hs : List ℕ) (p : Process) → Holds t lo hs p → Holds t p.tick hs p
exactly lo hs p (le, stop, open_now, over) = (omega arith, stop, open_now, over)

pub and_right : (a b : Bool) → (a && b) ≡ true → b ≡ true
and_right true b e = e
and_right false b e = cc

-- An interrupted call is one of the first `t`.
pub early_tick :
    (k : Kernel) (t : ℕ)
    → ((n : ℕ) → t ≤ n → k.eintr n ≡ false)
    → (n : ℕ) → k.eintr n ≡ true
    → n < t
early_tick k t calm n e = elim (Bool-cases (ltb n t)) [
  | inl early ↦ ltb→lt n t early
  | inr late ↦ absurd (clash (k.eintr n) e (calm n (not_below n t late)))
]
  where
    clash : (b : Bool) → b ≡ true → b ≡ false → ⊥
    clash true h j = cc
    clash false h j = cc

    not_below : (n t : ℕ) → ltb n t ≡ false → t ≤ n
    not_below n t h = ground arith

-- The fuel of a loop whose round makes a call.
pub left_over : (lo t fuel tick : ℕ) → t < lo + suc fuel → tick < t → lo ≤ tick → 0 < fuel
left_over lo t fuel tick h j l = omega arith

pub further : (lo t fuel tick : ℕ) → t < lo + suc fuel → lo ≤ tick → t < suc tick + fuel
further lo t fuel tick h l = omega arith

module _ (k : Kernel) (t : ℕ) (arrives : stops (k.signals t) ≡ true) where
  -- The condition of a function that leaves the handles as they are.
  abbrev pub Keeps : {A : Type 0} → ℕ → List ℕ → A → Process → Type 0
  Keeps lo hs r p = Holds t lo hs p

  dup_from-Keeps :
      (protect : ℤ) (h i n lo : ℕ) (hs : List ℕ) (p : Process)
      → Holds t lo hs p
      → Ends (dup_from k protect h i n p) (Keeps lo hs)
  unfolding dup_from
  dup_from-Keeps protect h i zero lo hs p v = v
  dup_from-Keeps protect h i (suc n) lo hs p v =
      >>-Ends (when (not (eqb_ℤ (pos i) protect)) (run k (SysCall.dup2 h i)))
        (dup_from k protect h (suc i) n) p (Holds t lo hs) (Keeps lo hs)
        (when-Ends (not (eqb_ℤ (pos i) protect)) (run k (SysCall.dup2 h i)) p (Holds t lo hs)
          (λ _.
            Holds-le t (suc lo) lo hs (called k (SysCall.dup2 h i) none p) (omega arith)
              (called-Holds k t arrives (SysCall.dup2 h i) none lo hs hs p v refl))
          (λ _. v))
        (λ p' v'. dup_from-Keeps protect h (suc i) n lo hs p' v')

  settle-Keeps :
      (protect : ℤ) (h lo : ℕ) (hs : List ℕ) (p : Process)
      → Holds t lo (h ∷ hs) p
      → Ends (settle k protect h p) (Keeps lo hs)
  unfolding settle
  settle-Keeps protect h lo hs p v =
      >>-Ends (dup_from k protect h 0 3) _ p (Holds t lo (h ∷ hs)) (Keeps lo hs)
        (dup_from-Keeps protect h 0 3 lo (h ∷ hs) p v)
        (λ p1 v1.
          let p2 = called k (SysCall.close h) none p1 in
          let v2 : Holds t (suc lo) hs p2 =
            called-Holds k t arrives (SysCall.close h) none lo (h ∷ hs) hs p1 v1
              (take_out_first h hs) in
          Holds-le t (suc (suc lo)) lo hs (called k SysCall.getpid none p2) (omega arith)
            (called-Holds k t arrives SysCall.getpid none (suc lo) hs hs p2 v2 refl))

  null_effect :
      (hs : List ℕ) (r : Option ℕ) → effect SysCall.open_null r hs ≡ some (with_handle r hs)
  null_effect hs none = refl
  null_effect hs (some h) = refl

  null_result :
      (protect : ℤ) (r : Option ℕ) (lo : ℕ) (hs : List ℕ) (p : Process)
      → Holds t lo (with_handle r hs) p
      → Ends
          ((elim r as (λ _. P ℤ) [ none ↦ pure (pos 0) | some h ↦ settle k protect h ]) p)
          (Keeps lo hs)
  null_result protect none lo hs p v = v
  null_result protect (some h) lo hs p v = settle-Keeps protect h lo hs p v

  detach-Keeps :
      (protect : ℤ) (lo : ℕ) (hs : List ℕ) (p : Process)
      → Holds t lo hs p
      → Ends (detach k protect p) (Keeps lo hs)
  unfolding detach
  detach-Keeps protect lo hs p v =
      let p1 = called k SysCall.umask none p in
      let v1 : Holds t lo hs p1 =
        Holds-le t (suc lo) lo hs p1 (omega arith)
          (called-Holds k t arrives SysCall.umask none lo hs hs p v refl) in
      open_on k t arrives SysCall.open_null
        (λ r. elim r as (λ _. P ℤ) [ none ↦ pure (pos 0) | some h ↦ settle k protect h ]) lo hs p1
        (Keeps lo hs) v1 (null_effect hs) (λ r p2 v2. null_result protect r lo hs p2 v2)

  grandchild-Keeps :
      (protect : ℤ) (lo : ℕ) (hs : List ℕ) (p : Process)
      → Holds t lo hs p
      → Ends (grandchild k protect p) (Keeps lo hs)
  unfolding grandchild
  grandchild-Keeps protect lo hs p v =
      ask_on k t arrives SysCall.chdir _ lo hs hs p (Keeps lo hs) v refl (λ i p1 v1.
        if-Ends (ltb_ℤ i (pos 0)) (pure (pos 0)) (detach k protect) p1 (Keeps lo hs) (λ _. v1)
          (λ _. detach-Keeps protect lo hs p1 v1))

  second_fork-Keeps :
      (protect : ℤ) (lo : ℕ) (hs : List ℕ) (p : Process)
      → Holds t lo hs p
      → Ends (second_fork k protect p) (Keeps lo hs)
  unfolding second_fork
  second_fork-Keeps protect lo hs p v =
      ask_on k t arrives SysCall.fork _ lo hs hs p (Keeps lo hs) v refl (λ i p1 v1.
        if-Ends (eqb_ℤ i (pos 0)) (grandchild k protect) (pure (pos 0)) p1 (Keeps lo hs)
          (λ _. grandchild-Keeps protect lo hs p1 v1) (λ _. v1))

  new_session-Keeps :
      (protect : ℤ) (lo : ℕ) (hs : List ℕ) (p : Process)
      → Holds t lo hs p
      → Ends (new_session k protect p) (Keeps lo hs)
  unfolding new_session
  new_session-Keeps protect lo hs p v =
      ask_on k t arrives SysCall.setsid _ lo hs hs p (Keeps lo hs) v refl (λ i p1 v1.
        if-Ends (eqb_ℤ i minus_one) (pure (pos 0)) (second_fork k protect) p1 (Keeps lo hs)
          (λ _. v1) (λ _. second_fork-Keeps protect lo hs p1 v1))

  pub daemonize-Keeps :
      (protect : ℤ) (lo : ℕ) (hs : List ℕ) (p : Process)
      → Holds t lo hs p
      → Ends (daemonize k protect p) (Keeps lo hs)
  unfolding daemonize
  daemonize-Keeps protect lo hs p v =
      ask_on k t arrives SysCall.fork _ lo hs hs p (Keeps lo hs) v refl (λ i p1 v1.
        if-Ends (eqb_ℤ i (pos 0)) (new_session k protect) (pure (pos 0)) p1 (Keeps lo hs)
          (λ _. new_session-Keeps protect lo hs p1 v1) (λ _. v1))

  module _ (calm : (n : ℕ) → t ≤ n → k.eintr n ≡ false) where
    read_byte-Keeps :
        (fd fuel lo : ℕ) (hs : List ℕ) (p : Process)
        → 0 < fuel
        → t < lo + fuel
        → Holds t lo hs p
        → Ends (read_byte k fd fuel p) (Keeps lo hs)
    unfolding read_byte
    read_byte-Keeps fd zero lo hs p some_fuel enough v = absurd (omega arith)
    read_byte-Keeps fd (suc fuel) lo hs p some_fuel enough v =
        let c = SysCall.read fd in
        let p1 = called k c none p in
        let v1 : Holds t (suc p.tick) hs p1 =
          called-Holds k t arrives c none p.tick hs hs p (exactly lo hs p v) refl in
        if-Ends (eqb_ℤ (k.int p.tick c) minus_one && k.eintr p.tick) (read_byte k fd fuel)
          (pure (k.int p.tick c, k.byte p.tick)) p1 (Keeps lo hs)
          (λ e.
            let early : p.tick < t =
              early_tick k t calm p.tick
                (and_right (eqb_ℤ (k.int p.tick c) minus_one) (k.eintr p.tick) e) in
            Ends-mono (read_byte k fd fuel p1) (Keeps (suc p.tick) hs) (Keeps lo hs)
              (read_byte-Keeps fd fuel (suc p.tick) hs p1
                (left_over lo t fuel p.tick enough early v.0) (further lo t fuel p.tick enough v.0)
                v1)
              (λ _ p' v'. Holds-le t (suc p.tick) lo hs p' (omega (arith, v.0)) v'))
          (λ _. Holds-le t (suc p.tick) lo hs p1 (omega (arith, v.0)) v1)

    pub process_console-Keeps :
        (fd fuel lo : ℕ) (hs : List ℕ) (p : Process)
        → t < fuel
        → Holds t lo hs p
        → Ends (process_console k fd fuel p) (Keeps lo hs)
    unfolding process_console
    process_console-Keeps fd fuel lo hs p enough v =
        >>=-Ends (read_byte k fd fuel) _ p (Keeps lo hs) (Keeps lo hs)
          (read_byte-Keeps fd fuel lo hs p (omega arith) (omega arith) v) (λ r p' v'. v')
