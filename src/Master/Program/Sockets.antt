-- ===== src/Master/Program/Sockets.antt =====
-- src/main.c: which handles a process has open, and when it has been told to stop.
pub mod Kept
pub mod Background
use haa_s_libssh.Common.{
  ℕ, suc, ◌+◌, ◌≤◌, ◌<◌, ◌≡◌, refl, ap, sym, subst, ◌∙◌, Bool, true, false, ◌||◌, Option, none,
  some, List, [], ◌∷◌, ◌==◌, if◌then◌else◌, Bool-cases, inl, inr, arith, ltb, lt→ltb,
}
use haa_s_libssh.World.{World}
use haa_s_libssh.Proxy.Process.Ending.{AllReleased}
use haa_s_libssh.Master.System.{
  SysCall, Signal, Kernel, Process, P, caught, deliver, called, run, ask, ask_handle,
}

-- One handle is taken out; there is no answer if it is not there.
abbrev pub taken : Bool → ℕ → List ℕ → Option (List ℕ) → Option (List ℕ)
taken true g rest later = some rest
taken false g rest none = none
taken false g rest (some hs) = some (g ∷ hs)

abbrev pub take_out : ℕ → List ℕ → Option (List ℕ)
take_out h [] = none
take_out h (g ∷ hs) = taken (g == h) g hs (take_out h hs)

-- The handles that are open behind a call. A handle that is not open must not be closed.
abbrev pub effect : SysCall → Option ℕ → List ℕ → Option (List ℕ)
effect SysCall.socket (some h) hs = some (h ∷ hs)
effect (SysCall.accept master) (some h) hs = some (h ∷ hs)
effect SysCall.open_null (some h) hs = some (h ∷ hs)
effect (SysCall.close h) r hs = take_out h hs
effect c r hs = some hs

abbrev pub open_handles : List (SysCall × Option ℕ) → Option (List ℕ)
open_handles [] = some []
open_handles ((c, h) ∷ trace) = elim (open_handles trace) as (λ _. Option (List ℕ)) [
  | none ↦ none
  | some hs ↦ effect c h hs
]

-- A signal leaves the session alone.
session-deliver : (l : List Signal) (p : Process) → (deliver l p).session ≡ p.session
unfolding caught
session-deliver [] p = refl
session-deliver (Signal.sigpipe ∷ l) p = session-deliver l p
session-deliver (Signal.sigint ∷ l) p = session-deliver l (record p { should_stop = true })
session-deliver (Signal.sighup ∷ l) p = session-deliver l (record p { should_stop = true })
session-deliver (Signal.sigchld n ∷ l) p = session-deliver l (caught (Signal.sigchld n) p)

-- SIGINT or SIGHUP is among the signals.
abbrev pub stops : List Signal → Bool
stops [] = false
stops (Signal.sigint ∷ signals) = true
stops (Signal.sighup ∷ signals) = true
stops (s ∷ signals) = stops signals

should_stop-caught :
    (s : Signal) (p : Process) → p.should_stop ≡ true → (caught s p).should_stop ≡ true
unfolding caught
should_stop-caught Signal.sigpipe p h = h
should_stop-caught Signal.sigint p h = refl
should_stop-caught Signal.sighup p h = refl
should_stop-caught (Signal.sigchld n) p h = h

should_stop-deliver :
    (l : List Signal) (p : Process) → p.should_stop ≡ true → (deliver l p).should_stop ≡ true
should_stop-deliver [] p h = h
should_stop-deliver (s ∷ l) p h = should_stop-deliver l (caught s p) (should_stop-caught s p h)

stops-deliver : (l : List Signal) (p : Process) → stops l ≡ true → (deliver l p).should_stop ≡ true
unfolding caught
stops-deliver [] p h = cc
stops-deliver (Signal.sigint ∷ l) p h = should_stop-deliver l (record p { should_stop = true }) refl
stops-deliver (Signal.sighup ∷ l) p h = should_stop-deliver l (record p { should_stop = true }) refl
stops-deliver (Signal.sigpipe ∷ l) p h = stops-deliver l p h
stops-deliver (Signal.sigchld n ∷ l) p h = stops-deliver l (caught (Signal.sigchld n) p) h

-- A session that the process has had has left no pair behind.
abbrev pub Released : Option World → Type 0
Released session = (w : World) → session ≡ some w → AllReleased w

-- At least `lo` calls were made, the process knows of the signal at the call `t`, exactly the handles
-- `hs` are open, and its session is over.
abbrev pub Holds : ℕ → ℕ → List ℕ → Process → Type 0
Holds t lo hs p =
    (lo ≤ p.tick)
    × (t < p.tick → p.should_stop ≡ true)
    × (open_handles p.trace ≡ some hs)
    × Released p.session

pub Holds-le :
    (t lo lo' : ℕ) (hs : List ℕ) (p : Process) → lo' ≤ lo → Holds t lo hs p → Holds t lo' hs p
Holds-le t lo lo' hs p h (le, stop, open_now, over) = (omega arith, stop, open_now, over)

same : (a b : ℕ) → (a == b) ≡ true → a ≡ b
same a b e = ground arith

before : (a b : ℕ) → a < suc b → (a == b) ≡ false → a < b
before a b h e = ground arith

module _ (k : Kernel) (t : ℕ) (arrives : stops (k.signals t) ≡ true) where
  pub called-Holds :
      (c : SysCall) (h : Option ℕ) (lo : ℕ) (hs hs' : List ℕ) (p : Process)
      → Holds t lo hs p
      → effect c h hs ≡ some hs'
      → Holds t (suc lo) hs' (called k c h p)
  called-Holds c h lo hs hs' p (le, stop, open_now, over) e = (
    omega arith,
    told,
    rw open_now e,
    λ w f. over w (sym (session-deliver (k.signals p.tick) p) ∙ f),
  )
    where
      told : t < suc p.tick → (deliver (k.signals p.tick) p).should_stop ≡ true
      told after = elim (Bool-cases (t == p.tick)) [
        | inl now ↦
            stops-deliver (k.signals p.tick) p
              (subst (λ n. stops (k.signals n) ≡ true) (same t p.tick now) arrives)
        | inr earlier ↦
            should_stop-deliver (k.signals p.tick) p (stop (before t p.tick after earlier))
      ]

pub take_out_first : (h : ℕ) (hs : List ℕ) → take_out h (h ∷ hs) ≡ some hs
take_out_first h hs = ground arith

-- Closing the second of two handles.
pub take_out_second : (g h : ℕ) (hs : List ℕ) → take_out h (g ∷ h ∷ hs) ≡ some (g ∷ hs)
take_out_second g h hs = ground arith
