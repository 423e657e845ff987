-- ===== src/Master.antt =====
-- src/main.c: how the master process counts its children, with the signal handler that may run
-- between any two statements of the loop in `main`. The files below it run `main` itself.
pub mod Count
pub mod System
pub mod Server
pub mod Program
use haa_s_libssh.Common.{
  ℕ, zero, suc, ◌+◌, ◌-◌, ◌≤◌, ◌<◌, ◌≡◌, ◌==◌, Bool, true, false, not, if◌then◌else◌,
}
use haa_s_libssh.Common.Int.{ℤ, pos, ◌+ℤ◌, ◌-ℤ◌, leb_ℤ}

-- The variables of the count, and the children that run and that ended but were not waited for.
-- `CurrTomb` is `false` for 0 and `true` for 1.
pub record Master : Type 0 where
  pub curr_tomb : Bool
  pub tomb_0 : ℕ
  pub tomb_1 : ℕ
  pub child_count : ℤ
  pub running : ℕ
  pub ended : ℕ

-- Where the master is in its loop, with the local variables that live there.
pub data Point : Type 0 where
  at_select interrupted accepted below_limit forked : Point
  remembered switched : Bool → Point
  counted : Bool → ℕ → Point
  burned : ℕ → Point

-- What the system answers: to `select`, with `accept` after it, and to `fork`.
pub data Answer : Type 0 where
  nothing eintr connection fork_failed child_started : Answer

abbrev pub grave : Bool → Master → ℕ
grave false m = m.tomb_0
grave true m = m.tomb_1

abbrev pub set_grave : Bool → ℕ → Master → Master
set_grave false n m = record m { tomb_0 = n }
set_grave true n m = record m { tomb_1 = n }

-- One round of the loop in `SigHandler`: `waitpid` gave a child, which is buried.
unfoldable pub bury : Master → Master
bury m =
    let waited = record m { ended = m.ended - 1 } in
    set_grave m.curr_tomb (grave m.curr_tomb m + 1) waited

-- `SigHandler` on SIGCHLD, where `waitpid` gives `n` children and then no more.
unfoldable pub sig_handler : ℕ → Master → Master
unfolding bury
sig_handler zero m = m
sig_handler (suc n) m = sig_handler n (bury m)

-- The next statement of the master. Where a connection is closed at once or `fork` fails, the loop
-- goes round.
unfoldable pub advance : ℤ → Answer → Point → Master → Point × Master
advance limit eintr Point.at_select m = (Point.interrupted, m)
advance limit connection Point.at_select m = (Point.accepted, m)
advance limit _ Point.at_select m = (Point.at_select, m)
advance limit answer Point.interrupted m =
    if grave m.curr_tomb m == 0 then (Point.at_select, m) else (Point.remembered m.curr_tomb, m)
advance limit answer (Point.remembered prev) m =
    (Point.switched prev, record m { curr_tomb = not m.curr_tomb })
advance limit answer (Point.switched prev) m = (Point.counted prev (grave prev m), m)
advance limit answer (Point.counted prev dead) m = (Point.burned dead, set_grave prev 0 m)
advance limit answer (Point.burned dead) m =
    (Point.at_select, record m { child_count = m.child_count -ℤ pos dead })
advance limit answer Point.accepted m =
    if leb_ℤ limit m.child_count then (Point.at_select, m) else (Point.below_limit, m)
advance limit child_started Point.below_limit m =
    (Point.forked, record m { running = m.running + 1 })
advance limit _ Point.below_limit m = (Point.at_select, m)
advance limit answer Point.forked m =
    (Point.at_select, record m { child_count = m.child_count +ℤ pos 1 })

-- The interleavings: the master goes on, a child ends, or the handler runs.
pub data Step (limit : ℤ) : Point → Master → Point → Master → Type 0 where
  goes_on :
      {p p' : Point} {m m' : Master} (answer : Answer)
      → advance limit answer p m ≡ (p', m')
      → Step limit p m p' m'
  child_ends :
      {p : Point} {m : Master}
      → 0 < m.running
      → Step limit p m p (record m { running = m.running - 1; ended = m.ended + 1 })
  signal : {p : Point} {m : Master} (n : ℕ) → n ≤ m.ended → Step limit p m p (sig_handler n m)

pub data Steps (limit : ℤ) : Point → Master → Point → Master → Type 0 where
  none_yet : {p : Point} {m : Master} → Steps limit p m p m
  after :
      {p p1 p2 : Point} {m m1 m2 : Master}
      → Steps limit p m p1 m1
      → Step limit p1 m1 p2 m2
      → Steps limit p m p2 m2

-- The start of the loop.
abbrev pub start_master : Master
start_master = record {
  curr_tomb = false;
  tomb_0 = 0;
  tomb_1 = 0;
  child_count = pos 0;
  running = 0;
  ended = 0;
}
