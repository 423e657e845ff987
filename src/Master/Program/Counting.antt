-- ===== src/Master/Program/Counting.antt =====
-- src/main.c: the pieces of a round of the loop as steps of the relation in which the signal handler may
-- run between any two statements.
pub mod Pieces
pub mod Served
use haa_s_libssh.Common.{
  ℕ, ◌+◌, ◌≡◌, refl, zero, suc, ◌-◌, ◌<◌, Bool, false, ◌==◌, arith, Bool-cases, inl, inr,
}
use haa_s_libssh.Common.Int.{ℤ, leb_ℤ}
use haa_s_libssh.Master.{
  Master, Point, connection, child_started, advance, bury, sig_handler, Step, goes_on, child_ends,
  signal, Steps, none_yet, after,
}
use haa_s_libssh.Master.System.{reap}
use haa_s_libssh.Master.Program

abbrev parts : Bool → ℕ → ℕ → ℤ → ℕ → ℕ → Master
parts tomb tomb_0 tomb_1 child_count running ended = record {
  curr_tomb = tomb;
  tomb_0 = tomb_0;
  tomb_1 = tomb_1;
  child_count = child_count;
  running = running;
  ended = ended;
}

one_more_child-Steps :
    (limit : ℤ) (m : Master)
    → Steps limit Point.below_limit m Point.at_select (Program.one_more_child m)
unfolding Program.one_more_child advance
one_more_child-Steps limit m =
    let forked = record m { running = m.running + 1 } in
    let first = after none_yet (goes_on {p' = Point.forked} {m' = forked} child_started refl) in
    after first (goes_on connection refl)

pub Steps-append :
    {limit : ℤ} {a b c : Point} {m n o : Master}
    → Steps limit a m b n
    → Steps limit b n c o
    → Steps limit a m c o
Steps-append first none_yet = first
Steps-append first (after run step) = after (Steps-append first run) step

-- A child ends, and the handler buries it.
reap-Steps : (limit : ℤ) (point : Point) (n : ℕ) (m : Master) → Steps limit point m point (reap n m)
unfolding reap sig_handler
reap-Steps limit point zero m = none_yet
reap-Steps limit point (suc n) m = elim (Bool-cases (m.running == 0)) [
  | inl none_left ↦ rw none_left none_yet
  | inr one ↦ rw one (
      Steps-append (after (after none_yet (child_ends (some_running m.running one))) (buried m))
        (reap-Steps limit point n (bury (ended_one m))))
]
  where
    some_running : (r : ℕ) → (r == 0) ≡ false → 0 < r
    some_running r e = ground arith

    ended_one : Master → Master
    ended_one m = record m { running = m.running - 1; ended = m.ended + 1 }

    buried : (m : Master) → Step limit point (ended_one m) point (bury (ended_one m))
    buried m = signal 1 (omega arith)
