-- ===== src/Master/Count.antt =====
-- src/main.c: no child is lost from the count, and the limit on connections holds.
use haa_s_libssh.Common.{
  ℕ, zero, suc, ◌+◌, ◌-◌, ◌≤◌, ◌<◌, ◌≡◌, refl, ap, sym, subst, ◌==◌, Bool, true, false, not, arith,
  Bool-cases, inl, inr,
}
use haa_s_libssh.Common.Int.{pos, leb_ℤ, add_pos, sub_pos}
use haa_s_libssh.Master.{
  Master, Point, Answer, eintr, connection, child_started, grave, set_grave, bury, sig_handler,
  advance, Step, goes_on, child_ends, signal, Steps, none_yet, after, start_master,
}

-- The child that `fork` has started and the count does not have yet.
abbrev pub uncounted : Point → ℕ
uncounted Point.forked = 1
uncounted _ = 0

-- The dead children that are out of their tomb and still in the count.
abbrev pub carried : Point → ℕ
carried (Point.burned dead) = dead
carried _ = 0

-- What the local variables say.
abbrev Here : ℕ → ℕ → Master → Point → Type 0
Here limit k m (Point.remembered prev) = prev ≡ m.curr_tomb
Here limit k m (Point.switched prev) = m.curr_tomb ≡ not prev
Here limit k m (Point.counted prev dead) = (m.curr_tomb ≡ not prev) × (grave prev m ≡ dead)
Here limit k m Point.below_limit = k < limit
Here limit k m Point.forked = k < limit
Here limit k m _ = Unit {0}

abbrev Total : ℕ → Point → Master → Type 0
Total k p m = k + uncounted p ≡ m.running + m.ended + m.tomb_0 + m.tomb_1 + carried p

abbrev pub Counted : ℕ → Point → Master → Type 0
Counted limit p m = (k : ℕ) × (m.child_count ≡ pos k) × Total k p m × (k ≤ limit) × Here limit k m p

Here-ends :
    (limit k : ℕ) (p : Point) (m : Master)
    → Here limit k m p
    → Here limit k (record m { running = m.running - 1; ended = m.ended + 1 }) p
Here-ends limit k (Point.counted false dead) m h = h
Here-ends limit k (Point.counted true dead) m h = h
Here-ends limit k (Point.remembered prev) m h = h
Here-ends limit k p m h = h

-- Children are buried in the tomb that the master does not read.
Here-buried :
    (limit k : ℕ) (tomb : Bool) (p : Point) (m : Master)
    → tomb ≡ m.curr_tomb
    → Here limit k m p
    → Here limit k (set_grave tomb (grave tomb m + 1) (record m { ended = m.ended - 1 })) p
Here-buried limit k false (Point.counted false dead) m e (h, g) = absurd (ground arith)
Here-buried limit k false (Point.counted true dead) m e h = h
Here-buried limit k true (Point.counted false dead) m e h = h
Here-buried limit k true (Point.counted true dead) m e (h, g) = absurd (ground arith)
Here-buried limit k false (Point.remembered prev) m e h = h
Here-buried limit k true (Point.remembered prev) m e h = h
Here-buried limit k false p m e h = h
Here-buried limit k true p m e h = h

buried :
    (limit : ℕ) (tomb : Bool) (p : Point) (m : Master)
    → tomb ≡ m.curr_tomb
    → 0 < m.ended
    → Counted limit p m
    → Counted limit p (set_grave tomb (grave tomb m + 1) (record m { ended = m.ended - 1 }))
buried limit false p m e some_ended (k, c, total, le, here) =
    (k, c, omega arith, le, Here-buried limit k false p m e here)
buried limit true p m e some_ended (k, c, total, le, here) =
    (k, c, omega arith, le, Here-buried limit k true p m e here)

ended-bury : (m : Master) → (bury m).ended ≡ m.ended - 1
unfolding bury
ended-bury m = ground arith

sig_handler-Counted :
    (limit n : ℕ) (p : Point) (m : Master)
    → n ≤ m.ended
    → Counted limit p m
    → Counted limit p (sig_handler n m)
unfolding sig_handler bury
sig_handler-Counted limit zero p m le v = v
sig_handler-Counted limit (suc n) p m le v =
    sig_handler-Counted limit n p (bury m) (omega (arith, ended-bury m))
      (buried limit m.curr_tomb p m refl (omega arith) v)

burned-Counted :
    (limit : ℕ) (prev : Bool) (dead : ℕ) (m : Master)
    → Counted limit (Point.counted prev dead) m
    → Counted limit (Point.burned dead) (set_grave prev 0 m)
burned-Counted limit false dead m (k, c, total, le, (other, g)) = (k, c, omega arith, le, tt)
burned-Counted limit true dead m (k, c, total, le, (other, g)) = (k, c, omega arith, le, tt)

advance-Counted :
    (limit : ℕ) (answer : Answer) (p : Point) (m : Master)
    → Counted limit p m
    → Counted limit (advance (pos limit) answer p m).0 (advance (pos limit) answer p m).1
unfolding advance
advance-Counted limit eintr Point.at_select m v = v
advance-Counted limit connection Point.at_select m v = v
advance-Counted limit answer Point.at_select m v = v
advance-Counted limit answer Point.interrupted m (k, c, total, le, here) =
    elim (Bool-cases (grave m.curr_tomb m == 0)) [
      | inl none_dead ↦ rw none_dead (k, c, total, le, tt)
      | inr dead ↦ rw dead (k, c, total, le, refl)
    ]
advance-Counted limit answer (Point.remembered prev) m (k, c, total, le, here) =
    (k, c, total, le, ap not (sym here))
advance-Counted limit answer (Point.switched prev) m (k, c, total, le, here) =
    (k, c, total, le, (here, refl))
advance-Counted limit answer (Point.counted prev dead) m v = burned-Counted limit prev dead m v
advance-Counted limit answer (Point.burned dead) m (k, c, total, le, here) =
    (k - dead, rw c (sub_pos k dead (omega arith)), omega arith, omega arith, tt)
advance-Counted limit answer Point.accepted m (k, c, total, le, here) =
    elim (Bool-cases (leb_ℤ (pos limit) m.child_count)) [
      | inl full ↦ rw full (k, c, total, le, tt)
      | inr room ↦ rw room (k, c, total, le, below room)
    ]
  where
    below : leb_ℤ (pos limit) m.child_count ≡ false → k < limit
    below room = ground arith
advance-Counted limit child_started Point.below_limit m (k, c, total, le, here) =
    (k, c, omega arith, le, here)
advance-Counted limit answer Point.below_limit m (k, c, total, le, here) = (k, c, total, le, tt)
advance-Counted limit answer Point.forked m (k, c, total, le, here) =
    (k + 1, rw c (add_pos k 1), omega arith, omega arith, tt)

Step-Counted :
    (limit : ℕ) {p p' : Point} {m m' : Master}
    → Counted limit p m
    → Step (pos limit) p m p' m'
    → Counted limit p' m'
Step-Counted limit v (goes_on {p = p} {m = m} answer e) =
    subst (λ (r : Point × Master). Counted limit r.0 r.1) e (advance-Counted limit answer p m v)
Step-Counted limit (k, c, total, le, here) (child_ends {p = p} {m = m} alive) =
    (k, c, omega arith, le, Here-ends limit k p m here)
Step-Counted limit v (signal {p = p} {m = m} n le) = sig_handler-Counted limit n p m le v

Steps-Counted :
    (limit : ℕ) {p p' : Point} {m m' : Master}
    → Counted limit p m
    → Steps (pos limit) p m p' m'
    → Counted limit p' m'
Steps-Counted limit v none_yet = v
Steps-Counted limit v (after rest step) = Step-Counted limit (Steps-Counted limit v rest) step

within_limit :
    (limit k : ℕ) (p : Point) (m : Master) → k ≤ limit → Here limit k m p → k + uncounted p ≤ limit
within_limit limit k Point.forked m le here = omega arith
within_limit limit k p m le here = omega arith

-- Whenever children end and whenever the signal handler runs between two statements of the loop, no
-- child is lost or counted twice: `ChildCount`, with the child that was just started, is the number
-- of children that run, that wait for `waitpid`, that lie in one of the two tombs, or that the master
-- carries out of one. With a limit that is not negative, no more children than that run at once.
pub Steps-limit :
    (limit : ℕ) (p : Point) (m : Master)
    → Steps (pos limit) Point.at_select start_master p m
    → (m.running + m.ended ≤ limit)
      × (k : ℕ) × (m.child_count ≡ pos k)
      × (k + uncounted p ≡ m.running + m.ended + m.tomb_0 + m.tomb_1 + carried p)
Steps-limit limit p m steps =
    let (k, c, total, le, here) =
      Steps-Counted limit (0, refl, omega arith, omega arith, tt) steps in
    let most = within_limit limit k p m le here in (omega arith, k, c, total)
