-- ===== src/Debug/Life.antt =====
-- src/debug.c: the file of the log is closed once, and no other file is.
pub mod Runs
use haa_s_libssh.Common.{
  ℕ, zero, suc, ◌≡◌, refl, ap, sym, subst, ◌∙◌, Bool, true, false, Option, none, some, List, [],
  ◌∷◌, ◌==◌, leb, ltb, ◌||◌, ◌+◌, ◌^◌, ◌++◌, length, if◌then◌else◌, Bool-cases, inl, inr, is_null,
  arith,
}
use haa_s_libssh.Common.Ends.{Leaves, leave_on}
use haa_s_libssh.Common.Int.{ℤ, pos, pos_part, ltb_ℤ, leb_ℤ}
use haa_s_libssh.Config.{Bytes}
use haa_s_libssh.Debug.Hex.{hex_line, hex_debug_size}
use haa_s_libssh.Debug.{
  LogCall, openlog, closelog, vsyslog, vfprintf, fflush, Libc, Log, LogMessage, start_log,
  qinit_syslog, qinit_file_handle, close_own, qinit_file_name, qdone, qsetlevel, L, when, skip,
  fault, ◌>>=◌, ◌>>◌, hex_header, write_file, output_to, qoutputv, hex_round, hex_loop, hex_body,
  behind_header, qhexoutput, qprintv, qhexprint, qdebugv, qhexdebug,
}

-- The functions that other files call.
pub data LogOp : Type 0 where
  init_syslog init_file_name : Bytes → LogOp
  init_file_handle : ℕ → LogOp
  done : LogOp
  setlevel : ℤ → LogOp
  print : LogMessage → LogOp
  hexprint : Bytes → ℤ → Option (ℕ → ℕ) → LogOp
  debug : ℤ → LogMessage → LogOp
  hexdebug : ℤ → Bytes → ℤ → Option (ℕ → ℕ) → LogOp

abbrev pub forget : Option (Option ℤ × Log) → Option Log
forget none = none
forget (some (back, d)) = some d

unfoldable pub apply : Libc → LogOp → Log → Option Log
apply libc (LogOp.init_syslog name) d = some (qinit_syslog name d)
apply libc (LogOp.init_file_name name) d = some (qinit_file_name libc name d).1
apply libc (LogOp.init_file_handle h) d = some (qinit_file_handle h d)
apply libc LogOp.done d = some (qdone d)
apply libc (LogOp.setlevel level) d = some (qsetlevel level d)
apply libc (LogOp.print m) d = forget (qprintv libc m d)
apply libc (LogOp.hexprint msg size value) d = forget (qhexprint libc msg size value d)
apply libc (LogOp.debug level m) d = forget (qdebugv libc level m d)
apply libc (LogOp.hexdebug level msg size value) d = forget (qhexdebug libc level msg size value d)

-- The file that `qinit_file_name` opened and that is to be closed.
abbrev pub own : Log → Option ℕ
own d = if d.debug_close then d.debug_handle else none

abbrev take_file : Option (Option ℕ) → Option ℕ → Option (Option ℕ)
take_file (some none) file = some file
take_file _ file = none

abbrev give_file : Option (Option ℕ) → ℕ → Option (Option ℕ)
give_file (some (some g)) h = if g == h then some none else none
give_file _ h = none

-- The file that is open after the calls. There is no answer if a file was opened while another one was
-- open, or if one was closed that was not open.
abbrev pub ledger : List LogCall → Option (Option ℕ)
ledger [] = some none
ledger (LogCall.fopen name file ∷ calls) = take_file (ledger calls) file
ledger (LogCall.fclose h ∷ calls) = give_file (ledger calls) h
ledger (_ ∷ calls) = ledger calls

-- `qinit_file_handle` forgets a file that is open.
abbrev pub IsAllowed : LogOp → Log → Type 0
IsAllowed (LogOp.init_file_handle h) d = own d ≡ none
IsAllowed _ d = Unit {0}

pub data Ops (libc : Libc) : Log → Log → Type 0 where
  none_yet : {d : Log} → Ops libc d d
  after :
      {d d1 d2 : Log} (op : LogOp)
      → Ops libc d d1
      → IsAllowed op d1
      → apply libc op d1 ≡ some d2
      → Ops libc d d2

abbrev pub IsKept : Log → Type 0
IsKept d = ledger d.calls ≡ some (own d)

-- The parts of a log.
abbrev parts : Bool → Option ℕ → Bool → ℤ → List LogCall → Log
parts syslog handle close level calls = record {
  debug_syslog = syslog;
  debug_handle = handle;
  debug_close = close;
  debug_level = level;
  calls = calls;
}

give_back : (h : ℕ) (r : Option (Option ℕ)) → r ≡ some (some h) → give_file r h ≡ some none
give_back h r e = rw e (ground arith)

closed_parts :
    (syslog : Bool) (handle : Option ℕ) (close : Bool) (level : ℤ) (calls : List LogCall)
    → IsKept (parts syslog handle close level calls)
    → ledger (close_own (parts syslog handle close level calls)).calls ≡ some none
unfolding close_own
closed_parts syslog none true level calls kept = kept
closed_parts syslog none false level calls kept = kept
closed_parts syslog (some h) true level calls kept = give_back h (ledger calls) kept
closed_parts syslog (some h) false level calls kept = kept

close_own-ledger : (d : Log) → IsKept d → ledger (close_own d).calls ≡ some none
close_own-ledger d kept =
    closed_parts d.debug_syslog d.debug_handle d.debug_close d.debug_level d.calls kept

pub none_either : (b : Bool) → ◌≡◌ {A = Option ℕ} (if b then none else none) none
none_either true = refl
none_either false = refl

-- Opening a file behind that.
opened_IsKept :
    (file : Option ℕ) (name : Bytes) (d : Log)
    → ledger d.calls ≡ some none
    → let opened = record d { debug_handle = file; calls = LogCall.fopen name file ∷ d.calls } in
      IsKept
        (if◌then◌else◌ {A = Bool × Log}
          (is_null file)
          (false, opened)
          (true, record opened { debug_close = true })).1
opened_IsKept none name d e = rw e (ap some (sym (none_either d.debug_close)))
opened_IsKept (some h) name d e = rw e refl

pub qinit_file_name-IsKept :
    (libc : Libc) (name : Bytes) (d : Log) → IsKept d → IsKept (qinit_file_name libc name d).1
unfolding qinit_file_name
qinit_file_name-IsKept libc name d kept =
    opened_IsKept (libc.fopen (close_own d).calls name) name (close_own d) (close_own-ledger d kept)

pub qdone-ledger : (d : Log) → IsKept d → ledger (qdone d).calls ≡ some none
unfolding qdone
qdone-ledger d kept = elim (Bool-cases d.debug_syslog) [
  | inl on ↦ rw on (
      close_own-ledger (record d { debug_syslog = false; calls = LogCall.closelog ∷ d.calls }) kept)
  | inr off ↦ rw off (close_own-ledger (record d { debug_syslog = false }) kept)
]

syslog_parts :
    (syslog : Bool) (handle : Option ℕ) (close : Bool) (level : ℤ) (calls : List LogCall)
    → (close_own (parts syslog handle close level calls)).debug_syslog ≡ syslog
unfolding close_own
syslog_parts syslog none close level calls = refl
syslog_parts syslog (some h) true level calls = refl
syslog_parts syslog (some h) false level calls = refl

pub qdone-quiet : (d : Log) → (qdone d).debug_syslog ≡ false
unfolding qdone
qdone-quiet d = quiet d.debug_syslog refl
  where
    quiet :
        (b : Bool)
        → d.debug_syslog ≡ b
        → ◌≡◌ {A = Bool}
            (close_own (
              if b
              then record d { debug_syslog = false; calls = LogCall.closelog ∷ d.calls }
              else d)).debug_syslog
            false
    quiet true e =
        syslog_parts false d.debug_handle d.debug_close d.debug_level (LogCall.closelog ∷ d.calls)
    quiet false e =
        syslog_parts d.debug_syslog d.debug_handle d.debug_close d.debug_level d.calls ∙ e
