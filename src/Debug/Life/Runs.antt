-- ===== src/Debug/Life/Runs.antt =====
-- src/debug.c: any sequence of calls keeps the account of the file.
use haa_s_libssh.Common.{
  ℕ, zero, suc, ◌≡◌, refl, ap, sym, subst, ◌∙◌, Bool, true, false, Option, none, some, [], ◌∷◌, leb,
  ltb, ◌||◌, ◌+◌, ◌^◌, ◌++◌, length, if◌then◌else◌, arith,
}
use haa_s_libssh.Common.Ends.{Leaves, leave_on}
use haa_s_libssh.Common.Int.{ℤ, pos, pos_part, ltb_ℤ, leb_ℤ}
use haa_s_libssh.Config.{Bytes}
use haa_s_libssh.Debug.Hex.{hex_line, hex_debug_size}
use haa_s_libssh.Debug.{
  Libc, Log, LogMessage, start_log, qinit_syslog, qinit_file_handle, qdone, qsetlevel, L, when,
  skip, pure, fault, ◌>>=◌, ◌>>◌, hex_header, output_to, qoutputv, hex_round, hex_loop, hex_body,
  behind_header, qhexoutput, qprintv, qhexprint, qdebugv, qhexdebug,
}
use haa_s_libssh.Debug.Life.{
  LogOp, forget, apply, own, ledger, IsAllowed, Ops, none_yet, after, IsKept, none_either,
  qinit_file_name-IsKept, qdone-ledger, qdone-quiet,
}

leave_if :
    {A : Type 0} (b : Bool) (m n : L A) (d : Log)
    → Leaves (m d) IsKept
    → Leaves (n d) IsKept
    → Leaves ((if b then m else n) d) IsKept
leave_if true m n d h k = h
leave_if false m n d h k = k

leave_when :
    (b : Bool) (m : L (Unit {0})) (d : Log)
    → Leaves (m d) IsKept
    → IsKept d
    → Leaves (when b m d) IsKept
leave_when true m d h k = h
leave_when false m d h k = k

output_to-IsKept :
    (libc : Libc) (m : LogMessage) (used : Bool) (handle : Option ℕ) (d : Log)
    → IsKept d
    → Leaves (output_to libc m used handle d) IsKept
output_to-IsKept libc m used handle d kept = ground arith

qoutputv-IsKept :
    (libc : Libc) (m : LogMessage) (d : Log) → IsKept d → Leaves (qoutputv libc m d) IsKept
unfolding qoutputv
qoutputv-IsKept libc m d kept = output_to-IsKept libc m d.debug_syslog d.debug_handle d kept

hex_round-IsKept :
    (libc : Libc) (value : ℕ → ℕ) (size i : ℕ) (d : Log)
    → IsKept d
    → Leaves (hex_round libc value size i d) IsKept
unfolding hex_round
hex_round-IsKept libc value size i d kept =
    let m : LogMessage = record { text = hex_line value size i ++ 10 ∷ []; has_arguments = true } in
    leave_if (leb 256 (length (hex_line value size i)) || leb (2 ^ 31) (i + hex_debug_size)) fault
      (qoutputv libc m >>= λ back. skip) d tt
      (leave_on (λ _ d'. some (tt, d')) IsKept IsKept (qoutputv libc m d)
        (qoutputv-IsKept libc m d kept) (λ _ d' kept'. kept'))

hex_loop-IsKept :
    (libc : Libc) (value : ℕ → ℕ) (size i fuel : ℕ) (d : Log)
    → IsKept d
    → Leaves (hex_loop libc value size i fuel d) IsKept
unfolding hex_loop
hex_loop-IsKept libc value size i zero d kept = tt
hex_loop-IsKept libc value size i (suc fuel) d kept =
    leave_when (ltb i size) (hex_round libc value size i >> hex_loop libc value size (i + 16) fuel)
      d
      (leave_on (λ _. hex_loop libc value size (i + 16) fuel) IsKept IsKept
        (hex_round libc value size i d) (hex_round-IsKept libc value size i d kept)
        (λ _ d' kept'. hex_loop-IsKept libc value size (i + 16) fuel d' kept'))
      kept

hex_body-IsKept :
    (libc : Libc) (size : ℤ) (value : Option (ℕ → ℕ)) (d : Log)
    → IsKept d
    → Leaves (hex_body libc size value d) IsKept
unfolding hex_body
hex_body-IsKept libc size none d kept = kept
hex_body-IsKept libc size (some value) d kept =
    leave_when (ltb_ℤ (pos 0) size) (hex_loop libc value (pos_part size) 0 (suc (pos_part size))) d
      (hex_loop-IsKept libc value (pos_part size) 0 (suc (pos_part size)) d kept) kept

behind_header-IsKept :
    (libc : Libc) (size : ℤ) (value : Option (ℕ → ℕ)) (back : Option ℤ) (d : Log)
    → IsKept d
    → Leaves (behind_header libc size value back d) IsKept
behind_header-IsKept libc size value none d kept = tt
behind_header-IsKept libc size value (some back) d kept =
    leave_on (λ _ d'. some (some back, d')) IsKept IsKept
      (when (ltb_ℤ (pos 0) back) (hex_body libc size value) d)
      (leave_when (ltb_ℤ (pos 0) back) (hex_body libc size value) d
        (hex_body-IsKept libc size value d kept) kept)
      (λ _ d' kept'. kept')

qhexoutput-IsKept :
    (libc : Libc) (msg : Bytes) (size : ℤ) (value : Option (ℕ → ℕ)) (d : Log)
    → IsKept d
    → Leaves (qhexoutput libc msg size value d) IsKept
unfolding qhexoutput
qhexoutput-IsKept libc msg size value d kept =
    leave_on (behind_header libc size value) IsKept IsKept
      (qoutputv libc (hex_header libc msg size value) d)
      (qoutputv-IsKept libc (hex_header libc msg size value) d kept)
      (λ back d' kept'. behind_header-IsKept libc size value back d' kept')

log_inj : {a b : Log} → some a ≡ some b → a ≡ b
log_inj e = cc

qdone-IsKept : (d : Log) → IsKept d → IsKept (qdone d)
unfolding qdone
qdone-IsKept d kept = qdone-ledger d kept ∙ ap some (sym (none_either _))

IsKept-forget :
    (r : Option (Option ℤ × Log)) (d' : Log) → Leaves r IsKept → forget r ≡ some d' → IsKept d'
IsKept-forget none d' h e = cc
IsKept-forget (some (back, d)) d' h e = subst IsKept (log_inj e) h

qdebugv-IsKept :
    (libc : Libc) (level : ℤ) (m : LogMessage) (d : Log)
    → IsKept d
    → Leaves (qdebugv libc level m d) IsKept
unfolding qdebugv
qdebugv-IsKept libc level m d kept =
    leave_if (leb_ℤ level d.debug_level) (qoutputv libc m) (pure (some (pos 0))) d
      (qoutputv-IsKept libc m d kept) kept

qhexdebug-IsKept :
    (libc : Libc) (level : ℤ) (msg : Bytes) (size : ℤ) (value : Option (ℕ → ℕ)) (d : Log)
    → IsKept d
    → Leaves (qhexdebug libc level msg size value d) IsKept
unfolding qhexdebug
qhexdebug-IsKept libc level msg size value d kept =
    leave_if (leb_ℤ level d.debug_level) (qhexoutput libc msg size value) (pure (some (pos 0))) d
      (qhexoutput-IsKept libc msg size value d kept) kept

apply-IsKept :
    (libc : Libc) (op : LogOp) (d d' : Log)
    → IsAllowed op d
    → IsKept d
    → apply libc op d ≡ some d'
    → IsKept d'
unfolding apply qinit_syslog qinit_file_handle qdone qsetlevel qprintv qhexprint
apply-IsKept libc (LogOp.init_syslog name) d d' ok kept e = subst IsKept (log_inj e) kept
apply-IsKept libc (LogOp.init_file_name name) d d' ok kept e =
    subst IsKept (log_inj e) (qinit_file_name-IsKept libc name d kept)
apply-IsKept libc (LogOp.init_file_handle h) d d' ok kept e =
    subst IsKept (log_inj e) (kept ∙ ap some ok)
apply-IsKept libc LogOp.done d d' ok kept e = subst IsKept (log_inj e) (qdone-IsKept d kept)
apply-IsKept libc (LogOp.setlevel level) d d' ok kept e = subst IsKept (log_inj e) kept
apply-IsKept libc (LogOp.print m) d d' ok kept e =
    IsKept-forget (qoutputv libc m d) d' (qoutputv-IsKept libc m d kept) e
apply-IsKept libc (LogOp.hexprint msg size value) d d' ok kept e =
    IsKept-forget (qhexoutput libc msg size value d) d'
      (qhexoutput-IsKept libc msg size value d kept) e
apply-IsKept libc (LogOp.debug level m) d d' ok kept e =
    IsKept-forget (qdebugv libc level m d) d' (qdebugv-IsKept libc level m d kept) e
apply-IsKept libc (LogOp.hexdebug level msg size value) d d' ok kept e =
    IsKept-forget (qhexdebug libc level msg size value d) d'
      (qhexdebug-IsKept libc level msg size value d kept) e

Ops-IsKept : (libc : Libc) {d d' : Log} → Ops libc d d' → IsKept d → IsKept d'
Ops-IsKept libc none_yet kept = kept
Ops-IsKept libc (after {d1 = d1} {d2 = d2} op ops ok e) kept =
    apply-IsKept libc op d1 d2 ok (Ops-IsKept libc ops kept) e

-- After any sequence of the functions of `debug.c`, where `qinit_file_handle` is called only while no
-- file is open that `qinit_file_name` opened: no file was opened while another one of these was open,
-- none was closed that was not open, and the file that is still open is the one that `DebugHandle`
-- points to with `DebugClose` set. After `qdone` there is none, and `DebugHandle` and `DebugSyslog` are reset.
pub Ops-qdone :
    (libc : Libc) (d : Log)
    → Ops libc start_log d
    → (ledger d.calls ≡ some (own d))
      × (ledger (qdone d).calls ≡ some none)
      × ((qdone d).debug_handle ≡ none)
      × ((qdone d).debug_syslog ≡ false)
unfolding qdone
Ops-qdone libc d ops =
    let kept = Ops-IsKept libc ops refl in (kept, qdone-ledger d kept, refl, qdone-quiet d)
