-- ===== src/Debug.antt =====
-- src/debug.c: where the log goes, its level, and the hex dump.
--
-- The C library is a parameter: what `fopen` and `vfprintf` answer, which may depend on all calls so
-- far, and what `%p` writes. A call is recorded, newest first.
pub mod Hex
pub mod Life
pub mod Dump
use haa_s_libssh.Common.{
  ℕ, zero, suc, ◌+◌, ◌^◌, Bool, true, false, ◌&&◌, ◌||◌, Option, none, some, List, [], ◌∷◌, ◌++◌,
  length, is_null, leb, ltb, if◌then◌else◌,
}
pub use haa_s_libssh.Common.State.{◌>>=◌, ◌>>◌, pure, skip, fault, when}
use haa_s_libssh.Common.Int.{ℤ, pos, negsuc, ltb_ℤ, leb_ℤ, pos_part}
use haa_s_libssh.Common.Format.{decimal}
use haa_s_libssh.Config.{Bytes, codes}
use haa_s_libssh.Debug.Hex.{hex_debug_size, hex_line}

pub data LogCall : Type 0 where
  openlog : Bytes → LogCall
  closelog : LogCall
  fopen : Bytes → Option ℕ → LogCall
  fclose : ℕ → LogCall
  vsyslog : Bytes → LogCall
  vfprintf : ℕ → Bytes → LogCall
  fflush : ℕ → LogCall

pub record Libc : Type 0 where
  pub fopen : List LogCall → Bytes → Option ℕ
  pub vfprintf : List LogCall → ℕ → Bytes → ℤ
  pub pointer : Option (ℕ → ℕ) → Bytes

-- The static variables of the file, and the calls that were made.
pub record Log : Type 0 where
  pub debug_syslog : Bool
  pub debug_handle : Option ℕ
  pub debug_close : Bool
  pub debug_level : ℤ
  pub calls : List LogCall

-- A format with its arguments: the text that they make, and whether there are arguments at all.
pub record LogMessage : Type 0 where
  pub text : Bytes
  pub has_arguments : Bool

-- `none` is a fault: undefined behaviour.
abbrev pub L : Type 0 → Type 0
L A = Log → Option (A × Log)

abbrev pub log : L Log
log d = some (d, d)

abbrev pub call : LogCall → L (Unit {0})
call c d = some (tt, record d { calls = c ∷ d.calls })

-- The initial values of the static variables.
abbrev pub start_log : Log
start_log = record {
  debug_syslog = false;
  debug_handle = none;
  debug_close = false;
  debug_level = pos 0;
  calls = [];
}

unfoldable pub qinit_syslog : Bytes → Log → Log
qinit_syslog name d = record d { debug_syslog = true; calls = openlog name ∷ d.calls }

unfoldable pub qinit_file_handle : ℕ → Log → Log
qinit_file_handle handle d = record d { debug_close = false; debug_handle = some handle }

-- `if (DebugHandle!=NULL) { if (DebugClose) { fclose(DebugHandle); DebugClose=0; } }`
unfoldable pub close_own : Log → Log
close_own d = elim d.debug_handle [
  | none ↦ d
  | some h ↦
      if d.debug_close then record d { debug_close = false; calls = fclose h ∷ d.calls } else d
]

unfoldable pub qinit_file_name : Libc → Bytes → Log → Bool × Log
unfolding close_own
qinit_file_name libc name d =
    let closed = close_own d in
    let file = libc.fopen closed.calls name in
    let opened = record closed { debug_handle = file; calls = fopen name file ∷ closed.calls } in
    if is_null file then (false, opened) else (true, record opened { debug_close = true })

unfoldable pub qdone : Log → Log
unfolding close_own
qdone d =
    let quiet =
      if d.debug_syslog then record d { debug_syslog = false; calls = closelog ∷ d.calls } else d in
    record (close_own quiet) { debug_handle = none }

unfoldable pub qsetlevel : ℤ → Log → Log
qsetlevel level d = record d { debug_level = level }

-- `Back` starts without a value, and keeps none where there is no file. `vsyslog` leaves the argument
-- list without a value for `vfprintf`.
abbrev pub write_file : Libc → LogMessage → ℕ → Bool → L (Option ℤ)
write_file libc m h used = if used && m.has_arguments then fault else do
  d ← log
  let back = libc.vfprintf d.calls h m.text
  call (vfprintf h m.text)
  when (ltb_ℤ (pos 0) back) (call (fflush h))
  pure (some back)

abbrev pub output_to : Libc → LogMessage → Bool → Option ℕ → L (Option ℤ)
output_to libc m used handle = do
  when used (call (vsyslog m.text))
  elim handle as (λ _. L (Option ℤ)) [ none ↦ pure none | some h ↦ write_file libc m h used ]

unfoldable pub qoutputv : Libc → LogMessage → L (Option ℤ)
qoutputv libc m d = output_to libc m d.debug_syslog d.debug_handle d

-- `%d`.
unfoldable pub signed_decimal : ℤ → Bytes
signed_decimal (pos n) = decimal n
signed_decimal (negsuc n) = b'-' ∷ decimal (suc n)

unfoldable pub hex_header : Libc → Bytes → ℤ → Option (ℕ → ℕ) → LogMessage
hex_header libc msg size value = record {
  text =
      codes "HexDebug '"
      ++ msg
      ++ codes "': Size="
      ++ signed_decimal size
      ++ codes ", Data="
      ++ libc.pointer value
      ++ 10 ∷ [];
  has_arguments = true;
}

-- A round of the loop: a write behind `Buffer` is a fault, and so is `i` past the largest int.
unfoldable pub hex_round : Libc → (ℕ → ℕ) → ℕ → ℕ → L (Unit {0})
hex_round libc value size i =
    let line = hex_line value size i in
    if leb 256 (length line) || leb (2 ^ 31) (i + hex_debug_size)
    then fault
    else do back ← qoutputv libc (record { text = line ++ 10 ∷ []; has_arguments = true }); skip

unfoldable pub hex_loop : Libc → (ℕ → ℕ) → ℕ → ℕ → ℕ → L (Unit {0})
hex_loop libc value size i zero = fault
hex_loop libc value size i (suc fuel) =
    when (ltb i size)
      (hex_round libc value size i >> hex_loop libc value size (i + hex_debug_size) fuel)

-- The lines of a hex dump, in a loop that runs at most `Size` times.
unfoldable pub hex_body : Libc → ℤ → Option (ℕ → ℕ) → L (Unit {0})
hex_body libc size none = skip
hex_body libc size (some value) =
    when (ltb_ℤ (pos 0) size) (hex_loop libc value (pos_part size) 0 (suc (pos_part size)))

-- Behind the header: testing `Back` where it has no value is a fault.
abbrev pub behind_header : Libc → ℤ → Option (ℕ → ℕ) → Option ℤ → L (Option ℤ)
behind_header libc size value none = fault
behind_header libc size value (some back) = do
  when (ltb_ℤ (pos 0) back) (hex_body libc size value)
  pure (some back)

unfoldable pub qhexoutput : Libc → Bytes → ℤ → Option (ℕ → ℕ) → L (Option ℤ)
qhexoutput libc msg size value =
    qoutputv libc (hex_header libc msg size value) >>= behind_header libc size value

-- `qprintv`, which `qprintf` calls too, and `qhexprint`.
unfoldable pub qprintv : Libc → LogMessage → L (Option ℤ)
qprintv libc m = qoutputv libc m

unfoldable pub qhexprint : Libc → Bytes → ℤ → Option (ℕ → ℕ) → L (Option ℤ)
qhexprint libc msg size value = qhexoutput libc msg size value

-- `qdebugv`, `qdebugf` and `qhexdebug`.
unfoldable pub qdebugv : Libc → ℤ → LogMessage → L (Option ℤ)
qdebugv libc level m = do
  d ← log
  if leb_ℤ level d.debug_level then qoutputv libc m else pure (some (pos 0))

unfoldable pub qhexdebug : Libc → ℤ → Bytes → ℤ → Option (ℕ → ℕ) → L (Option ℤ)
qhexdebug libc level msg size value = do
  d ← log
  if leb_ℤ level d.debug_level then qhexoutput libc msg size value else pure (some (pos 0))
