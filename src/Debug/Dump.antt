-- ===== src/Debug/Dump.antt =====
-- src/debug.c: a hex dump in the file of the log.
use haa_s_libssh.Common.{
  ℕ, zero, suc, ◌+◌, ◌*◌, ◌-◌, ◌^◌, ◌≤◌, ◌<◌, ◌≡◌, ◌⊎◌, refl, ap, sym, subst, ◌∙◌, Bool, true,
  false, ◌||◌, Option, none, some, List, [], ◌∷◌, ◌++◌, tabulate, length, leb, ltb, Bool-cases, inl,
  inr, arith,
}
use mathlib.Core.List.{append_assoc, append-nil}
use haa_s_libssh.Common.Ends.{Ends, Ends-some, go_on}
use haa_s_libssh.Common.Int.{ℤ, pos, ltb_ℤ}
use haa_s_libssh.Config.{Bytes}
use haa_s_libssh.Debug.Hex.{hex_line, hex_debug_size}
use haa_s_libssh.Debug.Hex.Printable.{length-hex_line}
use haa_s_libssh.Debug.Hex.RoundTrip.{
  read_line, read_line-hex_line, bytes_from, bytes_from_past, bytes_from-append,
  bytes_from-tabulate,
}
use haa_s_libssh.Debug.{
  LogCall, vfprintf, Libc, Log, LogMessage, output_to, qoutputv, write_file, hex_header, hex_round,
  hex_loop, hex_body, behind_header, qhexoutput, ◌>>=◌,
}

-- The bytes that the dumps in the file show, from the oldest call on.
abbrev pub read_calls : List LogCall → Bytes
read_calls [] = []
read_calls (vfprintf h s ∷ calls) = read_calls calls ++ read_line s
read_calls (_ ∷ calls) = read_calls calls

-- The log goes into a file, and not to syslog.
abbrev pub IsFile : ℕ → Log → Type 0
IsFile h d = (d.debug_syslog ≡ false) × (d.debug_handle ≡ some h)

-- A file, with these bytes dumped into it.
abbrev pub Shows : ℕ → Bytes → Log → Type 0
Shows h s d = IsFile h d × (read_calls d.calls ≡ s)

write_file-Shows :
    (libc : Libc) (m : LogMessage) (h : ℕ) (s : Bytes) (d : Log)
    → Shows h s d
    → Ends (write_file libc m h false d) (λ back d'.
      (back ≡ some (libc.vfprintf d.calls h m.text)) × Shows h (s ++ read_line m.text) d')
write_file-Shows libc m h s d ((quiet, file), shown) =
    elim (Bool-cases (ltb_ℤ (pos 0) (libc.vfprintf d.calls h m.text))) [
      | inl flushed ↦ rw flushed (refl, ((quiet, file), ap (λ r. r ++ read_line m.text) shown))
      | inr failed ↦ rw failed (refl, ((quiet, file), ap (λ r. r ++ read_line m.text) shown))
    ]

-- One call of `qoutputv`.
pub qoutputv-Shows :
    (libc : Libc) (m : LogMessage) (h : ℕ) (s : Bytes) (d : Log)
    → Shows h s d
    → Ends (qoutputv libc m d) (λ back d'.
      (back ≡ some (libc.vfprintf d.calls h m.text)) × Shows h (s ++ read_line m.text) d')
unfolding qoutputv
qoutputv-Shows libc m h s d ((quiet, file), shown) =
    let Done : Option ℤ → Log → Type 0 = λ back d'.
      (back ≡ some (libc.vfprintf d.calls h m.text)) × Shows h (s ++ read_line m.text) d' in
    subst (λ u. Ends (output_to libc m u d.debug_handle d) Done) (sym quiet)
      (subst (λ o. Ends (output_to libc m false o d) Done) (sym file)
        (write_file-Shows libc m h s d ((quiet, file), shown)))

no_fault :
    (n i : ℕ) → n ≤ 82 → i + 16 < 2 ^ 31 → (leb 256 n || leb (2 ^ 31) (i + hex_debug_size)) ≡ false
no_fault n i short small = ground arith

hex_round-Shows :
    (libc : Libc) (value : ℕ → ℕ) (size i h : ℕ) (s : Bytes) (d : Log)
    → ((j : ℕ) → value j < 256)
    → i + 16 < 2 ^ 31
    → Shows h s d
    → Ends
        (hex_round libc value size i d)
        (λ _ d'. Shows h (s ++ bytes_from value size i hex_debug_size) d')
unfolding hex_round
hex_round-Shows libc value size i h s d byte small v =
    let m : LogMessage = record { text = hex_line value size i ++ 10 ∷ []; has_arguments = true } in
    rw (no_fault (length (hex_line value size i)) i (length-hex_line value size i byte) small) (
      go_on (λ _ d'. some (tt, d'))
        (λ back d'.
          (back ≡ some (libc.vfprintf d.calls h m.text)) × Shows h (s ++ read_line m.text) d')
        (λ _ d'. Shows h (s ++ bytes_from value size i hex_debug_size) d') (qoutputv libc m d)
        (qoutputv-Shows libc m h s d v)
        (λ _ d' v'.
          subst (λ r. Shows h (s ++ r) d') (read_line-hex_line value size i (10 ∷ []) byte) v'.1))

-- The loop, with fuel for one round more than the bytes that are left.
hex_loop-Shows :
    (libc : Libc) (value : ℕ → ℕ) (size i h fuel : ℕ) (s : Bytes) (d : Log)
    → ((j : ℕ) → value j < 256)
    → size + 16 ≤ 2 ^ 31
    → i < size + 16
    → size + 16 ≤ i + 16 * fuel
    → Shows h s d
    → Ends
        (hex_loop libc value size i fuel d)
        (λ _ d'. Shows h (s ++ bytes_from value size i (16 * fuel)) d')
unfolding hex_loop
hex_loop-Shows libc value size i h zero s d byte small near enough v = absurd (omega arith)
hex_loop-Shows libc value size i h (suc fuel) s d byte small near enough v =
    elim (Bool-cases (ltb i size)) [
      | inl inside ↦ rw inside (
          go_on (λ _. hex_loop libc value size (i + hex_debug_size) fuel)
            (λ _ d'. Shows h (s ++ bytes_from value size i hex_debug_size) d')
            (λ _ d'. Shows h (s ++ bytes_from value size i (16 * suc fuel)) d')
            (hex_round libc value size i d)
            (hex_round-Shows libc value size i h s d byte (ground arith) v)
            (λ _ d' v'.
              subst
                (λ r.
                  Ends (hex_loop libc value size (i + hex_debug_size) fuel d')
                    (λ _ d''. Shows h r d''))
                (joined fuel)
                (hex_loop-Shows libc value size (i + 16) h fuel (s ++ bytes_from value size i 16) d'
                  byte small (ground arith) (omega arith) v')))
      | inr outside ↦
          rw (outside, bytes_from_past value size i (16 * suc fuel) (ground arith), append-nil s) v
    ]
  where
    joined :
        (n : ℕ)
        → s ++ bytes_from value size i 16 ++ bytes_from value size (i + 16) (16 * n)
          ≡ s ++ bytes_from value size i (16 * suc n)
    joined n =
        append_assoc s (bytes_from value size i 16) (bytes_from value size (i + 16) (16 * n))
        ∙ ap (λ r. s ++ r) (bytes_from-append value size i 16 (16 * n))
        ∙ ap (λ k. s ++ bytes_from value size i k) (omega arith)

-- As many columns as there are bytes, and the columns behind them.
bytes_from_rounds :
    (value : ℕ → ℕ) (size n : ℕ) → size ≤ n → bytes_from value size 0 n ≡ tabulate size value
bytes_from_rounds value size n le =
    ap (bytes_from value size 0) (omega arith)
    ∙ sym (bytes_from-append value size 0 size (n - size))
    ∙ ap (λ r. bytes_from value size 0 size ++ r)
        (bytes_from_past value size (0 + size) (n - size) (omega arith))
    ∙ append-nil (bytes_from value size 0 size)
    ∙ bytes_from-tabulate size value value size 0 (omega arith) (λ j. ap value (omega arith))

hex_body-Shows :
    (libc : Libc) (value : ℕ → ℕ) (size h : ℕ) (s : Bytes) (d : Log)
    → ((j : ℕ) → value j < 256)
    → size + 16 ≤ 2 ^ 31
    → Shows h s d
    → Ends (hex_body libc (pos size) (some value) d) (λ _ d'. Shows h (s ++ tabulate size value) d')
unfolding hex_body
hex_body-Shows libc value size h s d byte small v = elim (Bool-cases (ltb_ℤ (pos 0) (pos size))) [
  | inl some_bytes ↦ rw some_bytes (
      subst (λ r. Ends (hex_loop libc value size 0 (suc size) d) (λ _ d'. Shows h (s ++ r) d'))
        (bytes_from_rounds value size (16 * suc size) (omega arith))
        (hex_loop-Shows libc value size 0 h (suc size) s d byte small (omega arith) (omega arith)
          v))
  | inr no_byte ↦ rw (no_byte, ap (λ n. tabulate n value) (none_left no_byte), append-nil s) v
]
  where
    none_left : ltb_ℤ (pos 0) (pos size) ≡ false → size ≡ 0
    none_left e = ground arith

read_line-hex_header :
    (libc : Libc) (msg : Bytes) (size : ℤ) (value : Option (ℕ → ℕ))
    → read_line (hex_header libc msg size value).text ≡ []
unfolding read_line hex_header
read_line-hex_header libc msg size value = refl

behind_header-Shows :
    (libc : Libc) (value : ℕ → ℕ) (size h : ℕ) (s : Bytes) (back : ℤ) (d : Log)
    → ((j : ℕ) → value j < 256)
    → size + 16 ≤ 2 ^ 31
    → ltb_ℤ (pos 0) back ≡ true
    → Shows h s d
    → Ends
        (behind_header libc (pos size) (some value) (some back) d)
        (λ _ d'. Shows h (s ++ tabulate size value) d')
behind_header-Shows libc value size h s back d byte small written v = rw written (
    go_on (λ _ d'. some (some back, d')) (λ _ d'. Shows h (s ++ tabulate size value) d')
      (λ _ d'. Shows h (s ++ tabulate size value) d') (hex_body libc (pos size) (some value) d)
      (hex_body-Shows libc value size h s d byte small v) (λ _ d' v'. v'))

-- In a log that goes into a file, a hex dump of bytes, at most 2147483632 of them, ends with no fault:
-- no line is longer than its buffer, and the index stays in the range of an int. If the header was
-- written, the bytes can be read back from the lines that the dump writes, behind what the file showed
-- before.
pub qhexoutput-read_calls :
    (libc : Libc) (msg : Bytes) (value : ℕ → ℕ) (size h : ℕ) (d : Log)
    → ((j : ℕ) → value j < 256)
    → size + 16 ≤ 2 ^ 31
    → IsFile h d
    → ltb_ℤ (pos 0) (libc.vfprintf d.calls h (hex_header libc msg (pos size) (some value)).text)
      ≡ true
    → (back : Option ℤ) × (d' : Log) × (qhexoutput libc msg (pos size) (some value) d
        ≡ some (back, d'))
      × Shows h (read_calls d.calls ++ tabulate size value) d'
unfolding qhexoutput
qhexoutput-read_calls libc msg value size h d byte small file written =
    let header = hex_header libc msg (pos size) (some value) in
    let blank : read_calls d.calls ++ read_line header.text ≡ read_calls d.calls =
      ap (λ r. read_calls d.calls ++ r) (read_line-hex_header libc msg (pos size) (some value))
      ∙ append-nil (read_calls d.calls) in
    Ends-some (qhexoutput libc msg (pos size) (some value) d)
      (λ _ d'. Shows h (read_calls d.calls ++ tabulate size value) d')
      (go_on (behind_header libc (pos size) (some value))
        (λ back d'.
          (back ≡ some (libc.vfprintf d.calls h header.text))
          × Shows h (read_calls d.calls ++ read_line header.text) d')
        (λ _ d'. Shows h (read_calls d.calls ++ tabulate size value) d') (qoutputv libc header d)
        (qoutputv-Shows libc header h (read_calls d.calls) d (file, refl))
        (λ back d' (e, v).
          subst
            (λ o.
              Ends (behind_header libc (pos size) (some value) o d')
                (λ _ d''. Shows h (read_calls d.calls ++ tabulate size value) d''))
            (sym e)
            (behind_header-Shows libc value size h (read_calls d.calls)
              (libc.vfprintf d.calls h header.text) d' byte small written
              (subst (λ r. Shows h r d') blank v))))

-- A log that goes to syslog, or nowhere: then the header leaves `Back` without a value, or reads an
-- argument list that has none any more, and `qhexoutput` is a fault for every message.
pub qhexoutput-none :
    (libc : Libc) (msg : Bytes) (size : ℤ) (value : Option (ℕ → ℕ)) (d : Log)
    → (d.debug_handle ≡ none) ⊎ (d.debug_syslog ≡ true)
    → qhexoutput libc msg size value d ≡ none
unfolding qhexoutput qoutputv hex_header
qhexoutput-none libc msg size value d h = faults d.debug_syslog d.debug_handle h
  where
    faults :
        (used : Bool) (handle : Option ℕ)
        → (handle ≡ none) ⊎ (used ≡ true)
        → (output_to libc (hex_header libc msg size value) used handle
              >>= behind_header libc size value)
            d
          ≡ none
    faults true none h = refl
    faults false none h = refl
    faults true (some a) h = refl
    faults false (some a) (inl e) = cc
    faults false (some a) (inr e) = cc
