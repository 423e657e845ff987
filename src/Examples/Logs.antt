-- ===== src/Examples/Logs.antt =====
-- A log in a file.
use haa_s_libssh.Common.{
  ℕ, ◌+◌, ◌%◌, ◌≤◌, ◌≡◌, refl, true, false, Option, none, some, [], ◌∷◌, ◌++◌, All, length,
  tabulate, arith,
}
use haa_s_libssh.Common.Format.{digits_on, decimal}
use haa_s_libssh.Common.Int.{ℤ, pos}
use haa_s_libssh.Config.{codes}
use haa_s_libssh.Debug.{
  LogCall, Libc, Log, LogMessage, start_log, qinit_file_name, close_own, qprintv, qoutputv, qdone,
  qhexoutput, signed_decimal,
}
use haa_s_libssh.Proxy.Messages.{
  MessageCodes, subtype_str, get_msg_channel_open_subtype_str, named_line,
}
use haa_s_libssh.Debug.Hex.{
  padded_hex, hex_column, hex_columns, text_column, text_columns, hex_line,
}
use haa_s_libssh.Debug.Hex.Printable.{IsPrintable, hex_line-IsPrintable}
use haa_s_libssh.Debug.Dump.{Shows, read_calls, qhexoutput-read_calls}
use haa_s_libssh.Debug.Life.{LogOp, apply, own, ledger, Ops, none_yet, after}
use haa_s_libssh.Debug.Life.Runs.{Ops-qdone}

abbrev pub libc : Libc
libc = record {
  fopen = λ calls name. some 5;
  vfprintf = λ calls h text. pos 1;
  pointer = λ value. codes "0x1234";
}

-- The bytes 60, 61, …
abbrev pub counting : ℕ → ℕ
counting j = (60 + j) % 256

abbrev in_file : Log
in_file = record start_log { debug_handle = some 5; debug_close = true }

hex_line_test :
    hex_line counting 18 16
    ≡ codes "  0x0010: 4c 4d                                           = 'LM              '"
unfolding hex_line hex_columns hex_column text_columns text_column padded_hex digits_on
hex_line_test = refl

hex_line-IsPrintable_example :
    (length (hex_line counting 18 16) ≤ 82) × All IsPrintable (hex_line counting 18 16)
hex_line-IsPrintable_example = hex_line-IsPrintable counting 18 16 (λ j. omega arith)

qhexoutput-read_calls_example :
    (back : Option ℤ) × (d' : Log) × (qhexoutput libc
        (codes "TrapData")
        (pos 18)
        (some counting)
        in_file
      ≡ some (back, d'))
    × Shows 5 (read_calls [] ++ tabulate 18 counting) d'
qhexoutput-read_calls_example =
    qhexoutput-read_calls libc (codes "TrapData") counting 18 5 in_file (λ j. omega arith)
      (omega arith) (refl, refl) refl

abbrev greeting : LogMessage
greeting = record { text = codes "Starting"; has_arguments = false }

abbrev printed : Log
printed = record in_file {
  calls =
      LogCall.fflush 5
      ∷ LogCall.vfprintf 5 (codes "Starting")
      ∷ LogCall.fopen (codes "log") (some 5)
      ∷ [];
}

some_calls : Ops libc start_log printed
unfolding apply qinit_file_name close_own qprintv qoutputv
some_calls =
    after (LogOp.print greeting) (after (LogOp.init_file_name (codes "log")) none_yet tt refl) tt
      refl

Ops-qdone_example :
    (ledger printed.calls ≡ some (own printed))
    × (ledger (qdone printed).calls ≡ some none)
    × ((qdone printed).debug_handle ≡ none)
    × ((qdone printed).debug_syslog ≡ false)
Ops-qdone_example = Ops-qdone libc printed some_calls

-- Codes that differ within each kind.
abbrev message_codes : MessageCodes
message_codes = record {
  ssh_request_auth = pos 1;
  ssh_request_channel_open = pos 2;
  ssh_request_channel = pos 3;
  ssh_request_service = pos 4;
  ssh_request_global = pos 5;
  ssh_auth_method_unknown = pos 0;
  ssh_auth_method_none = pos 1;
  ssh_auth_method_password = pos 2;
  ssh_auth_method_publickey = pos 4;
  ssh_auth_method_hostbased = pos 8;
  ssh_auth_method_interactive = pos 16;
  ssh_auth_method_gssapi_mic = pos 128;
  ssh_channel_unknown = pos 0;
  ssh_channel_session = pos 1;
  ssh_channel_direct_tcpip = pos 2;
  ssh_channel_forwarded_tcpip = pos 3;
  ssh_channel_x11 = pos 4;
  ssh_channel_request_unknown = pos 0;
  ssh_channel_request_pty = pos 1;
  ssh_channel_request_exec = pos 2;
  ssh_channel_request_shell = pos 3;
  ssh_channel_request_env = pos 4;
  ssh_channel_request_subsystem = pos 5;
  ssh_channel_request_window_change = pos 6;
  ssh_channel_request_x11 = pos 7;
  ssh_global_request_unknown = pos 0;
  ssh_global_request_tcpip_forward = pos 1;
  ssh_global_request_cancel_tcpip_forward = pos 2;
}

subtype_str_test : subtype_str message_codes (pos 2) (pos 1) ≡ codes "SSH_CHANNEL_SESSION"
unfolding subtype_str get_msg_channel_open_subtype_str
subtype_str_test = refl

named_line_test : (named_line (codes "A") (pos 1) (codes "B")).text ≡ codes "A1 'B'" ++ 10 ∷ []
unfolding named_line signed_decimal decimal digits_on
named_line_test = refl
