-- ===== src/Proxy/Messages.antt =====
-- src/proxy.c: `DebugMessage` and the names that it writes to the log, `GetMsgTypeStr` and its
-- relatives. The codes of libssh are a parameter.
use haa_s_libssh.Common.{true, not, List, [], ◌∷◌, ◌++◌, if◌then◌else◌}
use haa_s_libssh.Common.Int.{ℤ, pos, minus_one, eqb_ℤ}
use haa_s_libssh.Config.{Bytes, codes}
use haa_s_libssh.Debug.{Libc, LogMessage, L, ◌>>=◌, skip, when, signed_decimal, qdebugv}

-- The constants of the header of libssh that the names are for.
pub record MessageCodes : Type 0 where
  pub ssh_request_auth : ℤ
  pub ssh_request_channel_open : ℤ
  pub ssh_request_channel : ℤ
  pub ssh_request_service : ℤ
  pub ssh_request_global : ℤ
  pub ssh_auth_method_unknown : ℤ
  pub ssh_auth_method_none : ℤ
  pub ssh_auth_method_password : ℤ
  pub ssh_auth_method_publickey : ℤ
  pub ssh_auth_method_hostbased : ℤ
  pub ssh_auth_method_interactive : ℤ
  pub ssh_auth_method_gssapi_mic : ℤ
  pub ssh_channel_unknown : ℤ
  pub ssh_channel_session : ℤ
  pub ssh_channel_direct_tcpip : ℤ
  pub ssh_channel_forwarded_tcpip : ℤ
  pub ssh_channel_x11 : ℤ
  pub ssh_channel_request_unknown : ℤ
  pub ssh_channel_request_pty : ℤ
  pub ssh_channel_request_exec : ℤ
  pub ssh_channel_request_shell : ℤ
  pub ssh_channel_request_env : ℤ
  pub ssh_channel_request_subsystem : ℤ
  pub ssh_channel_request_window_change : ℤ
  pub ssh_channel_request_x11 : ℤ
  pub ssh_global_request_unknown : ℤ
  pub ssh_global_request_tcpip_forward : ℤ
  pub ssh_global_request_cancel_tcpip_forward : ℤ

-- A `switch` over the cases of a list, with the string of `default`.
abbrev pub str_of : List (ℤ × Bytes) → Bytes → ℤ → Bytes
str_of [] default x = default
str_of ((case_of, str) ∷ cases) default x = if eqb_ℤ x case_of then str else str_of cases default x

-- QLEVEL_INFO.
abbrev pub qlevel_info : ℤ
qlevel_info = pos 3

unfoldable pub named_line : Bytes → ℤ → Bytes → LogMessage
named_line title x str = record {
  text = title ++ signed_decimal x ++ codes " '" ++ str ++ codes "'" ++ 10 ∷ [];
  has_arguments = true;
}

module _ (c : MessageCodes) where
  unfoldable pub get_msg_type_str : ℤ → Bytes
  get_msg_type_str =
      str_of
        ((c.ssh_request_auth, codes "SSH_REQUEST_AUTH")
          ∷ (c.ssh_request_channel_open, codes "SSH_REQUEST_CHANNEL_OPEN")
          ∷ (c.ssh_request_channel, codes "SSH_REQUEST_CHANNEL")
          ∷ (c.ssh_request_service, codes "SSH_REQUEST_SERVICE")
          ∷ (c.ssh_request_global, codes "SSH_REQUEST_GLOBAL")
          ∷ [])
        (codes "?!?Msg-Type?!?")

  unfoldable pub get_msg_auth_subtype_str : ℤ → Bytes
  get_msg_auth_subtype_str =
      str_of
        ((c.ssh_auth_method_unknown, codes "SSH_AUTH_METHOD_UNKNOWN")
          ∷ (c.ssh_auth_method_none, codes "SSH_AUTH_METHOD_NONE")
          ∷ (c.ssh_auth_method_password, codes "SSH_AUTH_METHOD_PASSWORD")
          ∷ (c.ssh_auth_method_publickey, codes "SSH_AUTH_METHOD_PUBLICKEY")
          ∷ (c.ssh_auth_method_hostbased, codes "SSH_AUTH_METHOD_HOSTBASED")
          ∷ (c.ssh_auth_method_interactive, codes "SSH_AUTH_METHOD_INTERACTIVE")
          ∷ (c.ssh_auth_method_gssapi_mic, codes "SSH_AUTH_METHOD_GSSAPI_MIC")
          ∷ [])
        (codes "?!?Auth-Subtype?!?")

  unfoldable pub get_msg_channel_open_subtype_str : ℤ → Bytes
  get_msg_channel_open_subtype_str =
      str_of
        ((c.ssh_channel_unknown, codes "SSH_CHANNEL_UNKNOWN")
          ∷ (c.ssh_channel_session, codes "SSH_CHANNEL_SESSION")
          ∷ (c.ssh_channel_direct_tcpip, codes "SSH_CHANNEL_DIRECT_TCPIP")
          ∷ (c.ssh_channel_forwarded_tcpip, codes "SSH_CHANNEL_FORWARDED_TCPIP")
          ∷ (c.ssh_channel_x11, codes "SSH_CHANNEL_X11")
          ∷ [])
        (codes "?!?Channel-Open-Subtype?!?")

  unfoldable pub get_msg_channel_subtype_str : ℤ → Bytes
  get_msg_channel_subtype_str =
      str_of
        ((c.ssh_channel_request_unknown, codes "SSH_CHANNEL_REQUEST_UNKNOWN")
          ∷ (c.ssh_channel_request_pty, codes "SSH_CHANNEL_REQUEST_PTY")
          ∷ (c.ssh_channel_request_exec, codes "SSH_CHANNEL_REQUEST_EXEC")
          ∷ (c.ssh_channel_request_shell, codes "SSH_CHANNEL_REQUEST_SHELL")
          ∷ (c.ssh_channel_request_env, codes "SSH_CHANNEL_REQUEST_ENV")
          ∷ (c.ssh_channel_request_subsystem, codes "SSH_CHANNEL_REQUEST_SUBSYSTEM")
          ∷ (c.ssh_channel_request_window_change, codes "SSH_CHANNEL_REQUEST_WINDOW_CHANGE")
          ∷ (c.ssh_channel_request_x11, codes "SSH_CHANNEL_REQUEST_X11")
          ∷ [])
        (codes "?!?Channel-Subtype?!?")

  unfoldable pub get_msg_global_subtype_str : ℤ → Bytes
  get_msg_global_subtype_str =
      str_of
        ((c.ssh_global_request_unknown, codes "SSH_GLOBAL_REQUEST_UNKNOWN")
          ∷ (c.ssh_global_request_tcpip_forward, codes "SSH_GLOBAL_REQUEST_TCPIP_FORWARD")
          ∷ (
            c.ssh_global_request_cancel_tcpip_forward,
            codes "SSH_GLOBAL_REQUEST_CANCEL_TCPIP_FORWARD",
          )
          ∷ [])
        (codes "?!?Global-Subtype?!?")

  -- The switch over the type in `DebugMessage`.
  unfoldable pub subtype_str : ℤ → ℤ → Bytes
  subtype_str type subtype =
      if eqb_ℤ type c.ssh_request_auth
      then get_msg_auth_subtype_str subtype
      else if eqb_ℤ type c.ssh_request_channel_open
      then get_msg_channel_open_subtype_str subtype
      else if eqb_ℤ type c.ssh_request_channel
      then get_msg_channel_subtype_str subtype
      else if eqb_ℤ type c.ssh_request_global
      then get_msg_global_subtype_str subtype
      else codes "?!?Msg-Type-Subtype?!?"

  -- `DebugMessage`.
  unfoldable pub debug_message : Libc → ℤ → ℤ → L (Unit {0})
  debug_message libc type subtype = do
    back ← qdebugv libc qlevel_info (named_line (9 ∷ codes "Type: ") type (get_msg_type_str type))
    when (not (eqb_ℤ subtype minus_one)) (do
      ret ←
          qdebugv libc qlevel_info
            (named_line (9 ∷ codes "SubType: ") subtype (subtype_str type subtype))
      skip)
