-- ===== src/FwPair.antt =====
-- src/fw_pair.h: the two ends of a forwarded connection. A channel is its handle, and a pointer
-- that may be NULL is an option.
pub mod Life
pub mod Released
use haa_s_libssh.Common.{ℕ, Bool, Option}
use haa_s_libssh.Common.Int.{ℤ}
use haa_s_libssh.Config.{Bytes}

pub record FwEndpoint : Type 0 where
  pub addr : Option Bytes
  pub port : ℤ
  pub channel : Option ℕ

-- `context` tells whether the pointer to the session's context is set: there is one context only.
-- `userdata` is the address in the pair's copy of the callbacks.
pub record FwPair : Type 0 where
  pub context : Bool
  pub closed : Bool
  pub source : FwEndpoint
  pub destiny : FwEndpoint
  pub userdata : ℕ
