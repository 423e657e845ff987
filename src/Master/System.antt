-- ===== src/Master/System.antt =====
-- src/main.c, src/global.h: what the master process works on: its variables, the log, and the calls of
-- the system. The kernel is a parameter: the n-th call of a run gets the n-th answer, and signals
-- arrive during it.
use haa_s_libssh.Common.{
  ℕ, zero, suc, ◌+◌, ◌-◌, ◌==◌, if◌then◌else◌, Bool, true, Option, none, some, List, [], ◌∷◌,
}
use haa_s_libssh.Common.Int.{ℤ}
use haa_s_libssh.Config.{Bytes}
use haa_s_libssh.World.{Env, World}
use haa_s_libssh.Proxy.Process.{Arrivals}
use haa_s_libssh.Debug.{Log}
use haa_s_libssh.Master.{Master, bury}
pub use haa_s_libssh.Common.State.{◌>>=◌, ◌>>◌, pure, skip, fault, when}

-- The calls with their arguments, as far as they differ from call to call.
pub data SysCall : Type 0 where
  getpid fork setsid chdir umask open_null socket select ssh_init ssh_finalize : SysCall
  nice : ℤ → SysCall
  dup2 : ℕ → ℕ → SysCall
  setsockopt accept read close : ℕ → SysCall
  bind listen : ℕ → ℕ → SysCall

-- The signals that `main` catches; with SIGCHLD, how many children have ended.
pub data Signal : Type 0 where
  sigpipe sigint sighup : Signal
  sigchld : ℕ → Signal

-- The answers: an integer, or a handle where `none` is -1; whether `errno` is EINTR behind the call,
-- what handles `select` found, and the byte that was read.
pub record Kernel : Type 0 where
  pub int : ℕ → SysCall → ℤ
  pub handle : ℕ → SysCall → Option ℕ
  pub eintr : ℕ → Bool
  pub readable : ℕ → ℕ → Bool
  pub byte : ℕ → ℕ
  pub signals : ℕ → List Signal

-- What the session of a child meets: what libssh and the system do in it, which callbacks come, what its
-- reads of `ShouldStop` give, the address of its client, and the world that it starts in.
pub record Session : Type 0 where
  pub env : Env
  pub has_ecdsa_key : Bool
  pub arrivals : Arrivals
  pub stop : ℕ → Bool
  pub addr : Bytes
  pub port : ℕ
  pub start : World

-- A call is recorded with the handle that it gave. `session` is the end of the session that a child
-- has had.
pub record Process : Type 0 where
  pub should_stop : Bool
  pub master_pid : ℤ
  pub count : Master
  pub log : Log
  pub tick : ℕ
  pub trace : List (SysCall × Option ℕ)
  pub session : Option World

-- A piece of the program. `none` is a loop that has not ended when its fuel is used up, or a fault in
-- the session of a child.
abbrev pub P : Type 0 → Type 0
P A = Process → Option (A × Process)

-- The loop of `SigHandler` on SIGCHLD: so many children, but no more than there are, have ended, and
-- `waitpid` gives them one after the other.
unfoldable pub reap : ℕ → Master → Master
reap zero m = m
reap (suc n) m =
    let rest = reap n (bury (record m { running = m.running - 1; ended = m.ended + 1 })) in
    if m.running == 0 then m else rest

-- `SigHandler`.
unfoldable pub caught : Signal → Process → Process
caught Signal.sigpipe p = p
caught Signal.sigint p = record p { should_stop = true }
caught Signal.sighup p = record p { should_stop = true }
caught (Signal.sigchld n) p = record p { count = reap n p.count }

abbrev pub deliver : List Signal → Process → Process
deliver [] p = p
deliver (s ∷ signals) p = deliver signals (caught s p)

abbrev pub called : Kernel → SysCall → Option ℕ → Process → Process
called k c h p = record (deliver (k.signals p.tick) p) {
  tick = suc p.tick;
  trace = (c, h) ∷ p.trace;
}

abbrev pub run : Kernel → SysCall → P (Unit {0})
run k c p = some (tt, called k c none p)

abbrev pub ask : Kernel → SysCall → P ℤ
ask k c p = some (k.int p.tick c, called k c none p)

abbrev pub ask_handle : Kernel → SysCall → P (Option ℕ)
ask_handle k c p = some (k.handle p.tick c, called k c (k.handle p.tick c) p)

abbrev pub process : P Process
process p = some (p, p)

abbrev pub update : (Process → Process) → P (Unit {0})
update f p = some (tt, f p)
