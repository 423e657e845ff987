-- ===== src/Master/Program.antt =====
-- src/main.c, `main`, and `ProxyInit` and `ProxyDone` of src/proxy.c. The process is followed through
-- each `fork` into the side that its answer says.
pub mod Sockets
pub mod Sessions
pub mod Stops
pub mod Counting
pub mod Logging
use haa_s_libssh.Common.{
  ℕ, zero, suc, ◌+◌, Bool, true, false, not, ◌&&◌, Option, none, some, List, ◌==◌, is_null,
  if◌then◌else◌,
}
use haa_s_libssh.Common.Int.{ℤ, pos, minus_one, eqb_ℤ, ltb_ℤ, leb_ℤ, nonzero, ◌+ℤ◌, ◌-ℤ◌}
use haa_s_libssh.Config.{Config, codes, config_init}
use haa_s_libssh.Config.Parse.{Opt, config_parse}
use haa_s_libssh.Debug.{Log, qinit_file_handle, qinit_syslog, qsetlevel, qdone}
use haa_s_libssh.Master.{Master, grave, set_grave}
use haa_s_libssh.Master.System.{
  SysCall, Signal, Kernel, Session, Process, P, called, run, ask, ask_handle, process, update,
  ◌>>=◌, ◌>>◌, pure, skip, fault, when,
}
use haa_s_libssh.Proxy.Setup.{whole_process}
use haa_s_libssh.Master.Server.{create_tcp_server, process_console, daemonize}

-- How a round of the loop in `main` ends.
pub data Next : Type 0 where
  again leave in_child : Next

-- The dead of the current tomb are taken off the count.
unfoldable pub count_dead : Master → Master
count_dead m =
    let prev = m.curr_tomb in
    let dead = grave prev m in
    let switched = record m { curr_tomb = not prev } in
    if dead == 0
    then m
    else record (set_grave prev 0 switched) { child_count = m.child_count -ℤ pos dead }

unfoldable pub one_more_child : Master → Master
one_more_child m = record m { running = m.running + 1; child_count = m.child_count +ℤ pos 1 }

-- Where the log goes, and its level; the handle of `stderr` is 2.
unfoldable pub start_logging : Config → Log → Log
start_logging config log =
    qsetlevel (pos config.debug_level)
      (if config.foreground then qinit_file_handle 2 log else qinit_syslog (codes "HaaS") log)

module _ (k : Kernel) (s : Session) where
  -- The loop around `accept`.
  unfoldable pub accept_client : ℕ → ℕ → P (Option ℕ)
  accept_client master zero = fault
  accept_client master (suc fuel) = do
    p ← process
    child ← ask_handle k (SysCall.accept master)
    if is_null child && k.eintr p.tick then accept_client master fuel else pure child

  -- `ProxyProcess` with the variables of the child.
  unfoldable pub run_session : Config → ℕ → ℕ → P (Unit {0})
  run_session config fuel child p =
      elim (whole_process s.env s.has_ecdsa_key s.arrivals s.stop fuel config s.addr s.port child
          s.start)
        as (λ _. Option (Unit {0} × Process)) [
          | none ↦ none
          | some (msec, w) ↦ some (tt, record p { session = some w })
        ]

  unfoldable pub child_process : Config → ℕ → ℕ → ℕ → P Next
  child_process config fuel master child = do
    run k (SysCall.close master)
    run_session config fuel child
    run k (SysCall.close child)
    pure Next.in_child

  abbrev pub count_child : ℤ → P (Unit {0})
  count_child pid =
      when (not (eqb_ℤ pid minus_one)) (update (λ p. record p { count = one_more_child p.count }))

  unfoldable pub start_child : Config → ℕ → ℕ → ℕ → P Next
  start_child config fuel master child = do
    pid ← ask k SysCall.fork
    if eqb_ℤ pid (pos 0)
        then child_process config fuel master child
        else do count_child pid; run k (SysCall.close child); pure Next.again

  unfoldable pub welcome : Config → ℕ → ℕ → ℕ → P Next
  welcome config fuel master child = do
    p ← process
    if leb_ℤ config.conn_limit p.count.child_count
        then (do run k (SysCall.close child); pure Next.again)
        else start_child config fuel master child

  unfoldable pub on_master : Config → ℕ → ℕ → P Next
  on_master config master fuel = do
    child ← accept_client master fuel
    elim child as (λ _. P Next) [ none ↦ pure Next.again | some c ↦ welcome config fuel master c ]

  unfoldable pub on_console : ℕ → P Next
  on_console fuel = do
    i ← process_console k 0 fuel
    pure (if nonzero i then Next.leave else Next.again)

  -- Behind the clients; the child breaks the loop at once.
  unfoldable pub then_console : Bool → ℕ → Next → P Next
  then_console typed fuel Next.in_child = pure Next.in_child
  then_console typed fuel Next.leave = pure Next.leave
  then_console typed fuel Next.again = if typed then on_console fuel else pure Next.again

  unfoldable pub on_ready : Config → ℕ → ℕ → ℕ → P Next
  on_ready config master t fuel = do
    next ← if k.readable t master then on_master config master fuel else pure Next.again
    then_console (config.foreground && k.readable t 0) fuel next

  unfoldable pub on_select : Config → ℕ → ℕ → ℕ → ℤ → P Next
  on_select config master t fuel i =
      if ltb_ℤ i (pos 0)
      then if k.eintr t
        then (do update (λ p. record p { count = count_dead p.count }); pure Next.again)
        else pure Next.leave
      else if ltb_ℤ (pos 0) i
      then on_ready config master t fuel
      else pure Next.again

  unfoldable pub round : Config → ℕ → ℕ → P Next
  round config master fuel = do
    p ← process
    i ← ask k SysCall.select
    on_select config master p.tick fuel i

  -- The loop, with the value of `MasterSock` behind it.
  unfoldable pub serve : Config → ℕ → ℕ → ℕ → P (Option ℕ)
  serve config master fuel zero = fault
  serve config master fuel (suc n) = do
    p ← process
    if p.should_stop then pure (some master) else do
      next ← round config master fuel
      elim next as (λ _. P (Option ℕ)) [
        | again ↦ serve config master fuel n
        | leave ↦ pure (some master)
        | in_child ↦ pure none
      ]

  -- `ProxyInit` and `ProxyDone`.
  unfoldable pub proxy_init : P (Unit {0})
  proxy_init = run k SysCall.ssh_init

  unfoldable pub proxy_done : P (Unit {0})
  proxy_done = run k SysCall.ssh_finalize

  unfoldable pub close_master : Option ℕ → P (Unit {0})
  close_master none = skip
  close_master (some h) = run k (SysCall.close h)

  unfoldable pub serve_clients : Config → ℕ → ℕ → P (Unit {0})
  serve_clients config master fuel = do
    proxy_init
    left ← serve config master fuel fuel
    close_master left
    proxy_done

  -- `qdone` and the return.
  unfoldable pub finish : ℤ → P ℤ
  finish back = do update (λ p. record p { log = qdone p.log }); pure back

  unfoldable pub open_server : Config → ℕ → P ℤ
  open_server config fuel = do
    server ← create_tcp_server k config.trap_port
    elim server as (λ _. P ℤ) [
      | none ↦ finish (pos 2)
      | some sock ↦ do serve_clients config sock fuel; finish (pos 0)
    ]

  unfoldable pub go_background : Config → P ℤ
  go_background config = if config.foreground then pure (pos 1) else daemonize k minus_one

  -- The value of `Back` behind `nice`.
  unfoldable pub be_nice : Config → P ℤ
  be_nice config = if eqb_ℤ config.process_nice minus_one then pure (pos 0) else (do
    i ← ask k (SysCall.nice config.process_nice)
    pure (if eqb_ℤ i config.process_nice then pos 0 else pos 1))

  unfoldable pub start : Config → ℕ → P ℤ
  start config fuel = do
    update (λ p. record p { log = start_logging config p.log })
    back ← be_nice config
    if nonzero back then finish back else do
      work ← go_background config
      if leb_ℤ work (pos 0) then finish (pos 0) else open_server config fuel

  unfoldable pub main : List Opt → Bool → ℕ → P ℤ
  main opts extra fuel = do
    pid ← ask k SysCall.getpid
    update (λ p. record p { master_pid = pid })
    elim (config_parse opts extra config_init) as (λ _. P ℤ) [
      | none ↦ finish (pos 1)
      | some config ↦ if config.want_help then finish (pos 0) else start config fuel
    ]
