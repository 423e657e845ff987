-- ===== src/Master/Server.antt =====
-- src/main.c: `CreateTCPServer`, `ProcessConsole` and `daemonize`.
use haa_s_libssh.Common.{
  ℕ, zero, suc, ◌-◌, ◌%◌, ◌^◌, not, ◌&&◌, Option, none, some, ◌==◌, if◌then◌else◌,
}
use haa_s_libssh.Common.Int.{ℤ, pos, negsuc, minus_one, eqb_ℤ, ltb_ℤ, nonzero}
use haa_s_libssh.Master.System.{
  SysCall, Kernel, P, run, ask, ask_handle, process, update, ◌>>=◌, ◌>>◌, pure, skip, fault, when,
}

-- The conversion of an int to 16 bits in `htons`.
abbrev pub port_bits : ℤ → ℕ
port_bits (pos n) = n % 2 ^ 16
port_bits (negsuc n) = 2 ^ 16 - 1 - n % 2 ^ 16

module _ (k : Kernel) where
  -- The end of `CreateTCPServer` where `Socket` is still set.
  abbrev pub refused : ℕ → P (Option ℕ)
  refused s = do run k (SysCall.close s); pure none

  unfoldable pub listen_on : ℕ → P (Option ℕ)
  listen_on s = do i ← ask k (SysCall.listen s 10); if nonzero i then refused s else pure (some s)

  unfoldable pub bind_to : ℤ → ℕ → P (Option ℕ)
  bind_to port s = do
    i ← ask k (SysCall.bind s (port_bits port))
    if nonzero i then refused s else listen_on s

  unfoldable pub set_up : ℤ → ℕ → P (Option ℕ)
  set_up port s = do
    i ← ask k (SysCall.setsockopt s)
    if nonzero i then refused s else bind_to port s

  unfoldable pub create_tcp_server : ℤ → P (Option ℕ)
  create_tcp_server port = do
    socket ← ask_handle k SysCall.socket
    elim socket as (λ _. P (Option ℕ)) [ none ↦ pure none | some s ↦ set_up port s ]

  -- The loop around `read`, with the byte that was read.
  unfoldable pub read_byte : ℕ → ℕ → P (ℤ × ℕ)
  read_byte fd zero = fault
  read_byte fd (suc fuel) = do
    p ← process
    i ← ask k (SysCall.read fd)
    if eqb_ℤ i minus_one && k.eintr p.tick then read_byte fd fuel else pure (i, k.byte p.tick)

  unfoldable pub process_console : ℕ → ℕ → P ℤ
  process_console fd fuel = do
    r ← read_byte fd fuel
    pure (if ltb_ℤ (pos 0) r.0 then if r.1 == 27 then pos 1 else pos 0 else minus_one)

  -- The loop over the three standard handles.
  unfoldable pub dup_from : ℤ → ℕ → ℕ → ℕ → P (Unit {0})
  dup_from protect h i zero = skip
  dup_from protect h i (suc n) = do
    when (not (eqb_ℤ (pos i) protect)) (run k (SysCall.dup2 h i))
    dup_from protect h (suc i) n

  unfoldable pub settle : ℤ → ℕ → P ℤ
  settle protect h = do
    dup_from protect h 0 3
    run k (SysCall.close h)
    pid ← ask k SysCall.getpid
    update (λ p. record p { master_pid = pid })
    pure (pos 1)

  unfoldable pub detach : ℤ → P ℤ
  detach protect = do
    run k SysCall.umask
    null ← ask_handle k SysCall.open_null
    elim null as (λ _. P ℤ) [ none ↦ pure (pos 0) | some h ↦ settle protect h ]

  unfoldable pub grandchild : ℤ → P ℤ
  grandchild protect = do
    i ← ask k SysCall.chdir
    if ltb_ℤ i (pos 0) then pure (pos 0) else detach protect

  unfoldable pub second_fork : ℤ → P ℤ
  second_fork protect = do
    i ← ask k SysCall.fork
    if eqb_ℤ i (pos 0) then grandchild protect else pure (pos 0)

  unfoldable pub new_session : ℤ → P ℤ
  new_session protect = do
    i ← ask k SysCall.setsid
    if eqb_ℤ i minus_one then pure (pos 0) else second_fork protect

  unfoldable pub daemonize : ℤ → P ℤ
  daemonize protect = do
    i ← ask k SysCall.fork
    if eqb_ℤ i (pos 0) then new_session protect else pure (pos 0)
