-- ===== src/Lib.antt =====
-- HaaS proxy: an SSH trap that lets an attacker in when a honeypot server takes his password, and that
-- from then on relays his session to that server. It is written in C on top of libssh.
--
-- The parts. The master process (src/main.c) reads the options (src/config.c), listens, and forks a
-- process for each client. That process (src/proxy.c, `ProxyProcess`) waits for events of two libssh
-- sessions: the trap's, where the attacker is the client, and the HaaS session, where the proxy is
-- one. libssh calls back into the handlers of src/proxy.c, which share one context. Each forwarded
-- connection is a pair of channels (src/fw_pair.c) in a pool (src/fw_pool.c).
--
-- The files.
--   Common, Common/*: names of the libraries, lists, C's signed int, what `sprintf` makes of a number;
--     Common/State, Common/Ends: pieces of a program with a state, and rules about their outcome.
--   Config: src/config.h and `ConfigInit`; a C string is a list of bytes.
--   Config/Number: `ParseInt` and `ParsePort` with `strtol`; Config/Parse: `ConfigParse`, where what
--     `getopt` returns is a parameter.
--   FwPair, FwPair/Life: src/fw_pair.h and src/fw_pair.c: `FwPairAlloc`, `FwPairRelease`.
--   FwPool: src/fw_pool.c: `FwPoolInit`, `FwPoolCount`, `FwPoolGet`, `FwPoolAdd`, `FwPoolRemove`,
--     `FwPoolFindClosed`, each with the test for NULL; FwPool/Done: `FwPoolDone`.
--   Debug: src/debug.c: where the log goes, its level, and the hex dump, `qhexoutput`; Debug/Hex: a
--     line of the hex dump.
--   World: the context `tSshContext`, the heap of pairs, and the calls into libssh and the system.
--   World/Ends: the rules for showing that a piece of the program ends with no fault; World/Leaves:
--     what it leaves alone; World/Frees: how often a trace frees a channel.
--   Proxy/Timers: `TimerStart`, `TimerGet`, `IdleTimerReset`, `IdleTimerGet`, `CheckUsage`.
--   Proxy/Auth: `HaasAuthenticate`, `HaasConnect` and the `TrapAuth...` callbacks.
--   Proxy/Open: `TrapNewChannel`, `TrapServiceRequest`, `SessionClose`.
--   Proxy/Channel, Proxy/Channel/Haas: the callbacks of the two session channels.
--   Proxy/Forward: `TrapMessageCallback` and `HaasMessageCallback`.
--   Proxy/ForwardChannel: the callbacks of a forwarded channel.
--   Proxy/Sweep: `HandleForwards`.
--   Proxy/Events: the callback tables of `ProxyProcess`: the events of a session and their handlers.
--   Proxy/Session: the context that `ProxyProcess` starts with; Proxy/Session/Runs: whole sessions.
--   Proxy/Process: `ProxyProcess` from the key exchange to the teardown, with its two loops.
--   Proxy/Setup: `ProxyProcess` up to the key exchange, with the paths of the keys, and the whole of it.
--   Proxy/Messages: `DebugMessage`, `GetMsgTypeStr` and the other functions that name a message.
--   Master: `SigHandler` and the count of children in `main` (src/main.c), as a step relation.
--   Master/System, Master/Server, Master/Program: `main` as a run of the process: its variables and its
--     calls; `CreateTCPServer`, `ProcessConsole` and `daemonize`; `main` with its loop, `ProxyInit` and
--     `ProxyDone`.
--   Examples, Examples/*: a small session to try the handlers on.
-- A file below one of these is about its theorems.
--
-- The model. A handler is a function from a world to a result and a world, or to `none`: a fault in
-- the proxy's own memory, that is an access through NULL or to a pair that was freed, or a write behind
-- a block or a buffer. A call of libssh with a channel that was freed before is not such a fault: the
-- trace of the calls shows it. libssh and the kernel are a parameter, `Env`: the n-th call of a run gets
-- the n-th answer, whatever it is, so that the theorems hold for every behaviour of theirs. The calls
-- that have an effect outside are recorded in the trace. A pointer is an option; a session or a channel
-- is its handle. An int is an integer, with the wrap-around at 32 bits written out where it can
-- happen, in `TimerGet` and `ParseInt`.
--
-- A session is a sequence of events in any order, where libssh makes no callback for a channel of a
-- pair that was freed. The master process is seen in two ways. In Master it goes on statement by
-- statement, and between any two of them a child may end and the signal handler may run. In
-- Master/Program it goes on call by call: the kernel is a parameter, `Kernel`, which gives the n-th
-- call the n-th answer, and the signals of a process arrive during its calls. A child runs the whole of
-- `ProxyProcess`, in a world that is a parameter, `Session`; what libssh does with the client's socket
-- that it is handed there is not followed. The log is kept with the
-- calls that it makes; what `fopen`, `vfprintf` and `%p` give is a parameter, `Libc`, and a message is
-- the text that its format makes.
--
-- Bounds and fuel. The loops over the pool run as often as there are pairs. The loop of
-- `HandleForwards` that releases pairs has one unit of fuel more than there are pairs, and each round
-- takes one pair out. The loop of the hex dump has one unit more than there are bytes, and each round
-- writes at least one. The two loops of `ProxyProcess` have fuel too: they end when the process is told
-- to stop, so that one unit more than the number of the read of `ShouldStop` that says so is enough;
-- with a timeout of the session they end without it. The loops of `main` and the one around `accept`
-- have the fuel t + 2 where the signal to stop arrives with call t and no call is interrupted later,
-- since each round makes a call, and the session of a child is given the same fuel. `none` in
-- Master/Program is a loop that is out of fuel, or a fault in the session of a child.
--
-- Not modelled. The handlers of a session are without the calls that write to the log, `qprintf`,
-- `qdebugf`, `qhexdebug` and `DebugMessage`, of which the last two and what is below them are
-- modelled on their own, and without the status callbacks, which only log. Nor is it modelled what
-- libssh does between a call and its return: callbacks come while `ssh_event_dopoll` waits, not
-- during the key exchange or inside a call that a handler makes. In the master: `PrintUsage`, the
-- messages, and the calls of `signal`, whose handler is taken to be in place from the first call on.
-- `strdup` succeeds, and a block of `malloc` is a new address. The clock is after 1970. Whether
-- there is a key for ECDSA is decided by the headers of libssh and is a parameter. The scripts that
-- build and start the program are left out.
pub mod Common
pub mod Config
pub mod FwPair
pub mod FwPool
pub mod World
pub mod Proxy
pub mod Master
pub mod Debug
pub mod Examples
