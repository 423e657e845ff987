-- ===== src/Proxy.antt =====
-- src/proxy.c: the session between one attacker (the trap side) and the HaaS server.
pub mod Messages
pub mod Timers
pub mod Auth
pub mod Channel
pub mod Open
pub mod Forward
pub mod Sweep
pub mod ForwardChannel
pub mod Events
pub mod Session
pub mod Setup
pub mod Process
