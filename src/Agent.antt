-- ===== src/Agent.antt =====
-- pulse-agent: the daemon.
pub mod Buffer
pub mod Backoff
pub mod Collector
pub mod Prober
pub mod Session
pub mod Config
pub mod Commands
pub mod Loop
