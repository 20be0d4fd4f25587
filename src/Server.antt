-- ===== src/Server.antt =====
-- pulse-server: the ingestion and API server.
pub mod State
pub mod Toys
pub mod Grpc
pub mod Db
pub mod Api
pub mod Liveness
pub mod Worker
pub mod Ws
pub mod System
pub mod Victoria
pub mod Metrics
pub mod Startup
pub mod Router
