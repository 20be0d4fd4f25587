-- ===== src/Core.antt =====
-- pulse-core: the code that the agent and the server share.
pub mod Error
pub mod Proto
pub mod Float
pub mod Toys
pub mod Auth
