-- ===== src/Replay.antt =====
-- daemon/internal/replay/replay.go: the engine that sends a captured request again.
pub mod Headers
pub mod Engine
pub mod Reports
pub mod Run
pub mod Attempts
pub mod Sends
pub mod Prepared
pub mod Secrets
pub mod Order
pub mod Lab
mod Examples
