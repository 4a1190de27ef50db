-- ===== src/Watcher.antt =====
-- mailtransporter/watcher.py.
pub mod State
pub mod Step
pub mod Calls
pub mod Pacing
pub mod Daemon
pub mod Forever
pub mod Patience
pub mod Wiring
pub mod Announced
pub mod Alive
