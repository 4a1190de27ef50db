-- ===== src/Server.antt =====
-- mailtransporter/server.py.
pub mod Invoker
pub mod Sync
pub mod Verified
pub mod Answers
pub mod Exclusion
pub mod Calls
