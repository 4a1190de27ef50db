-- ===== src/Forwarder.antt =====
-- mailtransporter/forwarder.py: the sync loop.
pub mod State
pub mod Report
pub mod Process
pub mod Loop
pub mod Trace
pub mod Ledger
pub mod Safety
pub mod Accounting
pub mod Errors
