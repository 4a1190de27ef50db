-- ===== src/Tests.antt =====
-- Concrete collaborators, modelled on the fakes of tests/conftest.py, and the theorems at them.
mod Fakes
mod Runs
mod Server
mod Sessions
mod Labels
mod Watches
mod Settings
mod Endpoint
mod Whole
mod Commands
mod Credentials
mod Store
mod Queues
mod Lists
mod Scripts
mod Shells
mod Hearts
