-- ===== src/Gmail.antt =====
-- mailtransporter/gmail_client.py: `GmailClient`.
pub mod Api
pub mod Client
pub mod Classes
pub mod Labels
pub mod Standing
pub mod Directory
