-- ===== src/Imap.antt =====
-- mailtransporter/imap_client.py: `ICloudMailbox`.
pub mod Client
pub mod Session
pub mod Queries
pub mod Keywords
pub mod Headers
pub mod Folders
pub mod Port
pub mod Errors
pub mod Confirm
pub mod Listing
pub mod Moves
pub mod Queue
