-- ===== src/Config.antt =====
-- mailtransporter/config.py.
pub mod Keywords
pub mod Validity
pub mod OauthJson
pub mod Settings
pub mod Loading
pub mod Registered
pub mod Errors
pub mod Agreement
