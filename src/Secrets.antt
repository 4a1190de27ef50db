-- ===== src/Secrets.antt =====
-- mailtransporter/secrets.py: the registry of secret values, `redact`, and the settings helpers.
pub mod Redaction
pub mod Sealed
pub mod Env
pub mod Filter
