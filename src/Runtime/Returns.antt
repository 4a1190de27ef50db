-- ===== src/Runtime/Returns.antt =====
-- mailtransporter/runtime.py: what the forwarder that it builds raises.
use mail_transporter.Gmail.Api.{Api}
