-- ===== src/Server/Calls.antt =====
-- mailtransporter/server.py: a whole call of `sync` is a sequence of the steps of Server/Exclusion.
use mail_transporter.Base.{List, ◌∷◌, ◌++◌}
use mail_transporter.Server.Sync.{ServerPorts, App}
use mail_transporter.Server.Exclusion.{Phase, Pool}

module _ {S : Type 0} (ports : ServerPorts S) (before after : List Phase) where
  -- The process with one call in this phase, among the others.
  abbrev pub with_call : Phase → App S → Pool S
  with_call phase app = record { app = app; calls = before ++ phase ∷ after }
