-- ===== src/Ports.antt =====
-- What the sync loop uses of a mailbox session, of Gmail and of the clock, over an unknown state of
-- the world: the methods of `ICloudMailbox` and `GmailClient` that forwarder.py calls. The clock
-- counts milliseconds.
use mail_transporter.Base.{ℕ, List, Text, Exec}
use mail_transporter.Message.{FetchedMessage}

pub record Mailbox (S : Type 0) : Type 0 where
  -- `__enter__` and `__exit__`
  pub connect : Exec S (Unit {0})
  pub close : S → S
  pub require_keywords : Exec S (Unit {0})
  pub list_inbox_uids : List Text → Exec S (List ℕ)
  pub fetch_message : ℕ → Exec S FetchedMessage
  pub add_keyword : ℕ → Text → Exec S (Unit {0})
  pub move_to_trash : ℕ → Exec S (Unit {0})
  pub move_to_folder : ℕ → Text → Exec S (Unit {0})

pub record Gmail (S : Type 0) : Type 0 where
  -- the call of `gmail_factory`
  pub build : Exec S (Unit {0})
  pub ensure_label : Text → Exec S Text
  pub insert_raw : Text → List Text → Exec S Text

pub record Ports (S : Type 0) : Type 0 where
  pub mailbox : Mailbox S
  pub gmail : Gmail S
  pub clock : S → ℕ × S
