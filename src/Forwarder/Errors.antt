-- ===== src/Forwarder/Errors.antt =====
-- The exceptions of a run: what `Forwarder.run` catches, and what escapes it.
pub mod Process
pub mod Loop
pub mod Total
use mail_transporter.Base.{
  ℕ, ◌≡◌, List, Text, Raised, Result, ok, raised, mailbox_error, message_gone, gmail_error,
  abort_run, config_error, other,
}
use mail_transporter.Ports.{Mailbox, Gmail, Ports}

-- `MailboxError` and its subclass.
abbrev pub IsMailboxError : Raised → Type 0
IsMailboxError (mailbox_error t) = Unit
IsMailboxError (message_gone t) = Unit
IsMailboxError _ = ⊥

abbrev pub IsGmailError : Raised → Type 0
IsGmailError (gmail_error e) = Unit
IsGmailError _ = ⊥

-- `(MailboxError, GmailError)`
abbrev pub IsServiceError : Raised → Type 0
IsServiceError (mailbox_error t) = Unit
IsServiceError (message_gone t) = Unit
IsServiceError (gmail_error e) = Unit
IsServiceError _ = ⊥

abbrev pub IsAbort : Raised → Type 0
IsAbort (abort_run t) = Unit
IsAbort _ = ⊥

abbrev pub Raises {ℓ} : {A : Type ℓ} → (Raised → Type 0) → Result A → Type 0
Raises P (ok a) = Unit
Raises P (raised e) = P e

-- "All methods raise MailboxError on failure"
pub record MailboxRaises {S : Type 0} (mailbox : Mailbox S) : Type 0 where
  pub connect : (s : S) → Raises IsMailboxError (mailbox.connect s).0
  pub require_keywords : (s : S) → Raises IsMailboxError (mailbox.require_keywords s).0
  pub list_inbox_uids :
      (keywords : List Text) (s : S) → Raises IsMailboxError (mailbox.list_inbox_uids keywords s).0
  pub fetch_message : (uid : ℕ) (s : S) → Raises IsMailboxError (mailbox.fetch_message uid s).0
  pub add_keyword :
      (uid : ℕ) (keyword : Text) (s : S)
      → Raises IsMailboxError (mailbox.add_keyword uid keyword s).0
  pub move_to_trash : (uid : ℕ) (s : S) → Raises IsMailboxError (mailbox.move_to_trash uid s).0
  pub move_to_folder :
      (uid : ℕ) (folder : Text) (s : S)
      → Raises IsMailboxError (mailbox.move_to_folder uid folder s).0

-- The methods of `GmailClient` raise `GmailError`.
pub record GmailRaises {S : Type 0} (gmail : Gmail S) : Type 0 where
  pub build : (s : S) → Raises IsGmailError (gmail.build s).0
  pub ensure_label : (name : Text) (s : S) → Raises IsGmailError (gmail.ensure_label name s).0
  pub insert_raw :
      (raw : Text) (labels : List Text) (s : S)
      → Raises IsGmailError (gmail.insert_raw raw labels s).0

pub record IsDeclared {S : Type 0} (ports : Ports S) : Type 0 where
  pub of_mailbox : MailboxRaises ports.mailbox
  pub open of_mailbox use *
  pub of_gmail : GmailRaises ports.gmail
  pub open of_gmail use *
