-- ===== src/Cli/Reported.antt =====
-- mailtransporter/cli.py: the exceptions that `main` reports, and what a session adds to them.
use mail_transporter.Base.{
  ℕ, ◌≤◌, Bool, true, false, ◌≡◌, Text, Raised, Result, ok, raised, mailbox_error, message_gone,
  gmail_error, abort_run, config_error, other, Exec, continue, attempt, if◌then◌else◌,
}
use mail_transporter.Forwarder.Errors.{IsMailboxError, Raises}
use mail_transporter.Imap.Client.{ImapClient, Account}
use mail_transporter.Imap.Session.{connect}
use mail_transporter.Imap.Errors.Session.{connect-Raises}
use mail_transporter.Cli.{Console, on_session, leave, within}

-- The exceptions that `main` turns into a line and the code 1.
abbrev pub IsReported : Raised → Type 0
IsReported (mailbox_error t) = Unit
IsReported (message_gone t) = Unit
IsReported (config_error t) = Unit
IsReported _ = ⊥

pub mailbox-Reported :
    {A : Type 0} (outcome : Result A) → Raises IsMailboxError outcome → Raises IsReported outcome
mailbox-Reported (ok a) h = tt
mailbox-Reported (raised (mailbox_error t)) h = tt
mailbox-Reported (raised (message_gone t)) h = tt
mailbox-Reported (raised (config_error t)) h = tt
mailbox-Reported (raised (gmail_error e)) h = h
mailbox-Reported (raised (abort_run t)) h = h
mailbox-Reported (raised (other t)) h = h

-- A code between 0 and 2 if the call returns, and a reported exception if not.
abbrev pub Reports : Result ℕ → Type 0
Reports (ok code) = code ≤ 2
Reports (raised e) = IsReported e

module _ {S A : Type 0} where
  pub continue-Reports :
      (f : A → Exec S ℕ) (outcome : Result A) (s : S)
      → Raises IsReported outcome
      → ((a : A) (s' : S) → Reports (f a s').0)
      → Reports (continue f outcome s).0
  continue-Reports f (ok a) s h k = k a s
  continue-Reports f (raised e) s h k = h

  pub continue-Reported :
      {B : Type 0} (f : A → Exec S B) (outcome : Result A) (s : S)
      → Raises IsReported outcome
      → ((a : A) (s' : S) → Raises IsReported (f a s').0)
      → Raises IsReported (continue f outcome s).0
  continue-Reported f (ok a) s h k = k a s
  continue-Reported f (raised e) s h k = h

module _ {W : Type 0} where
  pub if-Reported :
      {A : Type 0} (b : Bool) (m k : Exec (Console W) A) (c : Console W)
      → Raises IsReported (m c).0
      → Raises IsReported (k c).0
      → Raises IsReported ((if b then m else k) c).0
  if-Reported true m k c h i = h
  if-Reported false m k c h i = i

  module _ (imap : ImapClient W) (account : Account)
      (capable : (name : Text) (w : W)
        → (there : Bool) × ((imap.has_capability name w).0 ≡ ok there)) where
    entered-Reported : (c : Console W) → Raises IsReported (on_session (connect imap account) c).0
    entered-Reported c = mailbox-Reported _ (connect-Raises imap account capable c.box)

    pub within-Reported :
        {A : Type 0} (body : Exec (Console W) A) (c : Console W)
        → ((c' : Console W) → Raises IsReported (body c').0)
        → Raises IsReported (within imap account body c).0
    unfolding within leave
    within-Reported body c h =
        continue-Reported (λ (_ : Unit {0}). attempt body (leave imap account)) _ _
          (entered-Reported c) (λ _ c'. h c')

    pub within-Reports :
        (body : Exec (Console W) ℕ) (c : Console W)
        → ((c' : Console W) → Reports (body c').0)
        → Reports (within imap account body c).0
    unfolding within leave
    within-Reports body c h =
        continue-Reports (λ (_ : Unit {0}). attempt body (leave imap account)) _ _
          (entered-Reported c) (λ _ c'. h c')
