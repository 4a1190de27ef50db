-- ===== src/Imap/Errors/Session.antt =====
-- The exceptions of `connect`, `require_keywords`, `idle_wait` and `noop`.
use mail_transporter.Base.{
  ℕ, Bool, ◌≡◌, Text, text, ok, raised, mailbox_error, pure, normalise, ltb, ◌>>=◌,
}
use mail_transporter.Forwarder.Errors.{IsMailboxError, Raises}
use mail_transporter.Imap.Client.{ImapClient, Box, Account, remote}
use mail_transporter.Imap.Session.{
  connect_failed, idle_failed, noop_failed, open_session, adopt, connect, require_keywords,
  idle_round, idle_wait, noop, no_keywords,
}
use mail_transporter.Imap.Errors.{normalise-Raises, continue-Raises, if-Raises, client-Raises}

module _ {W : Type 0} (imap : ImapClient W) (account : Account) where
  pub require_keywords-Raises :
      (b : Box W) → Raises IsMailboxError (require_keywords imap account b).0
  unfolding require_keywords
  require_keywords-Raises b =
      if-Raises b.supports_keywords (ok tt) (raised (mailbox_error no_keywords)) tt tt

  pub idle_wait-Raises :
      (timeout : ℕ) (b : Box W) → Raises IsMailboxError (idle_wait imap account timeout b).0
  unfolding idle_wait
  idle_wait-Raises timeout b =
      continue-Raises
        (λ (_ : Unit {0}).
          normalise idle_failed (idle_round imap account timeout) >>= λ n. pure (ltb 0 n))
        _ _ (client-Raises b)
        (λ _.
          continue-Raises (λ n. pure (ltb 0 n)) _ _
            (normalise-Raises idle_failed (idle_round imap account timeout) _) (λ n. tt))

  pub noop-Raises : (b : Box W) → Raises IsMailboxError (noop imap account b).0
  unfolding noop
  noop-Raises b = normalise-Raises noop_failed (remote imap.noop) b

  pub connect-Raises :
      ((name : Text) (w : W) → (there : Bool) × ((imap.has_capability name w).0 ≡ ok there))
      → (b : Box W) → Raises IsMailboxError (connect imap account b).0
  unfolding connect adopt
  connect-Raises cached b =
      let (outcome, b') = normalise connect_failed (open_session imap account) b in
      continue-Raises (adopt imap account) outcome b'
        (normalise-Raises connect_failed (open_session imap account) b)
        (λ info. rw (cached (text "IDLE") b'.world).1 tt)
