-- ===== src/Imap/Session.antt =====
-- mailtransporter/imap_client.py: `connect`, `require_keywords`, `close`, `idle_wait`, `noop`.
use mail_transporter.Base.{
  ℕ, Bool, true, false, ◌++◌, Text, text, text_mem, Result, ok, raised, mailbox_error, Exec, pure,
  modify, attempt, ◌>>=◌, ◌>>◌, normalise, ltb, if◌then◌else◌,
}
use mail_transporter.Imap.Client.{ImapClient, SelectInfo, Box, Account, direct, client, remote}

unfoldable pub connect_failed : Text → Text
unfolding text
connect_failed e = text "IMAP connect failed: " ++ e

unfoldable pub idle_failed : Text → Text
unfolding text
idle_failed e = text "IMAP IDLE failed: " ++ e

unfoldable pub noop_failed : Text → Text
unfolding text
noop_failed e = text "IMAP NOOP failed: " ++ e

unfoldable pub no_keywords : Text
unfolding text
no_keywords =
    text "IMAP server does not advertise support for custom keywords "
    ++ text "(PERMANENTFLAGS lacks \\*); refusing to forward"

module _ {W : Type 0} (imap : ImapClient W) (account : Account) where
  unfoldable pub open_session : Exec (Box W) SelectInfo
  open_session = do
    direct imap.create
    direct imap.login
    direct (imap.select_inbox account.readonly)

  -- The statements below the `try`. The capability is asked for outside of it.
  unfoldable pub adopt : SelectInfo → Exec (Box W) (Unit {0})
  unfolding text text_mem
  adopt info = do
    modify (λ b. record b { is_open = true; uidvalidity = info.uidvalidity })
    idle ← direct (imap.has_capability (text "IDLE"))
    modify (λ b. record b {
      supports_idle = idle;
      supports_keywords = text_mem (text "\\*") info.permanent_flags;
    })

  unfoldable pub connect : Exec (Box W) (Unit {0})
  unfolding normalise
  connect = do info ← normalise connect_failed open_session; adopt info

  unfoldable pub require_keywords : Exec (Box W) (Unit {0})
  require_keywords b =
      (if b.supports_keywords then ok tt else raised (mailbox_error no_keywords), b)

  -- `except Exception` twice: what is raised is dropped.
  unfoldable pub after_logout : Result (Unit {0}) → Box W → Box W
  after_logout (ok _) b = b
  after_logout (raised _) b = (direct imap.shutdown b).1

  unfoldable pub close : Box W → Box W
  close b =
      let quiet = record b { is_open = false } in
      let (outcome, b') = direct imap.logout quiet in
      if b.is_open then after_logout outcome b' else quiet

  -- `finally: client.idle_done()`. An exception of `idle_done` replaces that of the body.
  unfoldable pub idle_over : Result ℕ → Exec (Box W) ℕ
  idle_over outcome = do direct imap.idle_done; λ b. (outcome, b)

  unfoldable pub idle_round : ℕ → Exec (Box W) ℕ
  idle_round timeout = do direct imap.idle; attempt (direct (imap.idle_check timeout)) idle_over

  unfoldable pub idle_wait : ℕ → Exec (Box W) Bool
  unfolding client normalise
  idle_wait timeout = do
    client
    responses ← normalise idle_failed (idle_round timeout)
    pure (ltb 0 responses)

  unfoldable pub noop : Exec (Box W) (Unit {0})
  unfolding remote normalise
  noop = normalise noop_failed (remote imap.noop)
