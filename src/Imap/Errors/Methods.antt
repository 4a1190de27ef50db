-- ===== src/Imap/Errors/Methods.antt =====
-- What the methods of `ICloudMailbox` raise, all together.
use mail_transporter.Base.{
  ℕ, Bool, true, ◌≡◌, refl, none, some, Text, text, Raised, ok, raised, normalise,
}
use mail_transporter.Forwarder.Errors.{IsMailboxError, Raises, MailboxRaises}
use mail_transporter.Imap.Client.{ImapClient, SelectInfo, Box, Account}
use mail_transporter.Imap.Session.{open_session, adopt, connect, idle_wait, noop}
use mail_transporter.Imap.Queries.{inbox_flags, search_keyword, list_inbox_uids}
use mail_transporter.Imap.Keywords.{remove_keyword}
use mail_transporter.Imap.Folders.{trash_folder}
use mail_transporter.Imap.Port.{icloud_mailbox}
use mail_transporter.Imap.Errors.Reading.{
  inbox_flags-Raises, search_keyword-Raises, list_inbox_uids-Raises, fetch_message-Raises,
  SendsBodies,
}
use mail_transporter.Imap.Errors.Writing.{
  add_keyword-Raises, remove_keyword-Raises, trash_folder-Raises, move_to_folder-Raises,
  move_to_trash-Raises,
}
use mail_transporter.Imap.Errors.Session.{
  require_keywords-Raises, idle_wait-Raises, noop-Raises, connect-Raises,
}

module _ {W : Type 0} (imap : ImapClient W) (account : Account) where
  -- If the client answers every question about a capability without raising, and the server sends
  -- no message with NIL for its text, then each method of the session that the sync loop calls raises
  -- `MailboxError` or its subclass only.
  pub icloud_mailbox-Raises :
      ((name : Text) (w : W) → (there : Bool) × ((imap.has_capability name w).0 ≡ ok there))
      → SendsBodies imap
      → MailboxRaises (icloud_mailbox imap account)
  icloud_mailbox-Raises cached sends = record {
    connect = connect-Raises imap account cached;
    require_keywords = require_keywords-Raises imap account;
    list_inbox_uids = λ keywords. list_inbox_uids-Raises imap account (some keywords);
    fetch_message = fetch_message-Raises imap account sends;
    add_keyword = add_keyword-Raises imap account;
    move_to_trash = move_to_trash-Raises imap account;
    move_to_folder = move_to_folder-Raises imap account;
  }

  -- Whatever the client does, `list_inbox_uids` with the keywords of the session, `inbox_flags`,
  -- `search_keyword`, `remove_keyword`, `trash_folder`, `idle_wait` and `noop` raise `MailboxError`
  -- or its subclass only.
  other_methods-Raise :
      (keyword : Text) (uid timeout : ℕ) (b : Box W)
      → Raises IsMailboxError (list_inbox_uids imap account none b).0
        × Raises IsMailboxError (inbox_flags imap account b).0
        × Raises IsMailboxError (search_keyword imap account keyword b).0
        × Raises IsMailboxError (remove_keyword imap uid keyword b).0
        × Raises IsMailboxError (trash_folder imap b).0
        × Raises IsMailboxError (idle_wait imap account timeout b).0
        × Raises IsMailboxError (noop imap account b).0
  other_methods-Raise keyword uid timeout b = (
    list_inbox_uids-Raises imap account none b,
    inbox_flags-Raises imap account b,
    search_keyword-Raises imap account keyword b,
    remove_keyword-Raises imap account uid keyword b,
    trash_folder-Raises imap account b,
    idle_wait-Raises imap account timeout b,
    noop-Raises imap account b,
  )

  -- If the connection is set up and the question for the IDLE capability raises, then `connect`
  -- raises that exception as it is, and leaves the session open.
  pub connect-capability_raises :
      (b : Box W) (info : SelectInfo) (e : Raised)
      → (open_session imap account b).0 ≡ ok info
      → (imap.has_capability (text "IDLE") (open_session imap account b).1.world).0 ≡ raised e
      → ((connect imap account b).0 ≡ raised e) × ((connect imap account b).1.is_open ≡ true)
  unfolding connect adopt normalise
  connect-capability_raises b info e opened asked =
      (rw (opened, asked) refl, rw (opened, asked) refl)
