-- ===== src/Imap/Errors.antt =====
-- Every method of `ICloudMailbox` raises `MailboxError` only.
pub mod Reading
pub mod Writing
pub mod Session
pub mod Methods
use mail_transporter.Base.{
  ℕ, Bool, true, false, ◌≡◌, refl, Option, none, some, List, [], ◌∷◌, Text, text, lookup, Raised,
  Result, ok, raised, mailbox_error, message_gone, Exec, continue, attempt, pure, normalise, rewrap,
  ltb, if◌then◌else◌, ◌>>=◌,
}
use mail_transporter.Message.{FetchedMessage}
use mail_transporter.Forwarder.Errors.{IsMailboxError, Raises, MailboxRaises}
use mail_transporter.Imap.Client.{
  ImapClient, SelectInfo, Item, Box, Account, client, not_connected, remote, rewrap_other,
}
use mail_transporter.Imap.Session.{
  connect_failed, idle_failed, noop_failed, open_session, adopt, connect, require_keywords,
  idle_round, idle_wait, noop, no_keywords,
}
use mail_transporter.Imap.Queries.{
  search_failed, fetch_failed, gone, inbox_round, inbox_flags, search_keyword, listed, list_by,
  list_inbox_uids, message_from, message_at, fetch_raw, fetch_message, flags_of, flags_by_uid,
}
use mail_transporter.Imap.Keywords.{
  store_failed, added, confirmed, add_keyword, removed, cleared, remove_keyword, carries,
}
use mail_transporter.Imap.Folders.{
  lookup_failed, move_failed, trash_lookup, trash_found, remember, look_for_trash, trash_or,
  trash_folder, move_body, move_to_folder, move_to_trash,
}
use mail_transporter.Imap.Port.{icloud_mailbox}

pub normalise-Raises :
    {S A : Type 0} (f : Text → Text) (m : Exec S A) (s : S)
    → Raises IsMailboxError (normalise f m s).0
unfolding normalise
normalise-Raises {A = A} f m s = rewrapped-Raises (m s).0
  where
    rewrapped-Raises : (outcome : Result A) → Raises IsMailboxError (rewrap f outcome (m s).1).0
    rewrapped-Raises (ok a) = tt
    rewrapped-Raises (raised e) = tt

pub rewrap_other-Raises :
    {S A : Type 0} (f : Text → Text) (outcome : Result A) (s : S)
    → Raises IsMailboxError (rewrap_other f outcome s).0
unfolding rewrap_other
rewrap_other-Raises f (ok a) s = tt
rewrap_other-Raises f (raised (mailbox_error t)) s = tt
rewrap_other-Raises f (raised (message_gone t)) s = tt
rewrap_other-Raises f (raised _) s = tt

pub continue-Raises :
    {S A B : Type 0} (f : A → Exec S B) (outcome : Result A) (s : S)
    → Raises IsMailboxError outcome
    → ((a : A) → Raises IsMailboxError (f a s).0)
    → Raises IsMailboxError (continue f outcome s).0
continue-Raises f (ok a) s h k = k a
continue-Raises f (raised e) s h k = h

pub if-Raises :
    {A : Type 0} (b : Bool) (r r' : Result A)
    → Raises IsMailboxError r
    → Raises IsMailboxError r'
    → Raises IsMailboxError (if b then r else r')
if-Raises true r r' h k = h
if-Raises false r r' h k = k

pub client-Raises : {W : Type 0} (b : Box W) → Raises IsMailboxError (client b).0
unfolding client not_connected
client-Raises b = if-Raises b.is_open (ok tt) (raised not_connected) tt tt
