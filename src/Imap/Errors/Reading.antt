-- ===== src/Imap/Errors/Reading.antt =====
-- The exceptions of the methods that read the INBOX.
use mail_transporter.Base.{
  ℕ, Option, none, some, List, [], ◌∷◌, Text, lookup, Dict, continue, rewrap, Result, ok, raised,
  message_gone, pure, normalise,
}
use mail_transporter.Message.{FetchedMessage}
use mail_transporter.Forwarder.Errors.{IsMailboxError, Raises}
use mail_transporter.Imap.Client.{ImapClient, Item, Box, Account, client, direct, remote}
use mail_transporter.Imap.Queries.{
  search_failed, fetch_failed, gone, inbox_round, inbox_flags, search_keyword, listed, list_by,
  list_inbox_uids, message_from, message_of_body, message_at, fetch_raw, fetch_message, flags_of,
  flags_by_uid,
}
use mail_transporter.Imap.Headers.{
  EmailPackage, header_fetch_failed, header_fields, headers_by_uid, fetch_headers,
}
use mail_transporter.Imap.Errors.{normalise-Raises, continue-Raises}

-- A body that was sent is not NIL.
abbrev pub IsSent : Option (Option Text) → Type 0
IsSent none = Unit
IsSent (some none) = ⊥
IsSent (some (some raw)) = Unit

abbrev pub SentAt : Option Item → Type 0
SentAt none = Unit
SentAt (some item) = IsSent item.body

abbrev pub Sends : Result (Dict Item) → Type 0
Sends (ok found) = (uid : ℕ) → SentAt (lookup uid found)
Sends (raised e) = Unit

-- A server that sends no message with NIL for its text, which RFC 3501 would let it do.
abbrev pub SendsBodies : {W : Type 0} → ImapClient W → Type 0
SendsBodies {W = W} imap =
    (uids : List ℕ) (names : List Text) (w : W) → Sends (imap.fetch uids names w).0

module _ {W : Type 0} (imap : ImapClient W) (account : Account) where
  pub inbox_flags-Raises : (b : Box W) → Raises IsMailboxError (inbox_flags imap account b).0
  unfolding inbox_flags
  inbox_flags-Raises b =
      let (outcome, b') = normalise search_failed (inbox_round imap account) b in
      continue-Raises (λ found. pure (flags_by_uid found.1 found.0 [])) outcome b'
        (normalise-Raises search_failed (inbox_round imap account) b) (λ found. tt)

  pub search_keyword-Raises :
      (keyword : Text) (b : Box W) → Raises IsMailboxError (search_keyword imap account keyword b).0
  unfolding search_keyword
  search_keyword-Raises keyword b =
      let (outcome, b') = inbox_flags imap account b in
      continue-Raises _ outcome b' (inbox_flags-Raises b) (λ d. tt)

  pub listed-Raises :
      (keywords : List Text) (outcome : Result (List ℕ)) (b : Box W)
      → Raises IsMailboxError (listed imap account keywords outcome b).0
  unfolding listed
  listed-Raises keywords (ok uids) b = tt
  listed-Raises [] (raised e) b = tt
  listed-Raises (k ∷ keywords) (raised e) b =
      let (outcome, b') = inbox_flags imap account b in
      continue-Raises _ outcome b' (inbox_flags-Raises b) (λ d. tt)

  pub list_inbox_uids-Raises :
      (keywords : Option (List Text)) (b : Box W)
      → Raises IsMailboxError (list_inbox_uids imap account keywords b).0
  unfolding list_inbox_uids list_by
  list_inbox_uids-Raises none b = listed-Raises account.skip_keywords _ _
  list_inbox_uids-Raises (some keywords) b = listed-Raises keywords _ _

  message_from-Raises :
      (uid : ℕ) (item : Option Item)
      → SentAt item
      → Raises IsMailboxError (message_from imap account uid item)
  unfolding message_from message_of_body
  message_from-Raises uid none h = tt
  message_from-Raises uid (some item) h = body-Raises item.body h
    where
      body-Raises :
          (body : Option (Option Text))
          → IsSent body
          → Raises {A = FetchedMessage} IsMailboxError (elim body [
            | none ↦ raised (message_gone (gone uid))
            | some raw ↦ message_of_body imap account uid (flags_of (some item)) raw
          ])
      body-Raises none h = tt
      body-Raises (some none) h = h
      body-Raises (some (some raw)) h = tt

  module _ (sends : SendsBodies imap) where
    continue-Sends :
        (uids : List ℕ) (names : List Text) (outcome : Result (Unit {0})) (b : Box W)
        → Sends (continue (λ (_ : Unit {0}). direct (imap.fetch uids names)) outcome b).0
    continue-Sends uids names (ok _) b = sends uids names b.world
    continue-Sends uids names (raised e) b = tt

    rewrap-Sends :
        (f : Text → Text) (outcome : Result (Dict Item)) (b : Box W)
        → Sends outcome
        → Sends (rewrap f outcome b).0
    unfolding rewrap
    rewrap-Sends f (ok found) b h = h
    rewrap-Sends f (raised e) b h = tt

    fetched-Sends :
        (uid : ℕ) (b : Box W)
        → Sends (normalise (fetch_failed uid) (fetch_raw imap account uid) b).0
    unfolding normalise fetch_raw remote
    fetched-Sends uid b =
        rewrap-Sends (fetch_failed uid) _ _ (continue-Sends (uid ∷ []) _ (client b).0 b)

    message_at-Raises :
        (uid : ℕ) (outcome : Result (Dict Item)) (b : Box W)
        → Sends outcome
        → Raises IsMailboxError outcome
        → Raises IsMailboxError (continue (message_at imap account uid) outcome b).0
    unfolding message_at
    message_at-Raises uid (ok found) b h k = message_from-Raises uid (lookup uid found) (h uid)
    message_at-Raises uid (raised e) b h k = k

    pub fetch_message-Raises :
        (uid : ℕ) (b : Box W) → Raises IsMailboxError (fetch_message imap account uid b).0
    unfolding fetch_message
    fetch_message-Raises uid b =
        message_at-Raises uid _ _ (fetched-Sends uid b)
          (normalise-Raises (fetch_failed uid) (fetch_raw imap account uid) b)

  pub fetch_headers-Raises :
      (email : EmailPackage) (uids : List ℕ) (b : Box W)
      → Raises IsMailboxError (fetch_headers email imap account uids b).0
  unfolding fetch_headers
  fetch_headers-Raises email [] b = tt
  fetch_headers-Raises email (uid ∷ uids) b =
      continue-Raises (λ fetched. pure (headers_by_uid email fetched (uid ∷ uids) [])) _ _
        (normalise-Raises header_fetch_failed
          (remote (imap.fetch (uid ∷ uids) (header_fields ∷ []))) b)
        (λ fetched. tt)
