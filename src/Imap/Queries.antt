-- ===== src/Imap/Queries.antt =====
-- mailtransporter/imap_client.py: `list_inbox_uids`, `inbox_flags`, `search_keyword`,
-- `fetch_message`.
use mail_transporter.Base.{
  ℕ, Bool, not, Option, none, some, ◌++◌, List, [], ◌∷◌, Text, text, show_nat, Dict, lookup, insert,
  sorted, Result, ok, raised, mailbox_error, message_gone, other, message_of, Exec, pure, raise,
  attempt, ◌>>=◌, normalise, if◌then◌else◌,
}
use mail_transporter.Message.{FetchedMessage}
use mail_transporter.Imap.Client.{ImapClient, Item, Box, Account, remote, matches}

unfoldable pub search_failed : Text → Text
unfolding text
search_failed e = text "IMAP search failed: " ++ e

unfoldable pub fetch_failed : ℕ → Text → Text
unfolding text show_nat
fetch_failed uid e = text "IMAP fetch failed for uid=" ++ (show_nat uid ++ (text ": " ++ e))

unfoldable pub gone : ℕ → Text
unfolding text show_nat
gone uid = text "uid=" ++ (show_nat uid ++ text " is no longer in INBOX")

-- `(item or {}).get(b"FLAGS", ())`
abbrev pub flags_of : Option Item → List Text
flags_of none = []
flags_of (some item) = elim item.flags [ none ↦ [] | some flags ↦ flags ]

-- `["NOT", "DELETED"]`, and `["NOT", "KEYWORD", k]` for each keyword
unfoldable pub exclude : List Text → List Text
unfolding text
exclude [] = []
exclude (k ∷ keywords) = text "NOT" ∷ text "KEYWORD" ∷ k ∷ exclude keywords

unfoldable pub criteria : List Text → List Text
unfolding text exclude
criteria keywords = text "NOT" ∷ text "DELETED" ∷ exclude keywords

-- The dict comprehension of `inbox_flags`.
unfoldable pub flags_by_uid : Dict Item → List ℕ → Dict (List Text) → Dict (List Text)
flags_by_uid fetched [] d = d
flags_by_uid fetched (uid ∷ uids) d =
    flags_by_uid fetched uids (insert uid (flags_of (lookup uid fetched)) d)

-- `[uid for uid, flags in ….items() if test(flags)]`
unfoldable pub uids_where : (List Text → Bool) → Dict (List Text) → List ℕ
uids_where test [] = []
uids_where test ((uid, flags) ∷ d) =
    let rest = uids_where test d in if test flags then uid ∷ rest else rest

module _ {W : Type 0} (imap : ImapClient W) (account : Account) where
  -- `self.client.fetch(uids, [b"FLAGS"]) if uids else {}`
  unfoldable pub fetch_flags : List ℕ → Exec (Box W) (Dict Item)
  unfolding remote text
  fetch_flags [] = pure []
  fetch_flags (uid ∷ uids) = remote (imap.fetch (uid ∷ uids) (text "FLAGS" ∷ []))

  unfoldable pub inbox_round : Exec (Box W) (List ℕ × Dict Item)
  unfolding remote criteria
  inbox_round = do
    found ← remote (imap.search (criteria []))
    fetched ← fetch_flags (sorted found)
    pure (sorted found, fetched)

  unfoldable pub inbox_flags : Exec (Box W) (Dict (List Text))
  unfolding normalise
  inbox_flags = do
    (uids, fetched) ← normalise search_failed inbox_round
    pure (flags_by_uid fetched uids [])

  unfoldable pub search_keyword : Text → Exec (Box W) (List ℕ)
  search_keyword keyword = do
    d ← inbox_flags
    pure (uids_where (λ flags. matches flags (keyword ∷ [])) d)

  -- The outcome of the search with the exclusions.
  unfoldable pub listed : List Text → Result (List ℕ) → Exec (Box W) (List ℕ)
  listed keywords (ok uids) = pure (sorted uids)
  listed [] (raised e) = raise (mailbox_error (search_failed (message_of e)))
  listed (k ∷ keywords) (raised e) = do
    d ← inbox_flags
    pure (uids_where (λ flags. not (matches flags (k ∷ keywords))) d)

  unfoldable pub list_by : List Text → Exec (Box W) (List ℕ)
  unfolding remote
  list_by keywords = attempt (remote (imap.search (criteria keywords))) (listed keywords)

  unfoldable pub list_inbox_uids : Option (List Text) → Exec (Box W) (List ℕ)
  list_inbox_uids none = list_by account.skip_keywords
  list_inbox_uids (some keywords) = list_by keywords

  -- `bytes(…)` of what stands under `BODY[]`
  unfoldable pub message_of_body : ℕ → List Text → Option Text → Result FetchedMessage
  unfolding text
  message_of_body uid flags none = raised (other (text "cannot convert 'NoneType' object to bytes"))
  message_of_body uid flags (some raw) = ok (record { uid = uid; raw = raw; flags = flags })

  unfoldable pub message_from : ℕ → Option Item → Result FetchedMessage
  unfolding message_of_body
  message_from uid none = raised (message_gone (gone uid))
  message_from uid (some item) = elim item.body [
    | none ↦ raised (message_gone (gone uid))
    | some raw ↦ message_of_body uid (flags_of (some item)) raw
  ]

  unfoldable pub fetch_raw : ℕ → Exec (Box W) (Dict Item)
  unfolding remote text
  fetch_raw uid = remote (imap.fetch (uid ∷ []) (text "BODY.PEEK[]" ∷ text "FLAGS" ∷ []))

  unfoldable pub message_at : ℕ → Dict Item → Exec (Box W) FetchedMessage
  unfolding message_from
  message_at uid fetched b = (message_from uid (lookup uid fetched), b)

  unfoldable pub fetch_message : ℕ → Exec (Box W) FetchedMessage
  unfolding normalise fetch_raw message_at
  fetch_message uid = do
    fetched ← normalise (fetch_failed uid) (fetch_raw uid)
    message_at uid fetched
