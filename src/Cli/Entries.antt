-- ===== src/Cli/Entries.antt =====
-- mailtransporter/cli.py: `_collect`.
use mail_transporter.Base.{
  ℕ, Bool, ◌||◌, Option, none, some, List, [], ◌∷◌, map, Text, text_eq, text_mem, lower, first, leb,
  Dict, lookup, Exec, pure, ◌>>=◌, if◌then◌else◌,
}
use mail_transporter.Imap.Client.{ImapClient, Box, Account}
use mail_transporter.Imap.Queries.{inbox_flags}
use mail_transporter.Imap.Headers.{EmailPackage, Headers, fetch_headers}
use mail_transporter.Config.Keywords.{Keywords}

-- One dict of the list; the headers are what `headers.get(uid, {})` adds to it.
pub record Entry : Type 0 where
  pub uid : ℕ
  pub keyword : Text
  pub in_gmail : Bool
  pub headers : Option Headers

-- The first of the two keywords whose lower case is among those of the flags.
unfoldable pub quarantine_keyword : Keywords → List Text → Option Text
unfolding lower text_mem
quarantine_keyword keywords flags =
    first (λ k. text_mem (lower k) (map lower flags)) (keywords.failed ∷ keywords.unverified ∷ [])

unfoldable pub is_in_gmail : Keywords → List Text → Text → Bool
unfolding lower text_mem text_eq
is_in_gmail keywords flags keyword =
    text_eq keyword keywords.unverified || text_mem (lower keywords.inserted) (map lower flags)

unfoldable pub entry_of : Keywords → ℕ → List Text → Option Text → Option Entry
unfolding is_in_gmail
entry_of keywords uid flags none = none
entry_of keywords uid flags (some keyword) = some (record {
  uid = uid;
  keyword = keyword;
  in_gmail = is_in_gmail keywords flags keyword;
  headers = none;
})

abbrev pub push : Option Entry → List Entry → List Entry
push none entries = entries
push (some entry) entries = entry ∷ entries

-- The first loop.
unfoldable pub entries_of : Keywords → Dict (List Text) → List Entry
unfolding quarantine_keyword entry_of
entries_of keywords [] = []
entries_of keywords ((uid, flags) ∷ d) =
    push (entry_of keywords uid flags (quarantine_keyword keywords flags)) (entries_of keywords d)

abbrev pub uid_of : Entry → ℕ
uid_of entry = entry.uid

-- `entry.update(headers.get(entry["uid"], {}))`
abbrev pub with_headers : Dict Headers → Entry → Entry
with_headers headers entry = record entry { headers = lookup entry.uid headers }

-- `entries.sort(key=…)`, which keeps the order of entries with one UID.
unfoldable pub place : Entry → List Entry → List Entry
place entry [] = entry ∷ []
place entry (e ∷ entries) =
    let rest = place entry entries in if leb entry.uid e.uid then entry ∷ e ∷ entries else e ∷ rest

unfoldable pub sorted_by_uid : List Entry → List Entry
unfolding place
sorted_by_uid [] = []
sorted_by_uid (entry ∷ entries) = place entry (sorted_by_uid entries)

module _ {W : Type 0} (email : EmailPackage) (imap : ImapClient W) (account : Account) where
  unfoldable pub completed : List Entry → Exec (Box W) (List Entry)
  unfolding sorted_by_uid
  completed entries = do
    headers ← fetch_headers email imap account (map uid_of entries)
    pure (sorted_by_uid (map (with_headers headers) entries))

  -- `_collect`
  unfoldable pub collect : Keywords → Exec (Box W) (List Entry)
  unfolding entries_of completed
  collect keywords = do flags ← inbox_flags imap account; completed (entries_of keywords flags)
