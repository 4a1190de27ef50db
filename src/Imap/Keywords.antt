-- ===== src/Imap/Keywords.antt =====
-- mailtransporter/imap_client.py: `add_keyword` and `remove_keyword`.
use mail_transporter.Base.{
  ℕ, Bool, Option, none, some, ◌++◌, List, [], ◌∷◌, map, Text, text, show_nat, text_mem, lower,
  is_ascii, lookup, ok, raised, mailbox_error, other, Exec, pure, ◌>>=◌, ◌>>◌, normalise,
  if◌then◌else◌,
}
use mail_transporter.Imap.Client.{ImapClient, Box, client, direct, remote}
use mail_transporter.Imap.Queries.{flags_of}

unfoldable pub store_failed : Text → Text → ℕ → Text → Text
unfolding text show_nat
store_failed sign keyword uid e =
    text "IMAP STORE "
    ++ (sign
        ++ (text "FLAGS "
            ++ (keyword ++ (text " failed for uid=" ++ (show_nat uid ++ (text ": " ++ e))))))

unfoldable pub not_confirmed : Text → ℕ → Text
unfolding text show_nat
not_confirmed keyword uid =
    text "IMAP server did not confirm keyword " ++ (keyword ++ (text " on uid=" ++ show_nat uid))

unfoldable pub not_cleared : Text → ℕ → Text
unfolding text show_nat
not_cleared keyword uid =
    text "IMAP server did not clear keyword " ++ (keyword ++ (text " on uid=" ++ show_nat uid))

-- `keyword.lower() in {_decode(f).lower() for f in flags}`
unfoldable pub carries : Text → List Text → Bool
unfolding text_mem lower
carries keyword flags = text_mem (lower keyword) (map lower flags)

-- `response.get(uid) or ()`
abbrev pub or_empty : Option (List Text) → List Text
or_empty none = []
or_empty (some flags) = flags

module _ {W : Type 0} (imap : ImapClient W) where
  -- `keyword.encode("ascii")`
  unfoldable pub encoded : Text → Exec (Box W) Text
  unfolding is_ascii text
  encoded keyword b = (
    (if is_ascii keyword
        then ok keyword
        else raised
            (other (text "'ascii' codec can't encode characters: ordinal not in range(128)"))),
    b,
  )

  -- The flags that the server shows for `uid` when asked again.
  unfoldable pub asked_again : ℕ → Exec (Box W) (List Text)
  unfolding remote text
  asked_again uid = do
    fetched ← remote (imap.fetch (uid ∷ []) (text "FLAGS" ∷ []))
    pure (flags_of (lookup uid fetched))

  unfoldable pub checked : ℕ → Text → List Text → Exec (Box W) (List Text)
  unfolding carries asked_again
  checked uid keyword flags = if carries keyword flags then pure flags else asked_again uid

  unfoldable pub added : ℕ → Text → Exec (Box W) (List Text)
  unfolding client encoded checked
  added uid keyword = do
    client
    atom ← encoded keyword
    response ← direct (imap.add_flags (uid ∷ []) (atom ∷ []))
    checked uid keyword (or_empty (lookup uid response))

  unfoldable pub confirmed : ℕ → Text → List Text → Exec (Box W) (Unit {0})
  unfolding carries
  confirmed uid keyword flags b = (
    (if carries keyword flags then ok tt else raised (mailbox_error (not_confirmed keyword uid))),
    b,
  )

  unfoldable pub add_keyword : ℕ → Text → Exec (Box W) (Unit {0})
  unfolding normalise added confirmed text
  add_keyword uid keyword = do
    flags ← normalise (store_failed (text "+") keyword uid) (added uid keyword)
    confirmed uid keyword flags

  -- The server did not show the flags of `uid`, or shows the keyword among them.
  unfoldable pub recheck : ℕ → Text → Option (List Text) → Exec (Box W) (List Text)
  unfolding carries asked_again
  recheck uid keyword none = asked_again uid
  recheck uid keyword (some flags) = if carries keyword flags then asked_again uid else pure flags

  unfoldable pub removed : ℕ → Text → Exec (Box W) (List Text)
  unfolding client encoded recheck
  removed uid keyword = do
    client
    atom ← encoded keyword
    response ← direct (imap.remove_flags (uid ∷ []) (atom ∷ []))
    recheck uid keyword (lookup uid response)

  unfoldable pub cleared : ℕ → Text → List Text → Exec (Box W) (Unit {0})
  unfolding carries
  cleared uid keyword flags b = (
    (if carries keyword flags then raised (mailbox_error (not_cleared keyword uid)) else ok tt),
    b,
  )

  unfoldable pub remove_keyword : ℕ → Text → Exec (Box W) (Unit {0})
  unfolding normalise removed cleared text
  remove_keyword uid keyword = do
    flags ← normalise (store_failed (text "-") keyword uid) (removed uid keyword)
    cleared uid keyword flags
