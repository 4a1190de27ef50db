-- ===== src/Imap/Folders.antt =====
-- mailtransporter/imap_client.py: `trash_folder`, `move_to_trash`, `move_to_folder`.
use mail_transporter.Base.{
  ℕ, Bool, true, false, Option, none, some, ◌++◌, List, [], ◌∷◌, Text, text, show_nat, repr, truthy,
  ok, mailbox_error, Exec, pure, raise, attempt, ◌>>=◌, ◌>>◌, normalise, if◌then◌else◌,
}
use mail_transporter.Imap.Client.{ImapClient, Box, direct, client, remote, rewrap_other}

unfoldable pub lookup_failed : Text → Text
unfolding text
lookup_failed e = text "IMAP folder lookup failed: " ++ e

unfoldable pub no_trash : Text
unfolding text
no_trash = text "Could not locate the Trash folder on the IMAP server"

unfoldable pub move_failed : ℕ → Text → Text → Text
unfolding text show_nat repr
move_failed uid folder e =
    text "IMAP move uid="
    ++ (show_nat uid ++ (text " -> " ++ (repr folder ++ (text " failed: " ++ e))))

unfoldable pub cannot_move : ℕ → Text
unfolding text show_nat
cannot_move uid =
    text "IMAP server supports neither MOVE nor UIDPLUS; refusing to move "
    ++ (text "uid=" ++ (show_nat uid ++ text " because the fallback could expunge unrelated mail"))

-- `TRASH_FOLDER_CANDIDATES`
unfoldable pub trash_candidates : List Text
unfolding text
trash_candidates = text "Deleted Messages" ∷ text "Trash" ∷ []

module _ {W : Type 0} (imap : ImapClient W) where
  -- The `for` loop over the candidates: the first folder that exists.
  unfoldable pub first_existing : List Text → Exec (Box W) (Option Text)
  unfolding remote
  first_existing [] b = (ok none, b)
  first_existing (candidate ∷ candidates) b =
      let rest = first_existing candidates in
      (remote (imap.folder_exists candidate) >>= λ there.
      if there then pure (some candidate) else rest)
        b

  unfoldable pub trash_lookup : Exec (Box W) (Option Text)
  unfolding remote first_existing trash_candidates
  trash_lookup = do
    name ← remote imap.find_trash
    if truthy name then pure name else first_existing trash_candidates

  unfoldable pub remember : Text → Exec (Box W) Text
  remember name b = (ok name, record b { trash_name = some name })

  -- `if not name: raise`, and the cache.
  unfoldable pub trash_found : Option Text → Exec (Box W) Text
  trash_found none = raise (mailbox_error no_trash)
  trash_found (some []) = raise (mailbox_error no_trash)
  trash_found (some (c ∷ name)) = remember (c ∷ name)

  unfoldable pub look_for_trash : Exec (Box W) Text
  unfolding normalise trash_lookup
  look_for_trash = do name ← normalise lookup_failed trash_lookup; trash_found name

  unfoldable pub trash_or : Option Text → Exec (Box W) Text
  trash_or none = look_for_trash
  trash_or (some []) = look_for_trash
  trash_or (some (c ∷ name)) = pure (c ∷ name)

  unfoldable pub trash_folder : Exec (Box W) Text
  trash_folder b = trash_or b.trash_name b

  unfoldable pub ensure_folder : Text → Bool → Exec (Box W) (Unit {0})
  ensure_folder folder true = pure tt
  ensure_folder folder false = direct (imap.create_folder folder)

  unfoldable pub copy_out : ℕ → Text → Exec (Box W) (Unit {0})
  unfolding text
  copy_out uid folder = do
    direct (imap.copy (uid ∷ []) folder)
    direct (imap.add_flags (uid ∷ []) (text "\\Deleted" ∷ []))
    direct (imap.uid_expunge (uid ∷ []))

  unfoldable pub without_move : ℕ → Text → Bool → Exec (Box W) (Unit {0})
  without_move uid folder true = copy_out uid folder
  without_move uid folder false = raise (mailbox_error (cannot_move uid))

  unfoldable pub with_move : ℕ → Text → Bool → Exec (Box W) (Unit {0})
  unfolding text
  with_move uid folder true = direct (imap.move (uid ∷ []) folder)
  with_move uid folder false = do
    uidplus ← direct (imap.has_capability (text "UIDPLUS"))
    without_move uid folder uidplus

  unfoldable pub move_body : ℕ → Text → Exec (Box W) (Unit {0})
  unfolding text
  move_body uid folder = do
    there ← direct (imap.folder_exists folder)
    ensure_folder folder there
    movable ← direct (imap.has_capability (text "MOVE"))
    with_move uid folder movable

  unfoldable pub move_to_folder : ℕ → Text → Exec (Box W) (Unit {0})
  unfolding client rewrap_other
  move_to_folder uid folder = do
    client
    attempt (move_body uid folder) (rewrap_other (move_failed uid folder))

  unfoldable pub move_to_trash : ℕ → Exec (Box W) (Unit {0})
  move_to_trash uid = do folder ← trash_folder; move_to_folder uid folder
