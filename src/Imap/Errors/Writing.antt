-- ===== src/Imap/Errors/Writing.antt =====
-- The exceptions of the methods that change keywords and move messages.
use mail_transporter.Base.{
  ℕ, Option, none, some, List, [], ◌∷◌, Text, text, ok, raised, mailbox_error, attempt, normalise,
}
use mail_transporter.Forwarder.Errors.{IsMailboxError, Raises}
use mail_transporter.Imap.Client.{ImapClient, Box, Account, rewrap_other}
use mail_transporter.Imap.Keywords.{
  store_failed, added, confirmed, add_keyword, removed, cleared, remove_keyword, carries,
}
use mail_transporter.Imap.Folders.{
  lookup_failed, move_failed, trash_lookup, trash_found, remember, look_for_trash, trash_or,
  trash_folder, move_body, move_to_folder, move_to_trash,
}
use mail_transporter.Imap.Errors.{
  normalise-Raises, rewrap_other-Raises, continue-Raises, if-Raises, client-Raises,
}

module _ {W : Type 0} (imap : ImapClient W) (account : Account) where
  pub confirmed-Raises :
      (uid : ℕ) (keyword : Text) (flags : List Text) (b : Box W)
      → Raises IsMailboxError (confirmed imap uid keyword flags b).0
  unfolding confirmed
  confirmed-Raises uid keyword flags b =
      if-Raises (carries keyword flags) (ok tt) (raised (mailbox_error _)) tt tt

  pub add_keyword-Raises :
      (uid : ℕ) (keyword : Text) (b : Box W)
      → Raises IsMailboxError (add_keyword imap uid keyword b).0
  unfolding add_keyword
  add_keyword-Raises uid keyword b =
      let (outcome, b') =
        normalise (store_failed (text "+") keyword uid) (added imap uid keyword) b in
      continue-Raises (confirmed imap uid keyword) outcome b'
        (normalise-Raises (store_failed (text "+") keyword uid) (added imap uid keyword) b)
        (λ flags. confirmed-Raises uid keyword flags b')

  pub cleared-Raises :
      (uid : ℕ) (keyword : Text) (flags : List Text) (b : Box W)
      → Raises IsMailboxError (cleared imap uid keyword flags b).0
  unfolding cleared
  cleared-Raises uid keyword flags b =
      if-Raises (carries keyword flags) (raised (mailbox_error _)) (ok tt) tt tt

  pub remove_keyword-Raises :
      (uid : ℕ) (keyword : Text) (b : Box W)
      → Raises IsMailboxError (remove_keyword imap uid keyword b).0
  unfolding remove_keyword
  remove_keyword-Raises uid keyword b =
      let (outcome, b') =
        normalise (store_failed (text "-") keyword uid) (removed imap uid keyword) b in
      continue-Raises (cleared imap uid keyword) outcome b'
        (normalise-Raises (store_failed (text "-") keyword uid) (removed imap uid keyword) b)
        (λ flags. cleared-Raises uid keyword flags b')

  pub trash_found-Raises :
      (name : Option Text) (b : Box W) → Raises IsMailboxError (trash_found imap name b).0
  unfolding trash_found remember
  trash_found-Raises none b = tt
  trash_found-Raises (some []) b = tt
  trash_found-Raises (some (c ∷ name)) b = tt

  pub look_for_trash-Raises : (b : Box W) → Raises IsMailboxError (look_for_trash imap b).0
  unfolding look_for_trash
  look_for_trash-Raises b =
      continue-Raises (trash_found imap) _ _ (normalise-Raises lookup_failed (trash_lookup imap) b)
        (λ name. trash_found-Raises name _)

  pub trash_or-Raises :
      (name : Option Text) (b : Box W) → Raises IsMailboxError (trash_or imap name b).0
  unfolding trash_or
  trash_or-Raises none b = look_for_trash-Raises b
  trash_or-Raises (some []) b = look_for_trash-Raises b
  trash_or-Raises (some (c ∷ name)) b = tt

  pub trash_folder-Raises : (b : Box W) → Raises IsMailboxError (trash_folder imap b).0
  unfolding trash_folder
  trash_folder-Raises b = trash_or-Raises b.trash_name b

  pub move_to_folder-Raises :
      (uid : ℕ) (folder : Text) (b : Box W)
      → Raises IsMailboxError (move_to_folder imap uid folder b).0
  unfolding move_to_folder
  move_to_folder-Raises uid folder b =
      continue-Raises
        (λ (_ : Unit {0}).
          attempt (move_body imap uid folder) (rewrap_other (move_failed uid folder)))
        _ _ (client-Raises b) (λ _. rewrap_other-Raises (move_failed uid folder) _ _)

  pub move_to_trash-Raises :
      (uid : ℕ) (b : Box W) → Raises IsMailboxError (move_to_trash imap uid b).0
  unfolding move_to_trash
  move_to_trash-Raises uid b =
      continue-Raises (move_to_folder imap uid) _ _ (trash_folder-Raises b)
        (λ folder. move_to_folder-Raises uid folder _)
