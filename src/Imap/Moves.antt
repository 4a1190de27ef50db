-- ===== src/Imap/Moves.antt =====
-- What `move_to_folder` does to the mailbox, call by call.
use mail_transporter.Base.{
  ℕ, Bool, true, false, ◌≡◌, refl, ◌⊎◌, inl, inr, List, [], ◌∷◌, Text, text, Dict, Result, ok,
  raised, mailbox_error, message_gone, Exec, continue, attempt, ◌>>◌, ◌>>=◌,
}
use mail_transporter.Imap.Client.{ImapClient, Box, direct, client, rewrap_other, not_connected}
use mail_transporter.Imap.Folders.{
  ensure_folder, copy_out, without_move, with_move, move_body, move_to_folder, move_failed,
}

-- A call that changes the mailbox, with its outcome.
pub data Command : Type 0 where
  moved : List ℕ → Text → Result (Unit {0}) → Command
  copied : List ℕ → Text → Result (Unit {0}) → Command
  flagged : List ℕ → List Text → Result (Dict (List Text)) → Command
  expunged : List ℕ → Result (Unit {0}) → Command

-- The latest command stands first.
pub record Logged (W : Type 0) : Type 0 where
  pub world : W
  pub commands : List Command

abbrev quiet : {W A : Type 0} → Exec W A → Exec (Logged W) A
quiet m w = ((m w.world).0, record w { world = (m w.world).1 })

abbrev noted : {W A : Type 0} → (Result A → Command) → Exec W A → Exec (Logged W) A
noted note m w =
    ((m w.world).0, record { world = (m w.world).1; commands = note (m w.world).0 ∷ w.commands })

-- The client with its commands written down.
abbrev pub logged : {W : Type 0} → ImapClient W → ImapClient (Logged W)
logged imap = record {
  create = quiet imap.create;
  login = quiet imap.login;
  select_inbox = λ readonly. quiet (imap.select_inbox readonly);
  logout = quiet imap.logout;
  shutdown = quiet imap.shutdown;
  has_capability = λ name. quiet (imap.has_capability name);
  search = λ criteria. quiet (imap.search criteria);
  fetch = λ uids keys. quiet (imap.fetch uids keys);
  add_flags = λ uids atoms. noted (flagged uids atoms) (imap.add_flags uids atoms);
  remove_flags = λ uids atoms. quiet (imap.remove_flags uids atoms);
  find_trash = quiet imap.find_trash;
  folder_exists = λ folder. quiet (imap.folder_exists folder);
  create_folder = λ folder. quiet (imap.create_folder folder);
  move = λ uids folder. noted (moved uids folder) (imap.move uids folder);
  copy = λ uids folder. noted (copied uids folder) (imap.copy uids folder);
  uid_expunge = λ uids. noted (expunged uids) (imap.uid_expunge uids);
  idle = quiet imap.idle;
  idle_check = λ timeout. quiet (imap.idle_check timeout);
  idle_done = quiet imap.idle_done;
  noop = quiet imap.noop;
}

module _ (uid : ℕ) (folder : Text) where
  -- Only the message itself is named, and it is flagged \Deleted only when its copy has been made,
  -- and expunged only when it has been flagged.
  abbrev pub Allowed : Command → List Command → Type 0
  Allowed (moved uids target outcome) cs = (uids ≡ uid ∷ []) × (target ≡ folder)
  Allowed (copied uids target outcome) cs = (uids ≡ uid ∷ []) × (target ≡ folder)
  Allowed (flagged uids atoms outcome) cs =
      (uids ≡ uid ∷ [])
      × (atoms ≡ text "\\Deleted" ∷ [])
      × ((rest : List Command) × (cs ≡ copied (uid ∷ []) folder (ok tt) ∷ rest))
  Allowed (expunged uids outcome) cs =
      (uids ≡ uid ∷ [])
      × ((reply : Dict (List Text)) × (rest : List Command) × (cs
            ≡ flagged (uid ∷ []) (text "\\Deleted" ∷ []) (ok reply)
              ∷ copied (uid ∷ []) folder (ok tt)
              ∷ rest))

  abbrev pub IsOrderly : List Command → Type 0
  IsOrderly [] = Unit
  IsOrderly (c ∷ cs) = Allowed c cs × IsOrderly cs

  -- The message has left the INBOX for the folder.
  abbrev pub IsMoved : List Command → Type 0
  IsMoved cs =
      ((rest : List Command) × (cs ≡ moved (uid ∷ []) folder (ok tt) ∷ rest))
      ⊎ ((reply : Dict (List Text)) × (rest : List Command) × (cs
            ≡ expunged (uid ∷ []) (ok tt)
              ∷ flagged (uid ∷ []) (text "\\Deleted" ∷ []) (ok reply)
              ∷ copied (uid ∷ []) folder (ok tt)
              ∷ rest))

  abbrev pub Moves : {W : Type 0} → Result (Unit {0}) × Box (Logged W) → Type 0
  Moves (outcome, b) = IsOrderly b.world.commands × (outcome ≡ ok tt → IsMoved b.world.commands)

  module _ {W : Type 0} (imap : ImapClient W) where
    continue-Moves :
        {A : Type 0} (f : A → Exec (Box (Logged W)) Unit) (outcome : Result A) (b : Box (Logged W))
        → IsOrderly b.world.commands
        → ((a : A) → outcome ≡ ok a → Moves (f a b))
        → Moves (continue f outcome b)
    continue-Moves f (ok a) b h k = k a refl
    continue-Moves f (raised e) b h k = (h, λ e. cc)

    copy_out-Moves :
        (b : Box (Logged W))
        → IsOrderly b.world.commands
        → Moves (copy_out (logged imap) uid folder b)
    unfolding copy_out
    copy_out-Moves b h =
        let (copies, b1) = direct ((logged imap).copy (uid ∷ []) folder) b in
        let (flags, b2) = direct ((logged imap).add_flags (uid ∷ []) (text "\\Deleted" ∷ [])) b1 in
        continue-Moves
          (λ (_ : Unit {0}).
            direct ((logged imap).add_flags (uid ∷ []) (text "\\Deleted" ∷ []))
            >> direct ((logged imap).uid_expunge (uid ∷ [])))
          copies b1 ((refl, refl), h)
          λ done copy_ok.
            let flag_allowed : Allowed (flagged (uid ∷ []) (text "\\Deleted" ∷ []) flags)
                b1.world.commands =
              (refl, refl, (b.world.commands, rw copy_ok refl)) in
            continue-Moves (λ (_ : Dict (List Text)). direct ((logged imap).uid_expunge (uid ∷ [])))
              flags b2 (flag_allowed, ((refl, refl), h))
              λ reply flag_ok. (
                (
                  (refl, (reply, b.world.commands, rw (copy_ok, flag_ok) refl)),
                  (flag_allowed, ((refl, refl), h)),
                ),
                λ expunge_ok. inr (reply, b.world.commands, rw (copy_ok, flag_ok, expunge_ok) refl),
              )

    without_move-Moves :
        (uidplus : Bool) (b : Box (Logged W))
        → IsOrderly b.world.commands
        → Moves (without_move (logged imap) uid folder uidplus b)
    unfolding without_move
    without_move-Moves true b h = copy_out-Moves b h
    without_move-Moves false b h = (h, λ e. cc)

    with_move-Moves :
        (movable : Bool) (b : Box (Logged W))
        → IsOrderly b.world.commands
        → Moves (with_move (logged imap) uid folder movable b)
    unfolding with_move
    with_move-Moves true b h = (((refl, refl), h), λ e. inl (b.world.commands, rw e refl))
    with_move-Moves false b h =
        let (outcome, b') = direct ((logged imap).has_capability (text "UIDPLUS")) b in
        continue-Moves (without_move (logged imap) uid folder) outcome b' h
          λ uidplus asked. without_move-Moves uidplus b' h

    ensure_folder-IsOrderly :
        (there : Bool) (b : Box (Logged W))
        → IsOrderly b.world.commands
        → IsOrderly (ensure_folder (logged imap) folder there b).1.world.commands
    unfolding ensure_folder
    ensure_folder-IsOrderly true b h = h
    ensure_folder-IsOrderly false b h = h

    move_body-Moves :
        (b : Box (Logged W))
        → IsOrderly b.world.commands
        → Moves (move_body (logged imap) uid folder b)
    unfolding move_body
    move_body-Moves b h =
        let (exists, b1) = direct ((logged imap).folder_exists folder) b in
        continue-Moves
          (λ there.
            ensure_folder (logged imap) folder there
            >> (direct ((logged imap).has_capability (text "MOVE"))
                >>= with_move (logged imap) uid folder))
          exists b1 h
          λ there found.
            let (created, b2) = ensure_folder (logged imap) folder there b1 in
            let h2 = ensure_folder-IsOrderly there b1 h in
            continue-Moves
              (λ (_ : Unit {0}).
                direct ((logged imap).has_capability (text "MOVE"))
                >>= with_move (logged imap) uid folder)
              created b2 h2
              λ done made.
                let (answer, b3) = direct ((logged imap).has_capability (text "MOVE")) b2 in
                continue-Moves (with_move (logged imap) uid folder) answer b3 h2
                  λ movable asked. with_move-Moves movable b3 h2

    rewrapped-Moves :
        (f : Text → Text) (outcome : Result Unit) (b : Box (Logged W))
        → Moves (outcome, b)
        → Moves (rewrap_other f outcome b)
    unfolding rewrap_other
    rewrapped-Moves f (ok a) b h = h
    rewrapped-Moves f (raised (mailbox_error e)) b h = h
    rewrapped-Moves f (raised (message_gone e)) b h = h
    rewrapped-Moves f (raised _) b h = (h.0, λ e. cc)

    move_to_folder-Moves :
        (b : Box (Logged W))
        → IsOrderly b.world.commands
        → IsOrderly (move_to_folder (logged imap) uid folder b).1.world.commands
          × ((move_to_folder (logged imap) uid folder b).0 ≡ ok tt
              → IsMoved (move_to_folder (logged imap) uid folder b).1.world.commands)
    unfolding move_to_folder client not_connected
    move_to_folder-Moves b h =
        let (outcome, b') = client b in
        continue-Moves
          (λ (_ : Unit {0}).
            attempt (move_body (logged imap) uid folder) (rewrap_other (move_failed uid folder)))
          outcome b' h
          λ done opened. rewrapped-Moves (move_failed uid folder) _ _ (move_body-Moves b' h)

    -- If the commands so far are in order for this message and folder, then they are after
    -- `move_to_folder`, whatever the server answers: each names this message and this folder only,
    -- flags it \Deleted only right after its copy was made, and expunges it only right after that
    -- flag was set.
    pub move_to_folder-IsOrderly :
        (b : Box (Logged W))
        → IsOrderly b.world.commands
        → IsOrderly (move_to_folder (logged imap) uid folder b).1.world.commands
    move_to_folder-IsOrderly b h = (move_to_folder-Moves b h).0

    -- If the commands so far are in order and `move_to_folder` returns, then its last commands were
    -- a MOVE of the message to the folder that the server accepted, or an accepted copy to the
    -- folder, flag and expunge.
    pub move_to_folder-IsMoved :
        (b : Box (Logged W))
        → IsOrderly b.world.commands
        → (move_to_folder (logged imap) uid folder b).0 ≡ ok tt
        → IsMoved (move_to_folder (logged imap) uid folder b).1.world.commands
    move_to_folder-IsMoved b h e = (move_to_folder-Moves b h).1 e
