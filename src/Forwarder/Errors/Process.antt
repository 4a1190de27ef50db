-- ===== src/Forwarder/Errors/Process.antt =====
-- `Forwarder._process` and `Forwarder._quarantine` raise `AbortRun` only.
use mail_transporter.Base.{
  ℕ, Bool, true, false, ◌≡◌, refl, List, Text, text, text_eq, truthy, GmailError, GmailKind,
  permanent, retryable, auth, Result, ok, raised, mailbox_error, message_gone, gmail_error, ◌+◌,
}
use mail_transporter.Message.{FetchedMessage, has_keyword}
use mail_transporter.Ports.{Ports}
use mail_transporter.Forwarder.State.{ForwarderOptions, Run, lift, quarantine_of, gmail_labels_for}
use mail_transporter.Forwarder.Process.{
  moved_aside, set_aside, marked_aside, quarantine, trashed_lastly, trash, recorded, record_insert,
  reject, refused, inserted, insert_message, examine, fetched, process,
}
use mail_transporter.Forwarder.Errors.{IsMailboxError, IsGmailError, IsAbort, Raises, IsDeclared}

module _ {S : Type 0} (ports : Ports S) (options : ForwarderOptions)
    (declared : IsDeclared ports) where
  abbrev Aborts : Result (Unit {0}) × Run S → Type 0
  Aborts (outcome, r) = Raises IsAbort outcome

  moved_aside-Aborts :
      (uid : ℕ) (outcome : Result Unit) (r : Run S)
      → Raises IsMailboxError outcome
      → Aborts (moved_aside ports options uid outcome r)
  unfolding moved_aside
  moved_aside-Aborts uid (ok _) r h = tt
  moved_aside-Aborts uid (raised (mailbox_error e)) r h = tt
  moved_aside-Aborts uid (raised (message_gone e)) r h = tt
  moved_aside-Aborts uid (raised _) r h = absurd h

  set_aside-Aborts :
      (uid : ℕ) (folder : Text) (r : Run S) → Aborts (set_aside ports options uid folder r)
  unfolding set_aside
  set_aside-Aborts uid folder r =
      let (outcome, r') = lift (ports.mailbox.move_to_folder uid folder) r in
      moved_aside-Aborts uid outcome r' (declared.move_to_folder uid folder r.world)

  marked_aside-Aborts :
      (uid : ℕ) (folder : Text) (outcome : Result Unit) (r : Run S)
      → Raises IsMailboxError outcome
      → Aborts (marked_aside ports options uid folder outcome r)
  unfolding marked_aside
  marked_aside-Aborts uid folder (ok _) r h = tt
  marked_aside-Aborts uid folder (raised (mailbox_error e)) r h = set_aside-Aborts uid folder r
  marked_aside-Aborts uid folder (raised (message_gone e)) r h = set_aside-Aborts uid folder r
  marked_aside-Aborts uid folder (raised _) r h = absurd h

  quarantine_by-Aborts :
      (by_keyword : Bool) (uid : ℕ) (keyword folder : Text) (r : Run S)
      → text_eq options.quarantine_mode (text "keyword") ≡ by_keyword
      → Aborts (quarantine ports options uid keyword folder r)
  unfolding quarantine
  quarantine_by-Aborts true uid keyword folder r mode =
      let (outcome, r') = lift (ports.mailbox.add_keyword uid keyword) r in
      rw mode (marked_aside-Aborts uid folder outcome r' (declared.add_keyword uid keyword r.world))
  quarantine_by-Aborts false uid keyword folder r mode = rw mode (set_aside-Aborts uid folder r)

  pub quarantine-Aborts :
      (uid : ℕ) (keyword folder : Text) (r : Run S)
      → Aborts (quarantine ports options uid keyword folder r)
  quarantine-Aborts uid keyword folder r = quarantine_by-Aborts _ uid keyword folder r refl

  trashed_lastly-Aborts :
      (uid : ℕ) (outcome : Result Unit) (r : Run S)
      → Raises IsMailboxError outcome
      → Aborts (trashed_lastly ports options uid outcome r)
  unfolding trashed_lastly
  trashed_lastly-Aborts uid (ok _) r h = tt
  trashed_lastly-Aborts uid (raised (mailbox_error e)) r h = tt
  trashed_lastly-Aborts uid (raised (message_gone e)) r h = tt
  trashed_lastly-Aborts uid (raised _) r h = absurd h

  trash-Aborts : (uid : ℕ) (r : Run S) → Aborts (trash ports options uid r)
  unfolding trash
  trash-Aborts uid r =
      let (outcome, r') = lift (ports.mailbox.move_to_trash uid) r in
      trashed_lastly-Aborts uid outcome r' (declared.move_to_trash uid r.world)

  recorded-Aborts :
      (uid : ℕ) (outcome : Result Unit) (r : Run S)
      → Raises IsMailboxError outcome
      → Aborts (recorded ports options uid outcome r)
  unfolding recorded
  recorded-Aborts uid (ok _) r h = trash-Aborts uid r
  recorded-Aborts uid (raised (mailbox_error e)) r h =
      quarantine-Aborts uid options.unverified_keyword options.unverified_folder r
  recorded-Aborts uid (raised (message_gone e)) r h =
      quarantine-Aborts uid options.unverified_keyword options.unverified_folder r
  recorded-Aborts uid (raised _) r h = absurd h

  refused-Aborts :
      (uid : ℕ) (e : GmailError) (kind : GmailKind) (r : Run S)
      → Aborts (refused ports options uid e kind r)
  unfolding refused reject
  refused-Aborts uid e auth r = tt
  refused-Aborts uid e retryable r = tt
  refused-Aborts uid e permanent r = tt

  inserted-Aborts :
      (uid : ℕ) (outcome : Result Text) (r : Run S)
      → Raises IsGmailError outcome
      → Aborts (inserted ports options uid outcome r)
  unfolding inserted record_insert
  inserted-Aborts uid (ok _) r h =
      let counted : Run S = record r {
        result = record r.result { forwarded = r.result.forwarded + 1 };
      } in
      let (outcome, r') = lift (ports.mailbox.add_keyword uid options.inserted_keyword) counted in
      recorded-Aborts uid outcome r' (declared.add_keyword uid options.inserted_keyword r.world)
  inserted-Aborts uid (raised (gmail_error e)) r h = refused-Aborts uid e e.kind r
  inserted-Aborts uid (raised _) r h = absurd h

  examine_by-Aborts :
      (aside done : Bool) (uid : ℕ) (extra : List Text) (m : FetchedMessage) (r : Run S)
      → truthy (quarantine_of options m) ≡ aside
      → has_keyword m options.inserted_keyword ≡ done
      → Aborts (examine ports options uid extra m r)
  unfolding examine insert_message
  examine_by-Aborts true done uid extra m r q k = rw q tt
  examine_by-Aborts false true uid extra m r q k = rw (q, k) (trash-Aborts uid r)
  examine_by-Aborts false false uid extra m r q k =
      rw (q, k)
        (inserted-Aborts uid _ _ (declared.insert_raw m.raw (gmail_labels_for m extra) r.world))

  fetched-Aborts :
      (uid : ℕ) (extra : List Text) (outcome : Result FetchedMessage) (r : Run S)
      → Raises IsMailboxError outcome
      → Aborts (fetched ports options uid extra outcome r)
  unfolding fetched
  fetched-Aborts uid extra (ok m) r h = examine_by-Aborts _ _ uid extra m r refl refl
  fetched-Aborts uid extra (raised (message_gone e)) r h = tt
  fetched-Aborts uid extra (raised (mailbox_error e)) r h = tt
  fetched-Aborts uid extra (raised _) r h = absurd h

  pub process-Aborts :
      (uid : ℕ) (extra : List Text) (r : Run S) → Aborts (process ports options uid extra r)
  unfolding process
  process-Aborts uid extra r =
      let (outcome, r') = lift (ports.mailbox.fetch_message uid) r in
      fetched-Aborts uid extra outcome r' (declared.fetch_message uid r.world)
