-- ===== src/Forwarder/Process.antt =====
-- mailtransporter/forwarder.py: `Forwarder._quarantine` and `Forwarder._process`. A method is a call over `Run`; `except` clauses are
-- the functions by clauses on the outcome of the body. Logging is left out.
use mail_transporter.Base.{
  ℕ, ◌+◌, Bool, false, none, some, List, [], ◌∷◌, Text, text, text_eq, truthy, GmailKind,
  GmailError, Result, ok, raised, Exec, raise, attempt, ◌>>◌, ◌==◌, if◌then◌else◌, retryable,
  permanent, auth, ◌++◌, mailbox_error, message_gone, gmail_error, abort_run,
}
use mail_transporter.Forwarder.State.{
  Rejection, ForwarderOptions, Run, lift, update, quarantine_of, gmail_labels_for, fetch_failed,
  trash_failed, quarantine_failed,
}
use mail_transporter.Message.{FetchedMessage, has_keyword}
use mail_transporter.Ports.{Ports}

-- `PER_MESSAGE_STATUSES` of gmail_client.py: `exc.per_message`.
unfoldable pub is_per_message : GmailError → Bool
is_per_message e = elim e.status [ none ↦ false | some n ↦ n == 413 ]

module _ {S : Type 0} (ports : Ports S) (options : ForwarderOptions) where
  open ports use {mailbox, gmail, clock}

  -- `_quarantine`, the outcome of `move_to_folder`
  unfoldable pub moved_aside : ℕ → Result (Unit {0}) → Exec (Run S) (Unit {0})
  moved_aside uid (ok _) = update λ r. record r { quarantined = r.quarantined + 1 }
  moved_aside uid (raised (mailbox_error e)) = raise (abort_run (quarantine_failed uid e))
  moved_aside uid (raised (message_gone e)) = raise (abort_run (quarantine_failed uid e))
  moved_aside uid (raised e) = raise e

  unfoldable pub set_aside : ℕ → Text → Exec (Run S) (Unit {0})
  set_aside uid folder = attempt (lift (mailbox.move_to_folder uid folder)) (moved_aside uid)

  -- `_quarantine`, the outcome of `add_keyword`
  unfoldable pub marked_aside : ℕ → Text → Result (Unit {0}) → Exec (Run S) (Unit {0})
  marked_aside uid folder (ok _) = update λ r. record r { quarantined = r.quarantined + 1 }
  marked_aside uid folder (raised (mailbox_error e)) = set_aside uid folder
  marked_aside uid folder (raised (message_gone e)) = set_aside uid folder
  marked_aside uid folder (raised e) = raise e

  unfoldable pub quarantine : ℕ → Text → Text → Exec (Run S) (Unit {0})
  quarantine uid keyword folder =
      if text_eq options.quarantine_mode (text "keyword")
      then attempt (lift (mailbox.add_keyword uid keyword)) (marked_aside uid folder)
      else set_aside uid folder

  -- `_process`, the outcome of `move_to_trash`
  unfoldable pub trashed_lastly : ℕ → Result (Unit {0}) → Exec (Run S) (Unit {0})
  trashed_lastly uid (ok _) = update λ r. record r { trashed = r.trashed + 1 }
  trashed_lastly uid (raised (mailbox_error e)) = raise (abort_run (trash_failed uid e))
  trashed_lastly uid (raised (message_gone e)) = raise (abort_run (trash_failed uid e))
  trashed_lastly uid (raised e) = raise e

  unfoldable pub trash : ℕ → Exec (Run S) (Unit {0})
  trash uid = attempt (lift (mailbox.move_to_trash uid)) (trashed_lastly uid)

  -- `_process`, the outcome of `add_keyword`
  unfoldable pub recorded : ℕ → Result (Unit {0}) → Exec (Run S) (Unit {0})
  recorded uid (ok _) = trash uid
  recorded uid (raised (mailbox_error e)) =
      quarantine uid options.unverified_keyword options.unverified_folder
  recorded uid (raised (message_gone e)) =
      quarantine uid options.unverified_keyword options.unverified_folder
  recorded uid (raised e) = raise e

  unfoldable pub record_insert : ℕ → Exec (Run S) (Unit {0})
  record_insert uid =
      update (λ r. record r { forwarded = r.forwarded + 1 })
      >> attempt (lift (mailbox.add_keyword uid options.inserted_keyword)) (recorded uid)

  unfoldable pub reject : Rejection → Exec (Run S) (Unit {0})
  reject rejection r = (ok tt, record r { rejected = r.rejected ++ rejection ∷ [] })

  -- `_process`, the three `except` clauses of `insert_raw`
  unfoldable pub refused : ℕ → GmailError → GmailKind → Exec (Run S) (Unit {0})
  refused uid e auth = raise (abort_run e.message)
  refused uid e retryable = update λ r. record r { retry_later = r.retry_later + 1 }
  refused uid e permanent =
      reject (record { uid = uid; error = e.message; per_message = is_per_message e })

  unfoldable pub inserted : ℕ → Result Text → Exec (Run S) (Unit {0})
  inserted uid (ok gmail_id) = record_insert uid
  inserted uid (raised (gmail_error e)) = refused uid e e.kind
  inserted uid (raised e) = raise e

  unfoldable pub insert_message : ℕ → List Text → FetchedMessage → Exec (Run S) (Unit {0})
  insert_message uid extra m =
      attempt (lift (gmail.insert_raw m.raw (gmail_labels_for m extra))) (inserted uid)

  unfoldable pub examine : ℕ → List Text → FetchedMessage → Exec (Run S) (Unit {0})
  examine uid extra m =
      if truthy (quarantine_of options m)
      then update (λ r. record r { skipped = r.skipped + 1 })
      else if has_keyword m options.inserted_keyword
      then trash uid
      else insert_message uid extra m

  -- `_process`, the outcome of `fetch_message`
  unfoldable pub fetched : ℕ → List Text → Result FetchedMessage → Exec (Run S) (Unit {0})
  fetched uid extra (ok m) = examine uid extra m
  fetched uid extra (raised (message_gone e)) = update λ r. record r { skipped = r.skipped + 1 }
  fetched uid extra (raised (mailbox_error e)) = raise (abort_run (fetch_failed uid e))
  fetched uid extra (raised e) = raise e

  unfoldable pub process : ℕ → List Text → Exec (Run S) (Unit {0})
  process uid extra = attempt (lift (mailbox.fetch_message uid)) (fetched uid extra)
