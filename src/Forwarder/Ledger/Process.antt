-- ===== src/Forwarder/Ledger/Process.antt =====
-- `Forwarder._process` and `Forwarder._quarantine` count the calls that return.
use mail_transporter.Base.{
  ℕ, suc, Bool, true, false, ◌≡◌, refl, List, ◌∷◌, Text, text, text_eq, text_eq_refl, truthy,
  GmailError, GmailKind, permanent, retryable, auth, Result, ok, raised, mailbox_error,
  message_gone, gmail_error, abort_run, config_error, other, arith,
}
use mail_transporter.Message.{FetchedMessage, has_keyword}
use mail_transporter.Ports.{Ports}
use mail_transporter.Forwarder.State.{ForwarderOptions, Run, quarantine_of, gmail_labels_for}
use mail_transporter.Forwarder.Process.{
  moved_aside, set_aside, marked_aside, quarantine, trashed_lastly, trash, recorded, record_insert,
  reject, refused, inserted, insert_message, examine, fetched, process,
}
use mail_transporter.Forwarder.Trace.{
  Event, insert_done, mark_done, trash_done, move_done, Traced, traced,
}
use mail_transporter.Forwarder.Ledger.{Agreed, Agrees, AreApart}

module _ {S : Type 0} (ports : Ports S) (options : ForwarderOptions) (listed fetches : ℕ) where
  -- The last call is still to be counted.
  abbrev Owes : Event → Run (Traced S) → Type 0
  Owes e r = (es : List Event) × (r.world.trace ≡ e ∷ es) × Agreed options listed fetches es r

  moved_aside-Agrees :
      (uid : ℕ) (folder : Text) (outcome : Result Unit) (r : Run (Traced S))
      → Owes (move_done uid folder outcome) r
      → Agrees options listed fetches (moved_aside (traced ports) options uid outcome r).1
  unfolding moved_aside
  moved_aside-Agrees uid folder (ok _) r (es, e, h) = rw e (omega (arith, h))
  moved_aside-Agrees uid folder (raised (mailbox_error x)) r (es, e, h) = rw e (omega (arith, h))
  moved_aside-Agrees uid folder (raised (message_gone x)) r (es, e, h) = rw e (omega (arith, h))
  moved_aside-Agrees uid folder (raised _) r (es, e, h) = rw e (omega (arith, h))

  set_aside-Agrees :
      (uid : ℕ) (folder : Text) (r : Run (Traced S))
      → Agrees options listed fetches r
      → Agrees options listed fetches (set_aside (traced ports) options uid folder r).1
  unfolding set_aside
  set_aside-Agrees uid folder r h = moved_aside-Agrees uid folder _ _ (r.world.trace, refl, h)

  marked_aside-Agrees :
      (uid : ℕ) (keyword folder : Text) (outcome : Result Unit) (r : Run (Traced S))
      → text_eq keyword options.inserted_keyword ≡ false
      → Owes (mark_done uid keyword outcome) r
      → Agrees options listed fetches (marked_aside (traced ports) options uid folder outcome r).1
  unfolding marked_aside
  marked_aside-Agrees uid keyword folder (ok _) r apart (es, e, h) =
      rw (e, apart) (omega (arith, h))
  marked_aside-Agrees uid keyword folder (raised (mailbox_error x)) r apart (es, e, h) =
      set_aside-Agrees uid folder r (rw (e, apart) (omega (arith, h)))
  marked_aside-Agrees uid keyword folder (raised (message_gone x)) r apart (es, e, h) =
      set_aside-Agrees uid folder r (rw (e, apart) (omega (arith, h)))
  marked_aside-Agrees uid keyword folder (raised _) r apart (es, e, h) =
      rw (e, apart) (omega (arith, h))

  quarantine_by-Agrees :
      (by_keyword : Bool) (uid : ℕ) (keyword folder : Text) (r : Run (Traced S))
      → text_eq options.quarantine_mode (text "keyword") ≡ by_keyword
      → text_eq keyword options.inserted_keyword ≡ false
      → Agrees options listed fetches r
      → Agrees options listed fetches (quarantine (traced ports) options uid keyword folder r).1
  unfolding quarantine
  quarantine_by-Agrees true uid keyword folder r mode apart h =
      rw mode (marked_aside-Agrees uid keyword folder _ _ apart (r.world.trace, refl, h))
  quarantine_by-Agrees false uid keyword folder r mode apart h =
      rw mode (set_aside-Agrees uid folder r h)

  pub quarantine-Agrees :
      (uid : ℕ) (keyword folder : Text) (r : Run (Traced S))
      → text_eq keyword options.inserted_keyword ≡ false
      → Agrees options listed fetches r
      → Agrees options listed fetches (quarantine (traced ports) options uid keyword folder r).1
  quarantine-Agrees uid keyword folder r apart h =
      quarantine_by-Agrees _ uid keyword folder r refl apart h

  trashed_lastly-Agrees :
      (uid : ℕ) (outcome : Result Unit) (r : Run (Traced S))
      → Owes (trash_done uid outcome) r
      → Agrees options listed fetches (trashed_lastly (traced ports) options uid outcome r).1
  unfolding trashed_lastly
  trashed_lastly-Agrees uid (ok _) r (es, e, h) = rw e (omega (arith, h))
  trashed_lastly-Agrees uid (raised (mailbox_error x)) r (es, e, h) = rw e (omega (arith, h))
  trashed_lastly-Agrees uid (raised (message_gone x)) r (es, e, h) = rw e (omega (arith, h))
  trashed_lastly-Agrees uid (raised _) r (es, e, h) = rw e (omega (arith, h))

  trash-Agrees :
      (uid : ℕ) (r : Run (Traced S))
      → Agrees options listed fetches r
      → Agrees options listed fetches (trash (traced ports) options uid r).1
  unfolding trash
  trash-Agrees uid r h = trashed_lastly-Agrees uid _ _ (r.world.trace, refl, h)

  -- Setting the inserted keyword is no quarantine.
  inserted_mark-Agrees :
      (uid : ℕ) (outcome : Result Unit) (r : Run (Traced S))
      → Owes (mark_done uid options.inserted_keyword outcome) r
      → Agrees options listed fetches r
  inserted_mark-Agrees uid outcome r (es, e, h) =
      let itself = text_eq_refl options.inserted_keyword in rw (e, itself) (omega (arith, h))

  module _ (apart : AreApart options) where
    recorded-Agrees :
        (uid : ℕ) (outcome : Result Unit) (r : Run (Traced S))
        → Owes (mark_done uid options.inserted_keyword outcome) r
        → Agrees options listed fetches (recorded (traced ports) options uid outcome r).1
    unfolding recorded
    recorded-Agrees uid (ok x) r h = trash-Agrees uid r (inserted_mark-Agrees uid (ok x) r h)
    recorded-Agrees uid (raised (mailbox_error x)) r h =
        quarantine-Agrees uid options.unverified_keyword options.unverified_folder r
          apart.unverified (inserted_mark-Agrees uid (raised (mailbox_error x)) r h)
    recorded-Agrees uid (raised (message_gone x)) r h =
        quarantine-Agrees uid options.unverified_keyword options.unverified_folder r
          apart.unverified (inserted_mark-Agrees uid (raised (message_gone x)) r h)
    recorded-Agrees uid (raised (gmail_error x)) r h = inserted_mark-Agrees uid _ r h
    recorded-Agrees uid (raised (abort_run x)) r h = inserted_mark-Agrees uid _ r h
    recorded-Agrees uid (raised (config_error x)) r h = inserted_mark-Agrees uid _ r h
    recorded-Agrees uid (raised (other x)) r h = inserted_mark-Agrees uid _ r h

    refused-Agrees :
        (uid : ℕ) (e : GmailError) (kind : GmailKind) (r : Run (Traced S))
        → Agrees options listed fetches r
        → Agrees options listed fetches (refused (traced ports) options uid e kind r).1
    unfolding refused reject
    refused-Agrees uid e auth r h = h
    refused-Agrees uid e retryable r h = h
    refused-Agrees uid e permanent r h = h

    inserted-Agrees :
        (uid : ℕ) (raw : Text) (labels : List Text) (outcome : Result Text) (r : Run (Traced S))
        → Owes (insert_done raw labels outcome) r
        → Agrees options listed fetches (inserted (traced ports) options uid outcome r).1
    unfolding inserted record_insert
    inserted-Agrees uid raw labels (ok id) r (es, e, h) =
        recorded-Agrees uid _ _ (r.world.trace, refl, rw e (omega (arith, h)))
    inserted-Agrees uid raw labels (raised (gmail_error x)) r (es, e, h) =
        refused-Agrees uid x x.kind r (rw e (omega (arith, h)))
    inserted-Agrees uid raw labels (raised _) r (es, e, h) = rw e (omega (arith, h))

    examine_by-Agrees :
        (aside known : Bool) (uid : ℕ) (extra : List Text) (m : FetchedMessage) (r : Run (Traced S))
        → truthy (quarantine_of options m) ≡ aside
        → has_keyword m options.inserted_keyword ≡ known
        → Agrees options listed fetches r
        → Agrees options listed fetches (examine (traced ports) options uid extra m r).1
    unfolding examine insert_message
    examine_by-Agrees true known uid extra m r q k h = rw q h
    examine_by-Agrees false true uid extra m r q k h = rw (q, k) (trash-Agrees uid r h)
    examine_by-Agrees false false uid extra m r q k h =
        rw (q, k)
          (inserted-Agrees uid m.raw (gmail_labels_for m extra) _ _ (r.world.trace, refl, h))

    fetched-Agrees :
        (uid : ℕ) (extra : List Text) (outcome : Result FetchedMessage) (r : Run (Traced S))
        → Agrees options listed fetches r
        → Agrees options listed fetches (fetched (traced ports) options uid extra outcome r).1
    unfolding fetched
    fetched-Agrees uid extra (ok m) r h = examine_by-Agrees _ _ uid extra m r refl refl h
    fetched-Agrees uid extra (raised (message_gone x)) r h = h
    fetched-Agrees uid extra (raised (mailbox_error x)) r h = h
    fetched-Agrees uid extra (raised _) r h = h

module _ {S : Type 0} (ports : Ports S) (options : ForwarderOptions)
    (apart : AreApart options) where
  -- A call of `_process` makes one fetch.
  pub process-Agrees :
      (listed fetches uid : ℕ) (extra : List Text) (r : Run (Traced S))
      → Agrees options listed fetches r
      → Agrees options listed (suc fetches) (process (traced ports) options uid extra r).1
  unfolding process
  process-Agrees listed fetches uid extra r h =
      fetched-Agrees ports options listed (suc fetches) apart uid extra _ _ (omega (arith, h))
