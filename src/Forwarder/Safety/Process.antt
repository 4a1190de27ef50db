-- ===== src/Forwarder/Safety/Process.antt =====
-- Every call that `Forwarder._process` makes is justified.
use mail_transporter.Base.{
  ℕ, ◌+◌, Bool, true, false, ◌≡◌, refl, inl, inr, List, ◌∷◌, Text, truthy, GmailError, GmailKind,
  permanent, retryable, auth, Result, ok, raised, mailbox_error, message_gone, gmail_error, Raised,
  All-append,
}
use mail_transporter.Message.{FetchedMessage, has_keyword}
use mail_transporter.Ports.{Ports}
use mail_transporter.Forwarder.State.{
  Rejection, ForwarderOptions, Run, quarantine_of, gmail_labels_for,
}
use mail_transporter.Forwarder.Process.{
  quarantine, trashed_lastly, trash, recorded, record_insert, reject, refused, inserted,
  insert_message, examine, fetched, process,
}
use mail_transporter.Forwarder.Trace.{Event, fetch_done, insert_done, mark_done, Traced, traced}
use mail_transporter.Forwarder.Safety.{IsRecorded, unverified_for}
use mail_transporter.Forwarder.Safety.Quarantine.{IsSafe, after-IsSafe, quarantine-IsSafe}

module _ {S : Type 0} (ports : Ports S) (options : ForwarderOptions)
    (pending : List Rejection) where
  open ports use {mailbox, gmail}

  trashed_lastly-IsSafe :
      (uid : ℕ) (outcome : Result Unit) (r : Run (Traced S))
      → IsSafe options pending r
      → IsSafe options pending (trashed_lastly (traced ports) options uid outcome r).1
  unfolding trashed_lastly
  trashed_lastly-IsSafe uid (ok _) r h = h
  trashed_lastly-IsSafe uid (raised (mailbox_error e)) r h = h
  trashed_lastly-IsSafe uid (raised (message_gone e)) r h = h
  trashed_lastly-IsSafe uid (raised _) r h = h

  trash-IsSafe :
      (uid : ℕ) (r : Run (Traced S))
      → IsRecorded options uid r.world.trace
      → IsSafe options pending r
      → IsSafe options pending (trash (traced ports) options uid r).1
  unfolding trash
  trash-IsSafe uid r proof h =
      trashed_lastly-IsSafe uid _ _
        (after-IsSafe ports options pending r _ (mailbox.move_to_trash uid r.world.world).1 proof h)

  unverified-IsSafe :
      (uid : ℕ) (x : Raised) (r : Run (Traced S)) (m : FetchedMessage) (labels : List Text)
      (id : Text) (rest : List Event)
      → r.world.trace
        ≡ mark_done uid options.inserted_keyword (raised x)
          ∷ insert_done m.raw labels (ok id)
          ∷ fetch_done uid (ok m)
          ∷ rest
      → IsSafe options pending r
      → IsSafe options pending
          (quarantine
            (traced ports)
            options
            uid
            options.unverified_keyword
            options.unverified_folder
            r).1
  unverified-IsSafe uid x r m labels id rest e h =
      quarantine-IsSafe ports options pending uid options.unverified_keyword
        options.unverified_folder r
        (unverified_for refl refl
          (m, labels, id, x, rw e (inr (inr (inl refl))), rw e (inr (inl refl)), rw e (inl refl)))
        h

  recorded-IsSafe :
      (uid : ℕ) (outcome : Result Unit) (r : Run (Traced S)) (m : FetchedMessage)
      (labels : List Text) (id : Text) (rest : List Event)
      → r.world.trace
        ≡ mark_done uid options.inserted_keyword outcome
          ∷ insert_done m.raw labels (ok id)
          ∷ fetch_done uid (ok m)
          ∷ rest
      → IsSafe options pending r
      → IsSafe options pending (recorded (traced ports) options uid outcome r).1
  unfolding recorded
  recorded-IsSafe uid (ok tt) r m labels id rest e h =
      trash-IsSafe uid r (inr (m, labels, id, rest, e)) h
  recorded-IsSafe uid (raised (mailbox_error x)) r m labels id rest e h =
      unverified-IsSafe uid (mailbox_error x) r m labels id rest e h
  recorded-IsSafe uid (raised (message_gone x)) r m labels id rest e h =
      unverified-IsSafe uid (message_gone x) r m labels id rest e h
  recorded-IsSafe uid (raised _) r m labels id rest e h = h

  record_insert-IsSafe :
      (uid : ℕ) (r : Run (Traced S)) (m : FetchedMessage) (labels : List Text) (id : Text)
      (rest : List Event)
      → r.world.trace ≡ insert_done m.raw labels (ok id) ∷ fetch_done uid (ok m) ∷ rest
      → IsSafe options pending r
      → IsSafe options pending (record_insert (traced ports) options uid r).1
  unfolding record_insert
  record_insert-IsSafe uid r m labels id rest e h =
      let counted : Run (Traced S) = record r {
        result = record r.result { forwarded = r.result.forwarded + 1 };
      } in
      recorded-IsSafe uid _ _ m labels id rest (rw e refl) (
        after-IsSafe ports options pending counted _
          (mailbox.add_keyword uid options.inserted_keyword r.world.world).1
          (inl (refl, (m, labels, id, rest, e))) h)

  refused-IsSafe :
      (uid : ℕ) (e : GmailError) (kind : GmailKind) (r : Run (Traced S)) (m : FetchedMessage)
      (labels : List Text) (rest : List Event)
      → e.kind ≡ kind
      → r.world.trace
        ≡ insert_done m.raw labels (raised (gmail_error e)) ∷ fetch_done uid (ok m) ∷ rest
      → IsSafe options pending r
      → IsSafe options pending (refused (traced ports) options uid e kind r).1
  unfolding refused reject
  refused-IsSafe uid e auth r m labels rest k t h = h
  refused-IsSafe uid e retryable r m labels rest k t h = h
  refused-IsSafe uid e permanent r m labels rest k t h = (
    h.0,
    All-append _ r.rejected _ h.1
        ((m, labels, e, rw t (inr (inl refl)), rw t (inl refl), k, refl, refl), tt),
    h.2,
  )

  inserted-IsSafe :
      (uid : ℕ) (outcome : Result Text) (r : Run (Traced S)) (m : FetchedMessage)
      (labels : List Text) (rest : List Event)
      → r.world.trace ≡ insert_done m.raw labels outcome ∷ fetch_done uid (ok m) ∷ rest
      → IsSafe options pending r
      → IsSafe options pending (inserted (traced ports) options uid outcome r).1
  unfolding inserted
  inserted-IsSafe uid (ok id) r m labels rest e h = record_insert-IsSafe uid r m labels id rest e h
  inserted-IsSafe uid (raised (gmail_error x)) r m labels rest e h =
      refused-IsSafe uid x x.kind r m labels rest refl e h
  inserted-IsSafe uid (raised _) r m labels rest e h = h

  insert_message-IsSafe :
      (uid : ℕ) (extra : List Text) (m : FetchedMessage) (r : Run (Traced S)) (rest : List Event)
      → r.world.trace ≡ fetch_done uid (ok m) ∷ rest
      → has_keyword m options.inserted_keyword ≡ false
      → truthy (quarantine_of options m) ≡ false
      → IsSafe options pending r
      → IsSafe options pending (insert_message (traced ports) options uid extra m r).1
  unfolding insert_message
  insert_message-IsSafe uid extra m r rest e new free h =
      inserted-IsSafe uid _ _ m (gmail_labels_for m extra) rest (rw e refl) (
        after-IsSafe ports options pending r _
          (gmail.insert_raw m.raw (gmail_labels_for m extra) r.world.world).1
          (uid, m, extra, rest, e, refl, refl, new, free) h)

  examine_by-IsSafe :
      (aside done : Bool) (uid : ℕ) (extra : List Text) (m : FetchedMessage) (r : Run (Traced S))
      (rest : List Event)
      → r.world.trace ≡ fetch_done uid (ok m) ∷ rest
      → truthy (quarantine_of options m) ≡ aside
      → has_keyword m options.inserted_keyword ≡ done
      → IsSafe options pending r
      → IsSafe options pending (examine (traced ports) options uid extra m r).1
  unfolding examine
  examine_by-IsSafe true done uid extra m r rest e q k h = rw q h
  examine_by-IsSafe false true uid extra m r rest e q k h =
      rw (q, k) (trash-IsSafe uid r (inl (m, rest, e, k)) h)
  examine_by-IsSafe false false uid extra m r rest e q k h =
      rw (q, k) (insert_message-IsSafe uid extra m r rest e k q h)

  fetched-IsSafe :
      (uid : ℕ) (extra : List Text) (outcome : Result FetchedMessage) (r : Run (Traced S))
      (rest : List Event)
      → r.world.trace ≡ fetch_done uid outcome ∷ rest
      → IsSafe options pending r
      → IsSafe options pending (fetched (traced ports) options uid extra outcome r).1
  unfolding fetched
  fetched-IsSafe uid extra (ok m) r rest e h =
      examine_by-IsSafe _ _ uid extra m r rest e refl refl h
  fetched-IsSafe uid extra (raised (message_gone x)) r rest e h = h
  fetched-IsSafe uid extra (raised (mailbox_error x)) r rest e h = h
  fetched-IsSafe uid extra (raised _) r rest e h = h

  -- From a safe state `_process` makes only justified calls, and lists only rejected messages.
  pub process-IsSafe :
      (uid : ℕ) (extra : List Text) (r : Run (Traced S))
      → IsSafe options pending r
      → IsSafe options pending (process (traced ports) options uid extra r).1
  unfolding process
  process-IsSafe uid extra r h =
      fetched-IsSafe uid extra _ _ r.world.trace refl
        (after-IsSafe ports options pending r _ (mailbox.fetch_message uid r.world.world).1 tt h)
