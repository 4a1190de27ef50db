-- ===== src/Forwarder/Safety.antt =====
-- What a run may do to a message, given what it has done and seen before.
pub mod Quarantine
pub mod Process
pub mod Settling
pub mod Loop
use mail_transporter.Base.{
  ℕ, ◌++◌, Bool, true, false, ◌≡◌, refl, ◌⊎◌, inl, inr, Option, none, some, List, [], ◌∷◌, Text,
  text, text_eq, truthy, GmailError, GmailKind, permanent, retryable, auth, Raised, Result, ok,
  raised, mailbox_error, message_gone, gmail_error, abort_run, config_error, other, All, In,
  All-imp, All-append, Bool-cases, if◌then◌else◌, arith,
}
use mail_transporter.Message.{FetchedMessage, has_keyword}
use mail_transporter.Ports.{Ports}
use mail_transporter.Forwarder.State.{
  Rejection, ForwarderOptions, Run, quarantine_of, gmail_labels_for,
}
use mail_transporter.Forwarder.Process.{
  is_per_message, moved_aside, set_aside, marked_aside, quarantine, trashed_lastly, trash, recorded,
  record_insert, reject, refused, inserted, insert_message, examine, fetched, process,
}
use mail_transporter.Forwarder.Trace.{
  Event, fetch_done, insert_done, mark_done, trash_done, move_done, Traced, traced,
}

-- Gmail has refused the message for good.
abbrev pub WasRejected : List Event → ℕ → Text → Bool → Type 0
WasRejected es uid message per_message =
    (m : FetchedMessage) × (labels : List Text) × (e : GmailError) × In (fetch_done uid (ok m)) es
    × In (insert_done m.raw labels (raised (gmail_error e))) es
    × (e.kind ≡ permanent)
    × (message ≡ e.message)
    × (per_message ≡ is_per_message e)

module _ (options : ForwarderOptions) where
  -- The last call fetched the message, which carries the inserted keyword; or the last three
  -- fetched the message without it, inserted its text and set the keyword.
  abbrev pub IsRecorded : ℕ → List Event → Type 0
  IsRecorded uid es =
      ((m : FetchedMessage) × (rest : List Event) × (es ≡ fetch_done uid (ok m) ∷ rest)
        × (has_keyword m options.inserted_keyword ≡ true))
      ⊎ ((m : FetchedMessage) × (labels : List Text) × (id : Text) × (rest : List Event) × (es
            ≡ mark_done uid options.inserted_keyword (ok tt)
              ∷ insert_done m.raw labels (ok id)
              ∷ fetch_done uid (ok m)
              ∷ rest))

  -- The last two calls fetched the message and inserted its text.
  abbrev pub JustInserted : ℕ → List Event → Type 0
  JustInserted uid es =
      (m : FetchedMessage) × (labels : List Text) × (id : Text) × (rest : List Event) × (es
        ≡ insert_done m.raw labels (ok id) ∷ fetch_done uid (ok m) ∷ rest)

  -- Gmail has the message, and the attempt to record that failed.
  abbrev pub IsUnverified : List Event → ℕ → Type 0
  IsUnverified es uid =
      (m : FetchedMessage) × (labels : List Text) × (id : Text) × (e : Raised) × In
        (fetch_done uid (ok m)) es
      × In (insert_done m.raw labels (ok id)) es
      × In (mark_done uid options.inserted_keyword (raised e)) es

  -- Why `uid` may be set aside under `keyword`, or in `folder`.
  pub data Reason (es : List Event) (uid : ℕ) (keyword folder : Text) : Type 0 where
    rejected_for :
        (message : Text) (per_message : Bool)
        → keyword ≡ options.failed_keyword
        → folder ≡ options.failed_folder
        → WasRejected es uid message per_message
        → Reason es uid keyword folder
    unverified_for :
        keyword ≡ options.unverified_keyword
        → folder ≡ options.unverified_folder
        → IsUnverified es uid
        → Reason es uid keyword folder

  -- A move out of the INBOX is the configured mode, or the last call was refused the keyword.
  abbrev pub IsLastResort : ℕ → Text → List Event → Type 0
  IsLastResort uid keyword es =
      (text_eq options.quarantine_mode (text "keyword") ≡ false)
      ⊎ ((e : Raised) × (rest : List Event) × (es ≡ mark_done uid keyword (raised e) ∷ rest))

  -- What justifies a call, by the history before it.
  abbrev pub Allowed : Event → List Event → Type 0
  Allowed (fetch_done uid outcome) es = Unit
  Allowed (insert_done raw labels outcome) es =
      (uid : ℕ) × (m : FetchedMessage) × (extra : List Text) × (rest : List Event) × (es
        ≡ fetch_done uid (ok m) ∷ rest)
      × (raw ≡ m.raw)
      × (labels ≡ gmail_labels_for m extra)
      × (has_keyword m options.inserted_keyword ≡ false)
      × (truthy (quarantine_of options m) ≡ false)
  Allowed (mark_done uid keyword outcome) es =
      ((keyword ≡ options.inserted_keyword) × JustInserted uid es)
      ⊎ ((folder : Text) × Reason es uid keyword folder)
  Allowed (trash_done uid outcome) es = IsRecorded uid es
  Allowed (move_done uid folder outcome) es =
      (keyword : Text) × Reason es uid keyword folder × IsLastResort uid keyword es

  -- Every call of the history is justified by what came before it.
  abbrev pub IsJustified : List Event → Type 0
  IsJustified [] = Unit
  IsJustified (e ∷ es) = Allowed e es × IsJustified es
