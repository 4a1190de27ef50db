-- ===== src/Forwarder/State.antt =====
-- mailtransporter/forwarder.py: the data of a run. Durations are in milliseconds.
use mail_transporter.Base.{
  ℕ, ◌++◌, Bool, Option, none, some, List, [], ◌∷◌, Text, text, not, show_nat, Exec, Result, first,
  if◌then◌else◌,
}
use mail_transporter.Base.Int.{ℤ, pos}
use mail_transporter.Message.{FetchedMessage, seen, flagged, has_keyword}

pub record SyncResult : Type 0 where
  pub listed : ℕ
  pub forwarded : ℕ
  pub trashed : ℕ
  pub skipped : ℕ
  pub retry_later : ℕ
  pub quarantined : ℕ
  pub remaining : ℕ
  pub duration : ℕ
  pub error : Option Text

abbrev pub empty_result : SyncResult
empty_result = record {
  listed = 0;
  forwarded = 0;
  trashed = 0;
  skipped = 0;
  retry_later = 0;
  quarantined = 0;
  remaining = 0;
  duration = 0;
  error = none;
}

-- `SyncResult.ok`
abbrev pub succeeded : SyncResult → Bool
succeeded r = elim r.error [ none ↦ Bool.true | some _ ↦ Bool.false ]

pub record Rejection : Type 0 where
  pub uid : ℕ
  pub error : Text
  pub per_message : Bool

pub record ForwarderOptions : Type 0 where
  pub label : Option Text
  pub failed_keyword : Text
  pub unverified_keyword : Text
  pub failed_folder : Text
  pub unverified_folder : Text
  pub inserted_keyword : Text
  pub quarantine_mode : Text
  pub time_budget : ℤ
  pub rejection_threshold : ℤ

abbrev pub quarantine_keywords : ForwarderOptions → List Text
quarantine_keywords o = o.failed_keyword ∷ o.unverified_keyword ∷ []

unfoldable pub default_options : ForwarderOptions
unfolding text
default_options = record {
  label = some (text "iCloud");
  failed_keyword = text "$GmailFailed";
  unverified_keyword = text "$GmailUnverified";
  failed_folder = text "Forward-Failed";
  unverified_folder = text "Forward-Unverified";
  inserted_keyword = text "$GmailInserted";
  quarantine_mode = text "keyword";
  time_budget = pos 480000;
  rejection_threshold = pos 3;
}

unfoldable pub gmail_labels_for : FetchedMessage → List Text → List Text
unfolding text seen flagged
gmail_labels_for m extra =
    (text "INBOX" ∷ [])
    ++ ((if not (seen m) then text "UNREAD" ∷ [] else [])
        ++ ((if flagged m then text "STARRED" ∷ [] else []) ++ extra))

-- The first quarantine keyword that the message carries, in `_process`.
unfoldable pub quarantine_of : ForwarderOptions → FetchedMessage → Option Text
unfolding has_keyword
quarantine_of o m = first (has_keyword m) (quarantine_keywords o)

-- The object state that a run mutates, over the state of the world.
pub record Run (S : Type 0) : Type 0 where
  pub world : S
  pub result : SyncResult
  pub rejected : List Rejection

-- A call of a collaborator.
abbrev pub lift : {S A : Type 0} → Exec S A → Exec (Run S) A
lift m r = ((m r.world).0, record r { world = (m r.world).1 })

abbrev pub update : {S : Type 0} → (SyncResult → SyncResult) → Exec (Run S) (Unit {0})
update f r = (Result.ok tt, record r { result = f r.result })

-- The texts of the exceptions and of the errors.
unfoldable pub fetch_failed : ℕ → Text → Text
unfolding text show_nat
fetch_failed uid e = text "IMAP failure while fetching uid=" ++ (show_nat uid ++ (text ": " ++ e))

unfoldable pub trash_failed : ℕ → Text → Text
unfolding text show_nat
trash_failed uid e = text "IMAP failure while trashing uid=" ++ (show_nat uid ++ (text ": " ++ e))

unfoldable pub quarantine_failed : ℕ → Text → Text
unfolding text show_nat
quarantine_failed uid e =
    text "IMAP failure while quarantining uid=" ++ (show_nat uid ++ (text ": " ++ e))

unfoldable pub breaker_message : ℕ → Text → Text
unfolding text show_nat
breaker_message n e =
    show_nat n
    ++ (text " message(s) were rejected by Gmail and none were accepted; "
        ++ (text "suspecting an account or configuration problem, they were not quarantined. "
            ++ (text "First error: " ++ e)))
