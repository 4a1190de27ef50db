-- ===== src/Forwarder/Accounting/Process.antt =====
-- `Forwarder._process` counts its message exactly once, unless it raises.
use mail_transporter.Base.{
  ℕ, ◌+◌, Bool, true, false, ◌≡◌, refl, List, [], ◌∷◌, Text, text, text_eq, truthy, GmailError,
  GmailKind, permanent, retryable, auth, Result, ok, raised, mailbox_error, message_gone,
  gmail_error, length-append, arith,
}
use mail_transporter.Message.{FetchedMessage, has_keyword}
use mail_transporter.Ports.{Ports}
use mail_transporter.Forwarder.State.{ForwarderOptions, Run, Rejection, lift, quarantine_of}
use mail_transporter.Forwarder.Process.{
  moved_aside, set_aside, marked_aside, quarantine, trashed_lastly, trash, recorded, record_insert,
  reject, refused, inserted, insert_message, examine, fetched, process, is_per_message,
}
use mail_transporter.Forwarder.Accounting.{Handles}

module _ {S : Type 0} (ports : Ports S) (options : ForwarderOptions) where
  abbrev Counted : Run S → Result (Unit {0}) × Run S → Type 0
  Counted r (outcome, r') = Handles r outcome r'

  -- `_quarantine` adds to `quarantined` alone.
  abbrev pub Sets : Run S → Result (Unit {0}) × Run S → Type 0
  Sets r (outcome, r') = Handles r outcome r' × (r'.rejected ≡ r.rejected)

  moved_aside-Sets :
      (uid : ℕ) (outcome : Result Unit) (r : Run S)
      → Sets r (moved_aside ports options uid outcome r)
  unfolding moved_aside
  moved_aside-Sets uid (ok _) r = ground arith
  moved_aside-Sets uid (raised (mailbox_error e)) r = ground arith
  moved_aside-Sets uid (raised (message_gone e)) r = ground arith
  moved_aside-Sets uid (raised _) r = ground arith

  set_aside-Sets :
      (uid : ℕ) (folder : Text) (r : Run S) → Sets r (set_aside ports options uid folder r)
  unfolding set_aside
  set_aside-Sets uid folder r =
      let (outcome, r') = lift (ports.mailbox.move_to_folder uid folder) r in
      moved_aside-Sets uid outcome r'

  marked_aside-Sets :
      (uid : ℕ) (folder : Text) (outcome : Result Unit) (r : Run S)
      → Sets r (marked_aside ports options uid folder outcome r)
  unfolding marked_aside
  marked_aside-Sets uid folder (ok _) r = ground arith
  marked_aside-Sets uid folder (raised (mailbox_error e)) r = set_aside-Sets uid folder r
  marked_aside-Sets uid folder (raised (message_gone e)) r = set_aside-Sets uid folder r
  marked_aside-Sets uid folder (raised _) r = ground arith

  quarantine_by-Sets :
      (by_keyword : Bool) (uid : ℕ) (keyword folder : Text) (r : Run S)
      → text_eq options.quarantine_mode (text "keyword") ≡ by_keyword
      → Sets r (quarantine ports options uid keyword folder r)
  unfolding quarantine
  quarantine_by-Sets true uid keyword folder r mode =
      let (outcome, r') = lift (ports.mailbox.add_keyword uid keyword) r in
      rw mode (marked_aside-Sets uid folder outcome r')
  quarantine_by-Sets false uid keyword folder r mode = rw mode (set_aside-Sets uid folder r)

  pub quarantine-Sets :
      (uid : ℕ) (keyword folder : Text) (r : Run S)
      → Sets r (quarantine ports options uid keyword folder r)
  quarantine-Sets uid keyword folder r = quarantine_by-Sets _ uid keyword folder r refl

  trashed_lastly-Counted :
      (uid : ℕ) (outcome : Result Unit) (r : Run S)
      → Counted r (trashed_lastly ports options uid outcome r)
  unfolding trashed_lastly
  trashed_lastly-Counted uid (ok _) r = ground arith
  trashed_lastly-Counted uid (raised (mailbox_error e)) r = ground arith
  trashed_lastly-Counted uid (raised (message_gone e)) r = ground arith
  trashed_lastly-Counted uid (raised _) r = ground arith

  trash-Counted : (uid : ℕ) (r : Run S) → Counted r (trash ports options uid r)
  unfolding trash
  trash-Counted uid r =
      let (outcome, r') = lift (ports.mailbox.move_to_trash uid) r in
      trashed_lastly-Counted uid outcome r'

  recorded-Counted :
      (uid : ℕ) (outcome : Result Unit) (r : Run S)
      → Counted r (recorded ports options uid outcome r)
  unfolding recorded
  recorded-Counted uid (ok _) r = trash-Counted uid r
  recorded-Counted uid (raised (mailbox_error e)) r =
      (quarantine-Sets uid options.unverified_keyword options.unverified_folder r).0
  recorded-Counted uid (raised (message_gone e)) r =
      (quarantine-Sets uid options.unverified_keyword options.unverified_folder r).0
  recorded-Counted uid (raised _) r = ground arith

  refused-Counted :
      (uid : ℕ) (e : GmailError) (kind : GmailKind) (r : Run S)
      → Counted r (refused ports options uid e kind r)
  unfolding refused reject
  refused-Counted uid e auth r = ground arith
  refused-Counted uid e retryable r = ground arith
  refused-Counted uid e permanent r =
      let entry : Rejection = record {
        uid = uid;
        error = e.message;
        per_message = is_per_message e;
      } in
      (omega (arith, length-append r.rejected (entry ∷ [])), ground arith)

  inserted-Counted :
      (uid : ℕ) (outcome : Result Text) (r : Run S)
      → Counted r (inserted ports options uid outcome r)
  unfolding inserted record_insert
  inserted-Counted uid (ok _) r =
      let counted : Run S = record r {
        result = record r.result { forwarded = r.result.forwarded + 1 };
      } in
      let (outcome, r') = lift (ports.mailbox.add_keyword uid options.inserted_keyword) counted in
      recorded-Counted uid outcome r'
  inserted-Counted uid (raised (gmail_error e)) r = refused-Counted uid e e.kind r
  inserted-Counted uid (raised _) r = ground arith

  examine_by-Counted :
      (aside done : Bool) (uid : ℕ) (extra : List Text) (m : FetchedMessage) (r : Run S)
      → truthy (quarantine_of options m) ≡ aside
      → has_keyword m options.inserted_keyword ≡ done
      → Counted r (examine ports options uid extra m r)
  unfolding examine insert_message
  examine_by-Counted true done uid extra m r q k = rw q (ground arith)
  examine_by-Counted false true uid extra m r q k = rw (q, k) (trash-Counted uid r)
  examine_by-Counted false false uid extra m r q k = rw (q, k) (inserted-Counted uid _ _)

  fetched-Counted :
      (uid : ℕ) (extra : List Text) (outcome : Result FetchedMessage) (r : Run S)
      → Counted r (fetched ports options uid extra outcome r)
  unfolding fetched
  fetched-Counted uid extra (ok m) r = examine_by-Counted _ _ uid extra m r refl refl
  fetched-Counted uid extra (raised (message_gone e)) r = ground arith
  fetched-Counted uid extra (raised (mailbox_error e)) r = ground arith
  fetched-Counted uid extra (raised _) r = ground arith

  -- A call of `_process` that returns has counted its message once, under `trashed`, `skipped`,
  -- `retry_later` or `quarantined` or in the list of rejections; one that raises has counted it
  -- nowhere. `listed`, `remaining` and `error` stay.
  pub process-Handles :
      (uid : ℕ) (extra : List Text) (r : Run S)
      → Handles r (process ports options uid extra r).0 (process ports options uid extra r).1
  unfolding process
  process-Handles uid extra r =
      let (outcome, r') = lift (ports.mailbox.fetch_message uid) r in
      fetched-Counted uid extra outcome r'
