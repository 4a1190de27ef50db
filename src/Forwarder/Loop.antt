-- ===== src/Forwarder/Loop.antt =====
-- mailtransporter/forwarder.py: `Forwarder._settle_rejections` and `Forwarder.run`.
use mail_transporter.Base.{
  ℕ, suc, ◌-◌, Bool, ◌&&◌, not, Option, none, some, List, [], ◌∷◌, Text, text, or_text, Result, ok,
  raised, Exec, pure, raise, attempt, ◌>>=◌, ◌>>◌, length, keep, ◌==◌, if◌then◌else◌, mailbox_error,
  message_gone, gmail_error, abort_run, other,
}
use mail_transporter.Base.Int.{pos, ltb_ℤ, leb_ℤ, nonzero}
use mail_transporter.Ports.{Ports}
use mail_transporter.Forwarder.State.{
  SyncResult, Rejection, ForwarderOptions, Run, lift, update, breaker_message, quarantine_keywords,
  empty_result,
}
use mail_transporter.Forwarder.Process.{quarantine, process}

abbrev pub is_suspicious : Rejection → Bool
is_suspicious r = not r.per_message

abbrev pub is_parked : Rejection → Bool
is_parked r = r.per_message

abbrev pub set_error : Text → SyncResult → SyncResult
set_error e r = record r { error = or_text r.error e }

module _ {S : Type 0} (ports : Ports S) (options : ForwarderOptions) where
  open ports use {mailbox, gmail, clock}

  -- One round of the `for` loop of `_settle_rejections`; `rest` is the loop over the others.
  unfoldable pub settled : Exec (Run S) (Unit {0}) → Result (Unit {0}) → Exec (Run S) (Unit {0})
  settled rest (ok _) = rest
  settled rest (raised (abort_run e)) = update (set_error e)
  settled rest (raised e) = raise e

  unfoldable pub settle_each : List Rejection → Exec (Run S) (Unit {0})
  settle_each [] r = (ok tt, r)
  settle_each (rejection ∷ rejected) r =
      attempt (quarantine ports options rejection.uid options.failed_keyword options.failed_folder)
        (settled (settle_each rejected)) r

  -- The body of the circuit breaker's `if`; `suspicious[0]` raises on an empty list.
  unfoldable pub trip : List Rejection → List Rejection → Exec (Run S) (Unit {0})
  unfolding text
  trip rejected [] = raise (other (text "list index out of range"))
  trip rejected (first_one ∷ others) =
      update (set_error (breaker_message (length (first_one ∷ others)) first_one.error))
      >> settle_each (keep is_parked rejected)

  unfoldable pub breaker_trips : List Rejection → SyncResult → Bool
  breaker_trips suspicious result =
      nonzero options.rejection_threshold
      && (leb_ℤ options.rejection_threshold (pos (length suspicious)) && (result.forwarded == 0))

  unfoldable pub settle_rejections : List Rejection → Exec (Run S) (Unit {0})
  settle_rejections rejected r =
      let suspicious = keep is_suspicious rejected in
      if breaker_trips suspicious r.result
      then trip rejected suspicious r
      else settle_each rejected r

  -- The `for` loop of `run`. `rest` is the loop over the UIDs that follow.
  unfoldable pub processed :
      ℕ → Exec (Run S) (Unit {0}) → Result (Unit {0}) → Exec (Run S) (Unit {0})
  processed left rest (ok _) = rest
  processed left rest (raised (abort_run e)) =
      update λ r. record r { error = some e; remaining = left }
  processed left rest (raised e) = raise e

  unfoldable pub out_of_time : ℕ → ℕ → Bool
  out_of_time started now = ltb_ℤ options.time_budget (pos (now - started))

  unfoldable pub each : ℕ → List Text → ℕ → ℕ → List ℕ → Exec (Run S) (Unit {0})
  each started extra total index [] r = (ok tt, r)
  each started extra total index (uid ∷ uids) r =
      let rest = each started extra total (suc index) uids in
      let (now, world) = clock r.world in
      if out_of_time started now
      then update (λ x. record x { remaining = total - index }) (record r { world = world })
      else attempt (process ports options uid extra) (processed (total - index) rest)
          (record r { world = world })

  -- `[gmail.ensure_label(label)] if label else []`
  unfoldable pub extra_labels : Option Text → Exec (Run S) (List Text)
  extra_labels none = pure []
  extra_labels (some []) = pure []
  extra_labels (some (c ∷ name)) = do id ← lift (gmail.ensure_label (c ∷ name)); pure (id ∷ [])

  unfoldable pub settle_if_any : List Rejection → Exec (Run S) (Unit {0})
  settle_if_any [] = pure tt
  settle_if_any (rejection ∷ rejected) = settle_rejections (rejection ∷ rejected)

  unfoldable pub settle_all : Exec (Run S) (Unit {0})
  settle_all r = settle_if_any r.rejected r

  unfoldable pub work : ℕ → List Text → List ℕ → Exec (Run S) (Unit {0})
  work started extra uids = do
    update (λ r. record r { listed = length uids })
    each started extra (length uids) 0 uids
    settle_all

  unfoldable pub listing : ℕ → List Text → Exec (Run S) (Unit {0})
  listing started extra = do
    uids ← lift (mailbox.list_inbox_uids (quarantine_keywords options))
    work started extra uids

  unfoldable pub labelling : ℕ → Exec (Run S) (Unit {0})
  labelling started = do extra ← extra_labels options.label; listing started extra

  -- The body of the `with` block.
  unfoldable pub session : ℕ → Exec (Run S) (Unit {0})
  session started = do lift mailbox.require_keywords; lift gmail.build; labelling started

  -- `__exit__` runs whatever the outcome, which it passes on.
  unfoldable pub closing : Result (Unit {0}) → Exec (Run S) (Unit {0})
  closing outcome r = (outcome, record r { world = mailbox.close r.world })

  unfoldable pub connected : ℕ → Exec (Run S) (Unit {0})
  connected started = do lift mailbox.connect; attempt (session started) closing

  -- The `except` clause of `run`, and the statements below it.
  unfoldable pub finish : ℕ → Run S → Result SyncResult × S
  finish started r =
      let (now, world) = clock r.world in (ok (record r.result { duration = now - started }), world)

  unfoldable pub ended : ℕ → Result (Unit {0}) → Run S → Result SyncResult × S
  ended started (ok _) r = finish started r
  ended started (raised (mailbox_error e)) r =
      finish started (record r { result = record r.result { error = some e } })
  ended started (raised (message_gone e)) r =
      finish started (record r { result = record r.result { error = some e } })
  ended started (raised (gmail_error e)) r =
      finish started (record r { result = record r.result { error = some e.message } })
  ended started (raised e) r = (raised e, r.world)

  unfoldable pub run : S → Result SyncResult × S
  run world =
      let (started, world') = clock world in
      let start : Run S = record { world = world'; result = empty_result; rejected = [] } in
      let (outcome, r) = connected started start in ended started outcome r
