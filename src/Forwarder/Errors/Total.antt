-- ===== src/Forwarder/Errors/Total.antt =====
-- `Forwarder.run` returns a result whatever happens to the services.
use mail_transporter.Base.{
  ℕ, true, ◌≡◌, refl, Option, none, some, List, [], ◌∷◌, Text, text, Result, ok, raised,
  mailbox_error, message_gone, gmail_error, other, Exec, continue, attempt, ◌>>◌, pure, keep, arith,
}
use mail_transporter.Base.Int.{pos, negsuc}
use mail_transporter.Ports.{Ports}
use mail_transporter.Forwarder.State.{
  SyncResult, ForwarderOptions, Run, Rejection, lift, empty_result, quarantine_keywords,
}
use mail_transporter.Forwarder.Loop.{
  trip, settle_rejections, extra_labels, work, listing, labelling, session, closing, connected,
  finish, ended, run, is_suspicious, breaker_trips,
}
use mail_transporter.Forwarder.Errors.{
  IsMailboxError, IsGmailError, IsServiceError, Raises, IsDeclared,
}
use mail_transporter.Forwarder.Errors.Loop.{work-Returns}

of_mailbox :
    {A : Type 0} (outcome : Result A)
    → Raises IsMailboxError outcome
    → Raises IsServiceError outcome
of_mailbox (ok a) h = tt
of_mailbox (raised (mailbox_error e)) h = tt
of_mailbox (raised (message_gone e)) h = tt
of_mailbox (raised _) h = absurd h

of_gmail :
    {A : Type 0} (outcome : Result A) → Raises IsGmailError outcome → Raises IsServiceError outcome
of_gmail (ok a) h = tt
of_gmail (raised (gmail_error e)) h = tt
of_gmail (raised _) h = absurd h

module _ {S : Type 0} where
  abbrev Serves : Result (Unit {0}) × Run S → Type 0
  Serves (outcome, r) = Raises IsServiceError outcome

  of_Returns : (x : Result (Unit {0}) × Run S) → x.0 ≡ ok tt → Serves x
  of_Returns (ok _, r) h = tt
  of_Returns (raised e, r) h = cc

  continue-Serves :
      {A : Type 0} (f : A → Exec (Run S) Unit) (outcome : Result A) (r : Run S)
      → Raises IsServiceError outcome
      → ((a : A) → Serves (f a r))
      → Serves (continue f outcome r)
  continue-Serves f (ok a) r h k = k a
  continue-Serves f (raised e) r h k = h

module _ {S : Type 0} (ports : Ports S) (options : ForwarderOptions) (declared : IsDeclared ports)
    (n : ℕ) (nonneg : options.rejection_threshold ≡ pos n) where
  extra_labels-Serves :
      (label : Option Text) (r : Run S)
      → Raises IsServiceError (extra_labels ports options label r).0
  unfolding extra_labels
  extra_labels-Serves none r = tt
  extra_labels-Serves (some []) r = tt
  extra_labels-Serves (some (c ∷ name)) r =
      labelled-Serves (ports.gmail.ensure_label (c ∷ name) r.world).0
        (of_gmail _ (declared.ensure_label (c ∷ name) r.world))
    where
      labelled-Serves :
          (outcome : Result Text)
          → Raises IsServiceError outcome
          → Raises IsServiceError
              (continue {S = Run S}
                (λ id. pure (id ∷ []))
                outcome
                (record r { world = (ports.gmail.ensure_label (c ∷ name) r.world).1 })).0
      labelled-Serves (ok id) h = tt
      labelled-Serves (raised e) h = h

  session-Serves : (started : ℕ) (r : Run S) → Serves (session ports options started r)
  unfolding session labelling listing
  session-Serves started r =
      let (required, r') = lift ports.mailbox.require_keywords r in
      let (built, r'') = lift ports.gmail.build r' in
      let (labels, r3) = extra_labels ports options options.label r'' in
      let (found, r4) = lift (ports.mailbox.list_inbox_uids (quarantine_keywords options)) r3 in
      continue-Serves (λ (_ : Unit {0}). lift ports.gmail.build >> labelling ports options started)
        required r' (of_mailbox _ (declared.require_keywords r.world))
        λ _.
          continue-Serves (λ (_ : Unit {0}). labelling ports options started) built r''
            (of_gmail _ (declared.build r'.world))
            λ _.
              continue-Serves (listing ports options started) labels r3
                (extra_labels-Serves options.label r'')
                λ extra.
                  continue-Serves (work ports options started extra) found r4
                    (of_mailbox _ (declared.list_inbox_uids (quarantine_keywords options) r3.world))
                    λ uids.
                      of_Returns (work ports options started extra uids r4)
                        (work-Returns ports options declared n nonneg started extra uids r4)

  connected-Serves : (started : ℕ) (r : Run S) → Serves (connected ports options started r)
  unfolding connected closing
  connected-Serves started r =
      let (outcome, r') = lift ports.mailbox.connect r in
      continue-Serves
        (λ (_ : Unit {0}). attempt (session ports options started) (closing ports options)) outcome
        r' (of_mailbox _ (declared.connect r.world)) λ _. session-Serves started r'

  ended-returns :
      (started : ℕ) (outcome : Result Unit) (r : Run S)
      → Raises IsServiceError outcome
      → (result : SyncResult) × ((ended ports options started outcome r).0 ≡ ok result)
  unfolding ended finish
  ended-returns started (ok _) r h = (_, refl)
  ended-returns started (raised (mailbox_error e)) r h = (_, refl)
  ended-returns started (raised (message_gone e)) r h = (_, refl)
  ended-returns started (raised (gmail_error e)) r h = (_, refl)
  ended-returns started (raised _) r h = absurd h

  -- If the mailbox raises only `MailboxError`s and Gmail only `GmailError`s, and the rejection
  -- threshold is not negative, then `run` returns a result; no exception escapes it.
  pub run_returns : (world : S) → (result : SyncResult) × ((run ports options world).0 ≡ ok result)
  unfolding run
  run_returns world =
      let (started, world') = ports.clock world in
      let begun : Run S = record { world = world'; result = empty_result; rejected = [] } in
      ended-returns started _ _ (connected-Serves started begun)

-- A negative threshold: if all rejections are of a kind that parks the message, and nothing was
-- forwarded, the circuit breaker trips and indexes an empty list.
module _ {S : Type 0} (ports : Ports S) (options : ForwarderOptions) where
  negative_threshold_trips :
      (k : ℕ) (suspicious : List Rejection) (result : SyncResult)
      → options.rejection_threshold ≡ negsuc k
      → result.forwarded ≡ 0
      → breaker_trips ports options suspicious result ≡ true
  unfolding breaker_trips
  negative_threshold_trips k suspicious result e z = rw (e, z) (ground arith)

  -- If the threshold is negative, all rejections describe one message only and nothing was
  -- forwarded, then settling them raises `IndexError` and changes nothing.
  pub settle_rejections-negative :
      (k : ℕ) (rejected : List Rejection) (r : Run S)
      → options.rejection_threshold ≡ negsuc k
      → keep is_suspicious rejected ≡ []
      → r.result.forwarded ≡ 0
      → settle_rejections ports options rejected r
        ≡ (raised (other (text "list index out of range")), r)
  unfolding settle_rejections trip
  settle_rejections-negative k rejected r e none_suspicious z =
      rw (negative_threshold_trips k (keep is_suspicious rejected) r.result e z)
        (rw (none_suspicious, trip) refl)
