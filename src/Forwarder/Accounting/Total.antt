-- ===== src/Forwarder/Accounting/Total.antt =====
-- `Forwarder.run` accounts for every message that it listed.
use mail_transporter.Base.{
  ℕ, ◌+◌, ◌≤◌, ◌≡◌, refl, ap, Option, none, some, List, [], ◌∷◌, Text, Result, ok, raised,
  mailbox_error, message_gone, gmail_error, abort_run, config_error, other, Exec, length, continue,
  attempt, ◌>>◌, pure, arith,
}
use mail_transporter.Ports.{Ports}
use mail_transporter.Forwarder.State.{
  SyncResult, ForwarderOptions, Run, Rejection, lift, empty_result, quarantine_keywords,
}
use mail_transporter.Forwarder.Loop.{
  extra_labels, settle_all, work, listing, labelling, session, closing, connected, finish, ended,
  run,
}
use mail_transporter.Forwarder.Accounting.{settled_count, handled}
use mail_transporter.Forwarder.Accounting.Loop.{Loops, each-Looped}
use mail_transporter.Forwarder.Accounting.Settle.{Settles, settle_if_any-Settles}

-- The counters never pass the number of messages listed.
abbrev pub IsBounded : SyncResult → Type 0
IsBounded r = settled_count r + r.remaining ≤ r.listed

-- They add up to it in a run without an error.
abbrev pub IsExact : SyncResult → Type 0
IsExact r = r.error ≡ none → settled_count r + r.remaining ≡ r.listed

abbrev IsFresh : {S : Type 0} → Run S → Type 0
IsFresh r = (r.result ≡ empty_result) × (r.rejected ≡ [])

abbrev IsBalanced : {S : Type 0} → Result (Unit {0}) × Run S → Type 0
IsBalanced (ok _, r) = IsBounded r.result × IsExact r.result
IsBalanced (raised _, r) = IsBounded r.result

module _ {S : Type 0} (ports : Ports S) (options : ForwarderOptions) where
  settled-IsBalanced :
      (rejected : List Rejection) (outcome : Result Unit) (r r' : Run S)
      → rejected ≡ r.rejected
      → handled r + r.result.remaining ≡ r.result.listed
      → Settles ports options (length rejected) r (outcome, r')
      → IsBalanced (outcome, r')
  settled-IsBalanced rejected (ok tt) r r' e h k =
      let same = ap (length {A = Rejection}) e in
      (omega arith, λ none_left. let c = k.3 refl none_left in omega arith)
  settled-IsBalanced rejected (raised x) r r' e h k =
      let same = ap (length {A = Rejection}) e in omega arith

  looped-IsBalanced :
      (left : ℕ) (outcome : Result Unit) (r r' : Run S)
      → handled r ≡ 0
      → r.result.listed ≡ left
      → Loops ports options left r outcome r'
      → IsBalanced (continue (λ (_ : Unit {0}). settle_all ports options) outcome r')
  unfolding settle_all
  looped-IsBalanced left (ok _) r r' z e h =
      settled-IsBalanced r'.rejected _ r' _ refl (omega arith)
        (settle_if_any-Settles ports options r'.rejected r')
  looped-IsBalanced left (raised _) r r' z e h = omega arith

  work-IsBalanced :
      (started : ℕ) (extra : List Text) (uids : List ℕ) (r : Run S)
      → IsFresh r
      → IsBalanced (work ports options started extra uids r)
  unfolding work
  work-IsBalanced started extra uids r h =
      let listed : Run S = record r { result = record r.result { listed = length uids } } in
      let counted = ap settled_count h.0 in
      let none_rejected = ap (length {A = Rejection}) h.1 in
      looped-IsBalanced (length uids) _ listed _ (omega arith) refl (
        each-Looped ports options started extra (length uids) 0 uids listed (omega arith)
          (ap (λ (x : SyncResult). x.remaining) h.0))

  continue-IsBalanced :
      {A : Type 0} (f : A → Exec (Run S) Unit) (outcome : Result A) (r : Run S)
      → IsFresh r
      → ((a : A) → IsBalanced (f a r))
      → IsBalanced (continue f outcome r)
  continue-IsBalanced f (ok a) r h k = k a
  continue-IsBalanced f (raised e) r h k = rw h.0 (omega arith)

  extra_labels-IsFresh :
      (label : Option Text) (r : Run S) → IsFresh r → IsFresh (extra_labels ports options label r).1
  unfolding extra_labels
  extra_labels-IsFresh none r h = h
  extra_labels-IsFresh (some []) r h = h
  extra_labels-IsFresh (some (c ∷ name)) r h =
      labelled-IsFresh (ports.gmail.ensure_label (c ∷ name) r.world).0
    where
      labelled-IsFresh :
          (outcome : Result Text)
          → IsFresh
              (continue
                (λ id. pure (id ∷ []))
                outcome
                (record r { world = (ports.gmail.ensure_label (c ∷ name) r.world).1 })).1
      labelled-IsFresh (ok id) = h
      labelled-IsFresh (raised e) = h

  labelling-IsBalanced :
      (started : ℕ) (r : Run S) → IsFresh r → IsBalanced (labelling ports options started r)
  unfolding labelling listing
  labelling-IsBalanced started r h =
      let (outcome, r') = extra_labels ports options options.label r in
      let fresh = extra_labels-IsFresh options.label r h in
      continue-IsBalanced (listing ports options started) outcome r' fresh λ extra.
        let (found, r'') = lift (ports.mailbox.list_inbox_uids (quarantine_keywords options)) r' in
        continue-IsBalanced (work ports options started extra) found r'' fresh
          λ uids. work-IsBalanced started extra uids r'' fresh

  session-IsBalanced :
      (started : ℕ) (r : Run S) → IsFresh r → IsBalanced (session ports options started r)
  unfolding session
  session-IsBalanced started r h =
      let (required, r') = lift ports.mailbox.require_keywords r in
      let (built, r'') = lift ports.gmail.build r' in
      continue-IsBalanced
        (λ (_ : Unit {0}). lift ports.gmail.build >> labelling ports options started) required r' h
        λ _.
          continue-IsBalanced (λ (_ : Unit {0}). labelling ports options started) built r'' h
            λ _. labelling-IsBalanced started r'' h

  closing-IsBalanced :
      (outcome : Result Unit) (r : Run S)
      → IsBalanced (outcome, r)
      → IsBalanced (closing ports options outcome r)
  unfolding closing
  closing-IsBalanced (ok _) r h = h
  closing-IsBalanced (raised _) r h = h

  connected-IsBalanced :
      (started : ℕ) (r : Run S) → IsFresh r → IsBalanced (connected ports options started r)
  unfolding connected
  connected-IsBalanced started r h =
      let (outcome, r') = lift ports.mailbox.connect r in
      continue-IsBalanced
        (λ (_ : Unit {0}). attempt (session ports options started) (closing ports options)) outcome
        r' h λ _. closing-IsBalanced _ _ (session-IsBalanced started r' h)

  -- What the caller of `run` gets.
  abbrev Accounts : Result SyncResult → Type 0
  Accounts (ok result) = IsBounded result × IsExact result
  Accounts (raised _) = Unit

  ended-Accounts :
      (started : ℕ) (outcome : Result Unit) (r : Run S)
      → IsBalanced (outcome, r)
      → Accounts (ended ports options started outcome r).0
  unfolding ended finish
  ended-Accounts started (ok _) r h = h
  ended-Accounts started (raised (mailbox_error e)) r h = (h, λ x. cc)
  ended-Accounts started (raised (message_gone e)) r h = (h, λ x. cc)
  ended-Accounts started (raised (gmail_error e)) r h = (h, λ x. cc)
  ended-Accounts started (raised (abort_run e)) r h = tt
  ended-Accounts started (raised (config_error e)) r h = tt
  ended-Accounts started (raised (other e)) r h = tt

  run-Accounts : (world : S) → Accounts (run ports options world).0
  unfolding run
  run-Accounts world =
      let (started, world') = ports.clock world in
      let begun : Run S = record { world = world'; result = empty_result; rejected = [] } in
      ended-Accounts started _ _ (connected-IsBalanced started begun (refl, refl))

  accounted :
      (outcome : Result SyncResult) (result : SyncResult)
      → Accounts outcome
      → outcome ≡ ok result
      → IsBounded result × IsExact result
  accounted (ok found) result h e = same found result h (ground arith)
    where
      same : (x y : SyncResult) → IsBounded x × IsExact x → x ≡ y → IsBounded y × IsExact y
      same x y k f = rw (← f) k
  accounted (raised x) result h e = cc

  -- Whatever its collaborators answer, the result of a run that returns counts no message twice:
  -- `trashed`, `skipped`, `retry_later`, `quarantined` and `remaining` add up to `listed` at most.
  pub run-IsBounded :
      (world : S) (result : SyncResult)
      → (run ports options world).0 ≡ ok result
      → settled_count result + result.remaining ≤ result.listed
  run-IsBounded world result e = (accounted _ result (run-Accounts world) e).0

  -- In a run that returns a result whose `error` is `None`, whatever its collaborators answer,
  -- `trashed`, `skipped`, `retry_later`, `quarantined` and `remaining` add up to exactly `listed`.
  pub run-IsExact :
      (world : S) (result : SyncResult)
      → (run ports options world).0 ≡ ok result
      → result.error ≡ none
      → settled_count result + result.remaining ≡ result.listed
  run-IsExact world result e none_left = (accounted _ result (run-Accounts world) e).1 none_left
