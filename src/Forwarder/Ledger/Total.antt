-- ===== src/Forwarder/Ledger/Total.antt =====
-- `Forwarder.run` counts the calls that return.
use mail_transporter.Base.{
  ℕ, ap, ◌+◌, ◌≤◌, continue, ◌≡◌, refl, Option, none, some, List, [], ◌∷◌, Text, Result, ok, raised,
  mailbox_error, message_gone, gmail_error, abort_run, config_error, other, Exec, pure, attempt,
  ◌>>◌, length, arith,
}
use mail_transporter.Base.Keeps.{Keeps, continue-Keeps, bind-Keeps}
use mail_transporter.Ports.{Ports}
use mail_transporter.Forwarder.State.{
  SyncResult, ForwarderOptions, Run, empty_result, lift, quarantine_keywords,
}
use mail_transporter.Forwarder.Loop.{
  each, extra_labels, settle_all, work, listing, labelling, session, closing, connected, finish,
  ended, run,
}
use mail_transporter.Forwarder.Trace.{
  Event, fetch_done, insert_done, mark_done, trash_done, move_done, Traced, traced,
}
use mail_transporter.Forwarder.Safety.{IsJustified}
use mail_transporter.Forwarder.Safety.Loop.{run-IsJustified}
use mail_transporter.Forwarder.Ledger.{Tells, Agrees, AreApart, tally, a_fetch, an_attempt}
use mail_transporter.Forwarder.Ledger.Loop.{settle_if_any-Kept, each-Agrees}

-- A fetch that no insert has used yet, at the head of the history.
abbrev unused : List Event → ℕ
unused [] = 0
unused (e ∷ es) = a_fetch e

-- In a justified history every insert follows a fetch of its own.
attempts_fetches :
    (options : ForwarderOptions) (es : List Event)
    → IsJustified options es
    → tally an_attempt es + unused es ≤ tally a_fetch es
attempts_fetches options [] h = omega arith
attempts_fetches options (insert_done raw labels o ∷ es) ((uid, m, extra, rest, e, p, q, k, t), h) =
    let used = ap unused e in
    let bound = attempts_fetches options es h in omega (arith, used, bound)
attempts_fetches options (fetch_done uid o ∷ es) h =
    let bound = attempts_fetches options es h.1 in omega (arith, bound)
attempts_fetches options (mark_done uid k o ∷ es) h =
    let bound = attempts_fetches options es h.1 in omega (arith, bound)
attempts_fetches options (trash_done uid o ∷ es) h =
    let bound = attempts_fetches options es h.1 in omega (arith, bound)
attempts_fetches options (move_done uid f o ∷ es) h =
    let bound = attempts_fetches options es h.1 in omega (arith, bound)

module _ {S : Type 0} (ports : Ports S) (options : ForwarderOptions)
    (apart : AreApart options) where
  open ports use {mailbox, gmail, clock}

  -- Nothing is fetched before the listing, and nothing more than it holds after it.
  abbrev Before : Run (Traced S) → Type 0
  Before = Agrees options 0 0

  abbrev After : Run (Traced S) → Type 0
  After r = Agrees options r.result.listed r.result.listed r

  continue-After :
      {A : Type 0} (f : A → Exec (Run (Traced S)) Unit) (outcome : Result A) (r : Run (Traced S))
      → Before r
      → ((a : A) → After (f a r).1)
      → After (continue f outcome r).1
  continue-After f (ok a) r h k = k a
  continue-After f (raised e) r h k = omega (arith, h)

  ends-After : (n : ℕ) (r : Run (Traced S)) → Agrees options n (0 + n) r → After r
  ends-After n r h = omega (arith, h)

  work-After :
      (started : ℕ) (extra : List Text) (uids : List ℕ) (r : Run (Traced S))
      → Before r
      → After (work (traced ports) options started extra uids r).1
  unfolding work settle_all
  work-After started extra uids r h =
      let n = length uids in
      let listed : Run (Traced S) = record r { result = record r.result { listed = n } } in
      let looped =
        each-Agrees ports options apart n 0 started extra n 0 uids listed (h.0, refl, h.2) in
      let (outcome, last) = each (traced ports) options started extra n 0 uids listed in
      let (result, finished) =
        continue (λ (_ : Unit {0}). settle_all (traced ports) options) outcome last in
      ends-After n finished (
        continue-Keeps (Agrees options n (0 + n))
          (λ (_ : Unit {0}). settle_all (traced ports) options) outcome
          (λ _ x i. settle_if_any-Kept ports options apart n (0 + n) x.rejected x i) last looped)

  extra_labels-Before :
      (label : Option Text) → Keeps Before (extra_labels (traced ports) options label)
  unfolding extra_labels
  extra_labels-Before none r h = h
  extra_labels-Before (some []) r h = h
  extra_labels-Before (some (c ∷ name)) r h =
      bind-Keeps Before (lift ((traced ports).gmail.ensure_label (c ∷ name))) (λ id. pure (id ∷ []))
        (λ x i. i) (λ id x i. i) r h

  labelling-After :
      (started : ℕ) (r : Run (Traced S))
      → Before r
      → After (labelling (traced ports) options started r).1
  unfolding labelling listing
  labelling-After started r h =
      let (outcome, r') = extra_labels (traced ports) options options.label r in
      let kept = extra_labels-Before options.label r h in
      continue-After (listing (traced ports) options started) outcome r' kept λ extra.
        let (found, r'') =
          lift ((traced ports).mailbox.list_inbox_uids (quarantine_keywords options)) r' in
        continue-After (work (traced ports) options started extra) found r'' kept
          λ uids. work-After started extra uids r'' kept

  session-After :
      (started : ℕ) (r : Run (Traced S))
      → Before r
      → After (session (traced ports) options started r).1
  unfolding session
  session-After started r h =
      let (required, r') = lift (traced ports).mailbox.require_keywords r in
      let (built, r'') = lift (traced ports).gmail.build r' in
      continue-After
        (λ (_ : Unit {0}).
          lift (traced ports).gmail.build >> labelling (traced ports) options started)
        required r' h
        λ _.
          continue-After (λ (_ : Unit {0}). labelling (traced ports) options started) built r'' h
            λ _. labelling-After started r'' h

  connected-After :
      (started : ℕ) (r : Run (Traced S))
      → Before r
      → After (connected (traced ports) options started r).1
  unfolding connected closing
  connected-After started r h =
      let (outcome, r') = lift (traced ports).mailbox.connect r in
      continue-After
        (λ (_ : Unit {0}).
          attempt (session (traced ports) options started) (closing (traced ports) options))
        outcome r' h λ _. session-After started r' h

  -- What the caller of `run` gets.
  abbrev Told : Result SyncResult × Traced S → Type 0
  Told (ok result, world) =
      Tells options world.trace result × (tally a_fetch world.trace ≤ result.listed)
  Told (raised _, world) = Unit

  ended-Told :
      (started : ℕ) (outcome : Result Unit) (r : Run (Traced S))
      → After r
      → Told (ended (traced ports) options started outcome r)
  unfolding ended finish
  ended-Told started (ok _) r h = (h.0, h.2)
  ended-Told started (raised (mailbox_error e)) r h = (h.0, h.2)
  ended-Told started (raised (message_gone e)) r h = (h.0, h.2)
  ended-Told started (raised (gmail_error e)) r h = (h.0, h.2)
  ended-Told started (raised (abort_run e)) r h = tt
  ended-Told started (raised (config_error e)) r h = tt
  ended-Told started (raised (other e)) r h = tt

  told :
      (x : Result SyncResult × Traced S) (result : SyncResult)
      → Told x
      → x.0 ≡ ok result
      → Tells options x.1.trace result × (tally a_fetch x.1.trace ≤ result.listed)
  told (ok found, world) result h e = let same : found ≡ result = ground arith in rw (← same) h
  told (raised x, world) result h e = cc

  run-Told : (world : S) → Told (run (traced ports) options (record { world = world; trace = [] }))
  unfolding run
  run-Told world =
      let (started, world') = clock world in
      let begun : Run (Traced S) = record {
        world = record { world = world'; trace = [] };
        result = empty_result;
        rejected = [];
      } in
      ended-Told started _ _ (connected-After started begun ((refl, refl, refl), refl, omega arith))

  -- If the keywords that set a message aside are not the inserted one, then in the result of a run
  -- that returns, whatever its collaborators answer and also if it stops early, `forwarded` is the
  -- number of inserts that Gmail has accepted, `trashed` the number of moves to the trash that
  -- returned, and `quarantined` the number of moves to a folder and of markings with another
  -- keyword than the inserted one that returned.
  pub run-Tells :
      (world : S) (result : SyncResult)
      → (run (traced ports) options (record { world = world; trace = [] })).0 ≡ ok result
      → Tells options
          (run (traced ports) options (record { world = world; trace = [] })).1.trace
          result
  run-Tells world result e = (told _ result (run-Told world) e).0

  -- If the keywords that set a message aside are not the inserted one, then a run that returns has
  -- asked Gmail to insert at most as many messages as its result says were listed, whatever its
  -- collaborators answer.
  pub run-inserts :
      (world : S) (result : SyncResult)
      → (run (traced ports) options (record { world = world; trace = [] })).0 ≡ ok result
      → tally an_attempt (run (traced ports) options (record { world = world; trace = [] })).1.trace
        ≤ result.listed
  run-inserts world result e =
      let start : Traced S = record { world = world; trace = [] } in
      let just = run-IsJustified ports options start tt in
      let fetches = (told _ result (run-Told world) e).1 in
      let attempts = attempts_fetches options (run (traced ports) options start).1.trace just in
      omega (arith, fetches, attempts)
