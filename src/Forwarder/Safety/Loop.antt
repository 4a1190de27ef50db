-- ===== src/Forwarder/Safety/Loop.antt =====
-- Every call that `Forwarder.run` makes is justified.
use mail_transporter.Base.{
  ℕ, suc, ◌-◌, Bool, true, false, ◌≡◌, refl, Option, none, some, List, [], ◌∷◌, Text, Result, ok,
  raised, mailbox_error, message_gone, gmail_error, abort_run, Exec, continue, pure, attempt, ◌>>◌,
  length,
}
use mail_transporter.Ports.{Ports}
use mail_transporter.Forwarder.State.{
  ForwarderOptions, Run, empty_result, lift, quarantine_keywords,
}
use mail_transporter.Forwarder.Loop.{
  processed, each, extra_labels, settle_all, work, listing, labelling, session, closing, connected,
  finish, ended, run, out_of_time,
}
use mail_transporter.Forwarder.Trace.{Traced, traced}
use mail_transporter.Forwarder.Safety.{IsJustified}
use mail_transporter.Forwarder.Safety.Quarantine.{IsSafe}
use mail_transporter.Forwarder.Safety.Process.{process-IsSafe}
use mail_transporter.Forwarder.Safety.Settling.{settle_if_any-IsSafe}

module _ {S : Type 0} (ports : Ports S) (options : ForwarderOptions) where
  open ports use {mailbox, gmail, clock}

  processed-IsSafe :
      (left : ℕ) (rest : Exec (Run (Traced S)) Unit) (outcome : Result Unit) (r : Run (Traced S))
      → (IsSafe options [] r → IsSafe options [] (rest r).1)
      → IsSafe options [] r
      → IsSafe options [] (processed (traced ports) options left rest outcome r).1
  unfolding processed
  processed-IsSafe left rest (ok _) r k h = k h
  processed-IsSafe left rest (raised (abort_run e)) r k h = h
  processed-IsSafe left rest (raised _) r k h = h

  each_round-IsSafe :
      (late : Bool) (started : ℕ) (extra : List Text) (total index uid : ℕ) (uids : List ℕ)
      (r : Run (Traced S))
      → out_of_time (traced ports) options started (clock r.world.world).0 ≡ late
      → ((x : Run (Traced S))
          → IsSafe options [] x
          → IsSafe options []
              (each (traced ports) options started extra total (suc index) uids x).1)
      → IsSafe options [] r
      → IsSafe options [] (each (traced ports) options started extra total index (uid ∷ uids) r).1
  unfolding each
  each_round-IsSafe true started extra total index uid uids r e k h = rw e h
  each_round-IsSafe false started extra total index uid uids r e k h =
      let ticked : Run (Traced S) = record r {
        world = record r.world { world = (clock r.world.world).1 };
      } in
      rw e (
        processed-IsSafe (total - index)
          (each (traced ports) options started extra total (suc index) uids) _ _ (k _)
          (process-IsSafe ports options [] uid extra ticked h))

  each-IsSafe :
      (started : ℕ) (extra : List Text) (total index : ℕ) (uids : List ℕ) (r : Run (Traced S))
      → IsSafe options [] r
      → IsSafe options [] (each (traced ports) options started extra total index uids r).1
  unfolding each
  each-IsSafe started extra total index [] r h = h
  each-IsSafe started extra total index (uid ∷ uids) r h =
      each_round-IsSafe _ started extra total index uid uids r refl
        (each-IsSafe started extra total (suc index) uids) h

  continue-IsSafe :
      {A : Type 0} (f : A → Exec (Run (Traced S)) Unit) (outcome : Result A) (r : Run (Traced S))
      → ((a : A) → IsSafe options [] (f a r).1)
      → IsSafe options [] r
      → IsSafe options [] (continue f outcome r).1
  continue-IsSafe f (ok a) r k h = k a
  continue-IsSafe f (raised e) r k h = h

  extra_labels-IsSafe :
      (label : Option Text) (r : Run (Traced S))
      → IsSafe options [] r
      → IsSafe options [] (extra_labels (traced ports) options label r).1
  unfolding extra_labels
  extra_labels-IsSafe none r h = h
  extra_labels-IsSafe (some []) r h = h
  extra_labels-IsSafe (some (c ∷ name)) r h =
      label_done-IsSafe (gmail.ensure_label (c ∷ name) r.world.world).0
    where
      label_done-IsSafe :
          (outcome : Result Text)
          → IsSafe options []
              (continue
                (λ id. pure (id ∷ []))
                outcome
                (record r {
                  world = record r.world {
                    world = (gmail.ensure_label (c ∷ name) r.world.world).1;
                  };
                })).1
      label_done-IsSafe (ok id) = h
      label_done-IsSafe (raised e) = h

  work-IsSafe :
      (started : ℕ) (extra : List Text) (uids : List ℕ) (r : Run (Traced S))
      → IsSafe options [] r
      → IsSafe options [] (work (traced ports) options started extra uids r).1
  unfolding work settle_all
  work-IsSafe started extra uids r h =
      let listed : Run (Traced S) = record r {
        result = record r.result { listed = length uids };
      } in
      let looped = each-IsSafe started extra (length uids) 0 uids listed h in
      let (outcome, last) = each (traced ports) options started extra (length uids) 0 uids listed in
      continue-IsSafe (λ (_ : Unit {0}). settle_all (traced ports) options) outcome last
        (λ _. settle_if_any-IsSafe ports options last.rejected last (looped.0, looped.1, looped.1))
        looped

  listing-IsSafe :
      (started : ℕ) (extra : List Text) (r : Run (Traced S))
      → IsSafe options [] r
      → IsSafe options [] (listing (traced ports) options started extra r).1
  unfolding listing
  listing-IsSafe started extra r h =
      let (outcome, last) =
        lift ((traced ports).mailbox.list_inbox_uids (quarantine_keywords options)) r in
      continue-IsSafe (work (traced ports) options started extra) outcome last
        (λ uids. work-IsSafe started extra uids last h) h

  labelling-IsSafe :
      (started : ℕ) (r : Run (Traced S))
      → IsSafe options [] r
      → IsSafe options [] (labelling (traced ports) options started r).1
  unfolding labelling
  labelling-IsSafe started r h =
      let (outcome, last) = extra_labels (traced ports) options options.label r in
      let kept = extra_labels-IsSafe options.label r h in
      continue-IsSafe (listing (traced ports) options started) outcome last
        (λ extra. listing-IsSafe started extra last kept) kept

  session-IsSafe :
      (started : ℕ) (r : Run (Traced S))
      → IsSafe options [] r
      → IsSafe options [] (session (traced ports) options started r).1
  unfolding session
  session-IsSafe started r h =
      let (required, r') = lift (traced ports).mailbox.require_keywords r in
      let (built, r'') = lift (traced ports).gmail.build r' in
      continue-IsSafe
        (λ (_ : Unit {0}).
          lift (traced ports).gmail.build >> labelling (traced ports) options started)
        required r'
        (λ _.
          continue-IsSafe (λ (_ : Unit {0}). labelling (traced ports) options started) built r''
            (λ _. labelling-IsSafe started r'' h) h)
        h

  connected-IsSafe :
      (started : ℕ) (r : Run (Traced S))
      → IsSafe options [] r
      → IsSafe options [] (connected (traced ports) options started r).1
  unfolding connected closing
  connected-IsSafe started r h =
      let (outcome, r') = lift (traced ports).mailbox.connect r in
      continue-IsSafe
        (λ (_ : Unit {0}).
          attempt (session (traced ports) options started) (closing (traced ports) options))
        outcome r' (λ _. session-IsSafe started r' h) h

  ended-IsSafe :
      (started : ℕ) (outcome : Result Unit) (r : Run (Traced S))
      → IsJustified options r.world.trace
      → IsJustified options (ended (traced ports) options started outcome r).1.trace
  unfolding ended finish
  ended-IsSafe started (ok _) r h = h
  ended-IsSafe started (raised (mailbox_error e)) r h = h
  ended-IsSafe started (raised (message_gone e)) r h = h
  ended-IsSafe started (raised (gmail_error e)) r h = h
  ended-IsSafe started (raised _) r h = h

  -- If each call of the history so far is justified by the calls before it, then so is each call
  -- that `run` adds to it, whatever the mailbox, Gmail and the clock answer. A message goes to the
  -- trash right after a fetch that shows the inserted keyword, or after a fetch, a successful
  -- insert of its text and a successful marking; the text that is inserted is that of the message
  -- just fetched, with its labels, and that message carries none of the three keywords; a message
  -- is set aside as failed only if Gmail refused it for good, as unverified only if Gmail has it
  -- and the marking failed; and a move to a folder is the configured mode or follows a refusal of
  -- the quarantine keyword.
  pub run-IsJustified :
      (start : Traced S)
      → IsJustified options start.trace
      → IsJustified options (run (traced ports) options start).1.trace
  unfolding run
  run-IsJustified start h =
      let started = (clock start.world).0 in
      let begun : Run (Traced S) = record {
        world = record start { world = (clock start.world).1 };
        result = empty_result;
        rejected = [];
      } in
      ended-IsSafe started _ _ (connected-IsSafe started begun (h, tt, tt)).0
