-- ===== src/Forwarder/Ledger/Loop.antt =====
-- The two loops of `Forwarder.run` count the calls that return.
use mail_transporter.Base.{
  ℕ, suc, ◌+◌, ◌-◌, Bool, true, false, ◌≡◌, refl, List, [], ◌∷◌, Text, Result, ok, raised,
  abort_run, Exec, length, keep, arith,
}
use mail_transporter.Base.Keeps.{Keeps}
use mail_transporter.Ports.{Ports}
use mail_transporter.Forwarder.State.{Rejection, ForwarderOptions, Run}
use mail_transporter.Forwarder.Loop.{
  settled, settle_each, trip, settle_rejections, processed, each, settle_if_any, is_suspicious,
  is_parked, breaker_trips, out_of_time,
}
use mail_transporter.Forwarder.Trace.{Traced, traced}
use mail_transporter.Forwarder.Ledger.{Agrees, AreApart}
use mail_transporter.Forwarder.Ledger.Process.{quarantine-Agrees, process-Agrees}

module _ {S : Type 0} (ports : Ports S) (options : ForwarderOptions)
    (apart : AreApart options) where
  open ports use {mailbox, gmail, clock}

  abbrev pub Kept : ℕ → ℕ → {A : Type 0} → Exec (Run (Traced S)) A → Type 0
  Kept listed fetches = Keeps (Agrees options listed fetches)

  module _ (listed fetches : ℕ) where
    settled-Kept :
        (rest : Exec (Run (Traced S)) Unit) (outcome : Result Unit)
        → Kept listed fetches rest
        → Kept listed fetches (settled (traced ports) options rest outcome)
    unfolding settled
    settled-Kept rest (ok _) k = k
    settled-Kept rest (raised (abort_run e)) k = λ r h. h
    settled-Kept rest (raised _) k = λ r h. h

    settle_each-Kept :
        (rejected : List Rejection)
        → Kept listed fetches (settle_each (traced ports) options rejected)
    unfolding settle_each
    settle_each-Kept [] r h = h
    settle_each-Kept (j ∷ rejected) r h =
        settled-Kept (settle_each (traced ports) options rejected) _ (settle_each-Kept rejected) _ (
          quarantine-Agrees ports options listed fetches j.uid options.failed_keyword
            options.failed_folder r apart.failed h)

    trip-Kept :
        (rejected suspicious : List Rejection)
        → Kept listed fetches (trip (traced ports) options rejected suspicious)
    unfolding trip
    trip-Kept rejected [] r h = h
    trip-Kept rejected (_ ∷ _) r h = settle_each-Kept (keep is_parked rejected) _ h

    settle_by-Kept :
        (trips : Bool) (rejected : List Rejection) (r : Run (Traced S))
        → breaker_trips (traced ports) options (keep is_suspicious rejected) r.result ≡ trips
        → Agrees options listed fetches r
        → Agrees options listed fetches (settle_rejections (traced ports) options rejected r).1
    unfolding settle_rejections
    settle_by-Kept true rejected r e h = rw e (trip-Kept rejected _ r h)
    settle_by-Kept false rejected r e h = rw e (settle_each-Kept rejected r h)

    pub settle_if_any-Kept :
        (rejected : List Rejection)
        → Kept listed fetches (settle_if_any (traced ports) options rejected)
    unfolding settle_if_any
    settle_if_any-Kept [] r h = h
    settle_if_any-Kept (j ∷ rejected) r h = settle_by-Kept _ (j ∷ rejected) r refl h

  processed-Agrees :
      (listed fetches left : ℕ) (rest : Exec (Run (Traced S)) Unit) (outcome : Result Unit)
      (r : Run (Traced S))
      → (Agrees options listed (suc fetches) r
          → Agrees options listed (suc fetches + left) (rest r).1)
      → Agrees options listed (suc fetches) r
      → (k : ℕ)
      → Agrees options listed
          (suc fetches + left)
          (processed (traced ports) options k rest outcome r).1
  unfolding processed
  processed-Agrees listed fetches left rest (ok _) r k h n = k h
  processed-Agrees listed fetches left rest (raised (abort_run e)) r k h n = omega (arith, h)
  processed-Agrees listed fetches left rest (raised _) r k h n = omega (arith, h)

  each_round-Agrees :
      (late : Bool) (listed fetches started : ℕ) (extra : List Text) (total index uid : ℕ)
      (uids : List ℕ) (r : Run (Traced S))
      → out_of_time (traced ports) options started (clock r.world.world).0 ≡ late
      → ((x : Run (Traced S))
          → Agrees options listed (suc fetches) x
          → Agrees options listed
              (suc fetches + length uids)
              (each (traced ports) options started extra total (suc index) uids x).1)
      → Agrees options listed fetches r
      → Agrees options listed
          (suc fetches + length uids)
          (each (traced ports) options started extra total index (uid ∷ uids) r).1
  unfolding each
  each_round-Agrees true listed fetches started extra total index uid uids r e k h =
      rw e (omega (arith, h))
  each_round-Agrees false listed fetches started extra total index uid uids r e k h = rw e (
      processed-Agrees listed fetches (length uids)
        (each (traced ports) options started extra total (suc index) uids) _ _ (k _)
        (process-Agrees ports options apart listed fetches uid extra _ h) (total - index))

  -- The loop fetches at most as often as there are messages.
  pub each-Agrees :
      (listed fetches started : ℕ) (extra : List Text) (total index : ℕ) (uids : List ℕ)
      (r : Run (Traced S))
      → Agrees options listed fetches r
      → Agrees options listed
          (fetches + length uids)
          (each (traced ports) options started extra total index uids r).1
  unfolding each
  each-Agrees listed fetches started extra total index [] r h = omega (arith, h)
  each-Agrees listed fetches started extra total index (uid ∷ uids) r h =
      let step =
        each_round-Agrees _ listed fetches started extra total index uid uids r refl
          (each-Agrees listed (suc fetches) started extra total (suc index) uids) h in
      omega (arith, step)
