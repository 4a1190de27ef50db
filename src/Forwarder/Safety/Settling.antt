-- ===== src/Forwarder/Safety/Settling.antt =====
-- Every call that `Forwarder._settle_rejections` makes is justified.
use mail_transporter.Base.{
  Bool, true, false, ◌≡◌, refl, List, [], ◌∷◌, Result, ok, raised, abort_run, Exec, All-keep, keep,
}
use mail_transporter.Ports.{Ports}
use mail_transporter.Forwarder.State.{Rejection, ForwarderOptions, Run}
use mail_transporter.Forwarder.Loop.{
  settled, settle_each, trip, settle_rejections, settle_if_any, is_suspicious, is_parked,
  breaker_trips,
}
use mail_transporter.Forwarder.Trace.{Traced, traced}
use mail_transporter.Forwarder.Safety.{rejected_for}
use mail_transporter.Forwarder.Safety.Quarantine.{HasEvidence, IsSafe, quarantine-IsSafe}

module _ {S : Type 0} (ports : Ports S) (options : ForwarderOptions) where
  open ports use {mailbox, gmail, clock}

  settled-IsSafe :
      (pending : List Rejection) (rest : Exec (Run (Traced S)) Unit) (outcome : Result Unit)
      (r : Run (Traced S))
      → (IsSafe options pending r → IsSafe options [] (rest r).1)
      → IsSafe options pending r
      → IsSafe options [] (settled (traced ports) options rest outcome r).1
  unfolding settled
  settled-IsSafe pending rest (ok _) r k h = k h
  settled-IsSafe pending rest (raised (abort_run e)) r k h = (h.0, h.1, tt)
  settled-IsSafe pending rest (raised _) r k h = (h.0, h.1, tt)

  settle_each-IsSafe :
      (rejected : List Rejection) (r : Run (Traced S))
      → IsSafe options rejected r
      → IsSafe options [] (settle_each (traced ports) options rejected r).1
  unfolding settle_each
  settle_each-IsSafe [] r h = h
  settle_each-IsSafe (j ∷ rejected) r h =
      let q =
        quarantine-IsSafe ports options (j ∷ rejected) j.uid options.failed_keyword
          options.failed_folder r (rejected_for j.error j.per_message refl refl h.2.0) h in
      settled-IsSafe rejected (settle_each (traced ports) options rejected) _ _
        (settle_each-IsSafe rejected _) (q.0, q.1, q.2.1)

  trip-IsSafe :
      (rejected suspicious : List Rejection) (r : Run (Traced S))
      → IsSafe options rejected r
      → IsSafe options [] (trip (traced ports) options rejected suspicious r).1
  unfolding trip
  trip-IsSafe rejected [] r h = (h.0, h.1, tt)
  trip-IsSafe rejected (_ ∷ _) r h =
      settle_each-IsSafe (keep is_parked rejected) _
        (h.0, h.1, All-keep (HasEvidence r.world.trace) is_parked rejected h.2)

  settle_by-IsSafe :
      (trips : Bool) (rejected : List Rejection) (r : Run (Traced S))
      → breaker_trips (traced ports) options (keep is_suspicious rejected) r.result ≡ trips
      → IsSafe options rejected r
      → IsSafe options [] (settle_rejections (traced ports) options rejected r).1
  unfolding settle_rejections
  settle_by-IsSafe true rejected r e h = rw e (trip-IsSafe rejected _ r h)
  settle_by-IsSafe false rejected r e h = rw e (settle_each-IsSafe rejected r h)

  pub settle_if_any-IsSafe :
      (rejected : List Rejection) (r : Run (Traced S))
      → IsSafe options rejected r
      → IsSafe options [] (settle_if_any (traced ports) options rejected r).1
  unfolding settle_if_any
  settle_if_any-IsSafe [] r h = h
  settle_if_any-IsSafe (j ∷ rejected) r h = settle_by-IsSafe _ (j ∷ rejected) r refl h
