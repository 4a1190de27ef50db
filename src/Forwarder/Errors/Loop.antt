-- ===== src/Forwarder/Errors/Loop.antt =====
-- Once the messages are listed, the rest of `Forwarder.run` raises nothing.
use mail_transporter.Base.{
  ℕ, suc, ◌-◌, Bool, true, false, ◌≡◌, refl, List, [], ◌∷◌, Text, Result, ok, raised, abort_run,
  Exec, continue, keep, length, arith, ◌&&◌, ◌==◌,
}
use mail_transporter.Base.Int.{pos, nonzero, leb_ℤ}
use mail_transporter.Ports.{Ports}
use mail_transporter.Forwarder.State.{ForwarderOptions, Run, Rejection}
use mail_transporter.Forwarder.Loop.{
  settled, settle_each, trip, settle_rejections, processed, each, settle_if_any, settle_all, work,
  is_suspicious, is_parked, breaker_trips, out_of_time,
}
use mail_transporter.Forwarder.Errors.{IsAbort, Raises, IsDeclared}
use mail_transporter.Forwarder.Errors.Process.{quarantine-Aborts, process-Aborts}

module _ {S : Type 0} (ports : Ports S) (options : ForwarderOptions) (declared : IsDeclared ports)
    (n : ℕ) (nonneg : options.rejection_threshold ≡ pos n) where
  abbrev pub Returns : Result (Unit {0}) × Run S → Type 0
  Returns (outcome, r) = outcome ≡ ok tt

  settled-Returns :
      (rest : Exec (Run S) Unit) (outcome : Result Unit) (r : Run S)
      → Raises IsAbort outcome
      → Returns (rest r)
      → Returns (settled ports options rest outcome r)
  unfolding settled
  settled-Returns rest (ok _) r h k = k
  settled-Returns rest (raised (abort_run e)) r h k = refl
  settled-Returns rest (raised _) r h k = absurd h

  settle_each-Returns :
      (rejected : List Rejection) (r : Run S) → Returns (settle_each ports options rejected r)
  unfolding settle_each
  settle_each-Returns [] r = refl
  settle_each-Returns (j ∷ rejected) r =
      settled-Returns (settle_each ports options rejected) _ _
        (quarantine-Aborts ports options declared j.uid options.failed_keyword options.failed_folder
          r)
        (settle_each-Returns rejected _)

  -- With a threshold that is not negative the breaker trips on a nonempty list only.
  trip-Returns :
      (rejected suspicious : List Rejection) (r : Run S)
      → breaker_trips ports options suspicious r.result ≡ true
      → Returns (trip ports options rejected suspicious r)
  unfolding trip breaker_trips
  trip-Returns rejected [] r h = absurd (empty_trips n (rw nonneg at h))
    where
      empty_trips :
          (k : ℕ)
          → (nonzero (pos k) && (leb_ℤ (pos k) (pos 0) && (r.result.forwarded == 0))) ≡ true
          → ⊥
      empty_trips k e = ground arith
  trip-Returns rejected (j ∷ others) r h = settle_each-Returns (keep is_parked rejected) _

  settle_by-Returns :
      (trips : Bool) (rejected : List Rejection) (r : Run S)
      → breaker_trips ports options (keep is_suspicious rejected) r.result ≡ trips
      → Returns (settle_rejections ports options rejected r)
  unfolding settle_rejections
  settle_by-Returns true rejected r e = rw e (trip-Returns rejected _ r e)
  settle_by-Returns false rejected r e = rw e (settle_each-Returns rejected r)

  settle_if_any-Returns :
      (rejected : List Rejection) (r : Run S) → Returns (settle_if_any ports options rejected r)
  unfolding settle_if_any
  settle_if_any-Returns [] r = refl
  settle_if_any-Returns (j ∷ rejected) r = settle_by-Returns _ (j ∷ rejected) r refl

  processed-Returns :
      (left : ℕ) (rest : Exec (Run S) Unit) (outcome : Result Unit) (r : Run S)
      → Raises IsAbort outcome
      → Returns (rest r)
      → Returns (processed ports options left rest outcome r)
  unfolding processed
  processed-Returns left rest (ok _) r h k = k
  processed-Returns left rest (raised (abort_run e)) r h k = refl
  processed-Returns left rest (raised _) r h k = absurd h

  each_round-Returns :
      (late : Bool) (started : ℕ) (extra : List Text) (total index uid : ℕ) (uids : List ℕ)
      (r : Run S)
      → out_of_time ports options started (ports.clock r.world).0 ≡ late
      → ((x : Run S) → Returns (each ports options started extra total (suc index) uids x))
      → Returns (each ports options started extra total index (uid ∷ uids) r)
  unfolding each
  each_round-Returns true started extra total index uid uids r e k = rw e refl
  each_round-Returns false started extra total index uid uids r e k = rw e (
      processed-Returns (total - index) (each ports options started extra total (suc index) uids) _
        _
        (process-Aborts ports options declared uid extra
          (record r { world = (ports.clock r.world).1 }))
        (k _))

  each-Returns :
      (started : ℕ) (extra : List Text) (total index : ℕ) (uids : List ℕ) (r : Run S)
      → Returns (each ports options started extra total index uids r)
  unfolding each
  each-Returns started extra total index [] r = refl
  each-Returns started extra total index (uid ∷ uids) r =
      each_round-Returns _ started extra total index uid uids r refl
        (each-Returns started extra total (suc index) uids)

  after_loop-Returns :
      (outcome : Result Unit) (r : Run S)
      → outcome ≡ ok tt
      → Returns (continue (λ (_ : Unit {0}). settle_all ports options) outcome r)
  unfolding settle_all
  after_loop-Returns (ok _) r h = settle_if_any-Returns r.rejected r
  after_loop-Returns (raised e) r h = h

  pub work-Returns :
      (started : ℕ) (extra : List Text) (uids : List ℕ) (r : Run S)
      → Returns (work ports options started extra uids r)
  unfolding work
  work-Returns started extra uids r =
      after_loop-Returns _ _ (each-Returns started extra (length uids) 0 uids _)
