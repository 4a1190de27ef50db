-- ===== src/Forwarder/Accounting/Settle.antt =====
-- `Forwarder._settle_rejections` counts every rejection, or reports an error.
use mail_transporter.Base.{
  ℕ, suc, ◌+◌, ◌≤◌, Bool, true, false, ◌≡◌, refl, sym, ap, Option, none, some, List, [], ◌∷◌, Text,
  Result, ok, raised, abort_run, ◌∙◌, Exec, length, length-keep, keep, or_text, arith,
}
use mail_transporter.Ports.{Ports}
use mail_transporter.Forwarder.State.{ForwarderOptions, Run, Rejection, breaker_message}
use mail_transporter.Forwarder.Loop.{
  settled, settle_each, trip, settle_rejections, settle_if_any, set_error, is_suspicious, is_parked,
  breaker_trips,
}
use mail_transporter.Forwarder.Accounting.{settled_count}
use mail_transporter.Forwarder.Accounting.Process.{Sets, quarantine-Sets}

module _ {S : Type 0} (ports : Ports S) (options : ForwarderOptions) where
  -- The loop over `left` rejections. If it returns with no error, it has counted all of them.
  abbrev pub Settles : ℕ → Run S → Result (Unit {0}) × Run S → Type 0
  Settles left r (outcome, r') =
      (settled_count r'.result ≤ settled_count r.result + left)
      × (r'.result.listed ≡ r.result.listed)
      × (r'.result.remaining ≡ r.result.remaining)
      × (outcome ≡ ok tt
          → r'.result.error ≡ none
          → (settled_count r'.result ≡ settled_count r.result + left) × (r.result.error ≡ none))

  or_text-ne-none : (o : Option Text) (t : Text) → or_text o t ≡ none → ⊥
  or_text-ne-none none t h = cc
  or_text-ne-none (some []) t h = cc
  or_text-ne-none (some (c ∷ s)) t h = cc

  settled-Settles :
      (left : ℕ) (rest : Exec (Run S) Unit) (outcome : Result Unit) (r r' : Run S)
      → Sets ports options r (outcome, r')
      → Settles left r' (rest r')
      → Settles (suc left) r (settled ports options rest outcome r')
  unfolding settled
  settled-Settles left rest (ok _) r r' h k =
      let same = ap (length {A = Rejection}) h.1 in
      (
        omega arith,
        k.1 ∙ h.0.1.0,
        k.2 ∙ h.0.1.1,
        λ o e. let c = k.3 o e in (omega arith, sym h.0.1.2 ∙ c.1),
      )
  settled-Settles left rest (raised (abort_run t)) r r' h k =
      let same = ap (length {A = Rejection}) h.1 in
      (omega arith, h.0.1.0, h.0.1.1, λ o e. absurd (or_text-ne-none _ t e))
  settled-Settles left rest (raised _) r r' h k =
      let same = ap (length {A = Rejection}) h.1 in (omega arith, h.0.1.0, h.0.1.1, λ o e. cc)

  settle_each-Settles :
      (rejected : List Rejection) (r : Run S)
      → Settles (length rejected) r (settle_each ports options rejected r)
  unfolding settle_each
  settle_each-Settles [] r = (omega arith, refl, refl, λ o e. (omega arith, e))
  settle_each-Settles (j ∷ rejected) r =
      let step =
        quarantine-Sets ports options j.uid options.failed_keyword options.failed_folder r in
      settled-Settles (length rejected) (settle_each ports options rejected) _ r _ step
        (settle_each-Settles rejected _)

  trip-Settles :
      (rejected suspicious : List Rejection) (r : Run S)
      → Settles (length rejected) r (trip ports options rejected suspicious r)
  unfolding trip
  trip-Settles rejected [] r = (omega arith, refl, refl, λ o e. cc)
  trip-Settles rejected (j ∷ others) r =
      let tripped : Run S = record r {
        result = set_error (breaker_message (length (j ∷ others)) j.error) r.result;
      } in
      let k = settle_each-Settles (keep is_parked rejected) tripped in
      (
        omega (arith, length-keep is_parked rejected),
        k.1,
        k.2,
        λ o e. absurd (or_text-ne-none _ _ (k.3 o e).1),
      )

  settle_by-Settles :
      (trips : Bool) (rejected : List Rejection) (r : Run S)
      → breaker_trips ports options (keep is_suspicious rejected) r.result ≡ trips
      → Settles (length rejected) r (settle_rejections ports options rejected r)
  unfolding settle_rejections
  settle_by-Settles true rejected r e = rw e (trip-Settles rejected _ r)
  settle_by-Settles false rejected r e = rw e (settle_each-Settles rejected r)

  pub settle_if_any-Settles :
      (rejected : List Rejection) (r : Run S)
      → Settles (length rejected) r (settle_if_any ports options rejected r)
  unfolding settle_if_any
  settle_if_any-Settles [] r = (omega arith, refl, refl, λ o e. (omega arith, e))
  settle_if_any-Settles (j ∷ rejected) r = settle_by-Settles _ (j ∷ rejected) r refl
