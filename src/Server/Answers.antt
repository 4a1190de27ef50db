-- ===== src/Server/Answers.antt =====
-- mailtransporter/server.py: what the answer of `sync` holds, and what becomes of the lock.
use mail_transporter.Base.{
  Bool, true, false, ◌≡◌, refl, ◌↔◌, ◌⊎◌, inl, inr, Option, none, some, List, [], ◌∷◌, Text,
  starts_with, occurs, In, Result, ok, raised, arith,
}
use mail_transporter.Forwarder.State.{SyncResult}
use mail_transporter.Secrets.Sealed.{IsPlain, redact-seals}
use mail_transporter.Server.Invoker.{verify_invoker}
use mail_transporter.Server.Sync.{
  ServerPorts, App, Body, forbidden, busy, report, error, Response, error_text_limit, scrubbed,
  payload_error, answer, pass, locked, acquire, entered, admitted, checked, sync,
}

-- No text of the body holds `w`.
abbrev Hidden : Text → Option Text → Type 0
Hidden w none = Unit
Hidden w (some e) = occurs w e ≡ false

abbrev pub Hides : Text → Body → Type 0
Hides w forbidden = Unit
Hides w busy = Unit
Hides w (report result) = Hidden w result.error
Hides w (error e) = occurs w e ≡ false

scrubbed-Hides :
    (secrets : List Text) (w s : Text)
    → IsPlain w
    → In w secrets
    → occurs w (scrubbed secrets s) ≡ false
unfolding scrubbed
scrubbed-Hides secrets w s p i = (redact-seals secrets w s error_text_limit p i).1

payload_error-Hides :
    (secrets : List Text) (w : Text) (e : Option Text)
    → IsPlain w
    → In w secrets
    → Hidden w (payload_error secrets e)
unfolding payload_error
payload_error-Hides secrets w none p i = tt
payload_error-Hides secrets [] (some []) p i = absurd p
payload_error-Hides secrets (c ∷ w) (some []) p i = unfold occurs starts_with in refl
payload_error-Hides secrets w (some (d ∷ e)) p i = scrubbed-Hides secrets w (d ∷ e) p i

module _ {S : Type 0} (ports : ServerPorts S) where
  answer-Hides :
      (outcome : Result SyncResult) (secrets : List Text) (w : Text)
      → IsPlain w
      → In w secrets
      → Hides w (answer ports outcome secrets).body
  unfolding answer
  answer-Hides (ok result) secrets w p i = payload_error-Hides secrets w result.error p i
  answer-Hides (raised e) secrets w p i = scrubbed-Hides secrets w _ p i

  abbrev Discreet : Text → Response × App S → Type 0
  Discreet w (response, app) = In w (ports.secrets app.world) → Hides w response.body

  locked-Discreet : (w : Text) (app : App S) → IsPlain w → Discreet w (locked ports app)
  unfolding locked
  locked-Discreet w app p = answer-Hides (pass ports app).0 _ w p

  entered-Discreet :
      (got : Bool) (w : Text) (app : App S) → IsPlain w → Discreet w (entered ports got app)
  unfolding entered
  entered-Discreet false w app p = λ i. tt
  entered-Discreet true w app p = locked-Discreet w app p

  checked-Discreet :
      (allowed : Bool) (w : Text) (app : App S) → IsPlain w → Discreet w (checked ports allowed app)
  unfolding checked admitted
  checked-Discreet false w app p = λ i. tt
  checked-Discreet true w app p =
      let (got, app') = acquire ports app in entered-Discreet got w app' p

  -- Whatever the caller, the forwarder and Gmail do, no text in the answer of `sync` holds a secret
  -- that is registered after the call, is not empty and has no asterisk.
  pub sync-Hides :
      (allowed_sa audience : Text) (header : Option Text) (app : App S) (w : Text)
      → IsPlain w
      → In w (ports.secrets (sync ports allowed_sa audience header app).1.world)
      → Hides w (sync ports allowed_sa audience header app).0.body
  unfolding sync
  sync-Hides allowed_sa audience header app w p i =
      let (allowed, world) =
        verify_invoker ports.verify header allowed_sa (some audience) app.world in
      checked-Discreet allowed w (record app { world = world }) p i

  admitted-is_locked : (app : App S) → (admitted ports app).1.is_locked ≡ app.is_locked
  unfolding admitted acquire entered locked
  admitted-is_locked app = ground arith

  checked-is_locked :
      (allowed : Bool) (app : App S) → (checked ports allowed app).1.is_locked ≡ app.is_locked
  unfolding checked
  checked-is_locked false app = refl
  checked-is_locked true app = admitted-is_locked app

  -- `sync` leaves the lock as it was: held by another call, or free, also when the pass raises.
  sync-is_locked :
      (allowed_sa audience : Text) (header : Option Text) (app : App S)
      → (sync ports allowed_sa audience header app).1.is_locked ≡ app.is_locked
  unfolding sync
  sync-is_locked allowed_sa audience header app =
      let (allowed, world) =
        verify_invoker ports.verify header allowed_sa (some audience) app.world in
      checked-is_locked allowed (record app { world = world })

  checked-busy :
      (allowed : Bool) (app : App S)
      → app.is_locked ≡ true
      → (((checked ports allowed app).0.code ≡ 403) ⊎ ((checked ports allowed app).0.code ≡ 409))
        × ((checked ports allowed app).1 ≡ app)
  unfolding checked admitted acquire entered
  checked-busy false app e = (inl refl, refl)
  checked-busy true app e = (inr (ground arith), ground arith)

  -- While another call holds the lock, `sync` answers 403 or 409, and nothing but the check of the
  -- token touches the state of the process.
  pub sync-busy :
      (allowed_sa audience : Text) (header : Option Text) (app : App S)
      → app.is_locked ≡ true
      → (((sync ports allowed_sa audience header app).0.code ≡ 403)
          ⊎ ((sync ports allowed_sa audience header app).0.code ≡ 409))
        × ((sync ports allowed_sa audience header app).1 ≡ record app {
          world = (verify_invoker ports.verify header allowed_sa (some audience) app.world).1;
        })
  unfolding sync
  sync-busy allowed_sa audience header app h =
      let (allowed, world) =
        verify_invoker ports.verify header allowed_sa (some audience) app.world in
      checked-busy allowed (record app { world = world }) h

  answer-succeeds :
      (outcome : Result SyncResult) (secrets : List Text)
      → ((answer ports outcome secrets).code ≡ 200)
        ↔ ((result : SyncResult) × (outcome ≡ ok result) × (result.error ≡ none))
  unfolding answer
  answer-succeeds (ok result) secrets =
      (λ h. (result, refl, ground arith), λ (x, same, none_left). ground arith)
  answer-succeeds (raised e) secrets = (λ h. absurd (ground arith), λ (x, same, none_left). cc)

  -- A call that is let in while the lock is free is answered 200 exactly if the pass returns a result
  -- without an error.
  pub sync-succeeds :
      (allowed_sa audience : Text) (header : Option Text) (app : App S)
      → app.is_locked ≡ false
      → (verify_invoker ports.verify header allowed_sa (some audience) app.world).0 ≡ true
      → ((sync ports allowed_sa audience header app).0.code ≡ 200) ↔ (
          (result : SyncResult) × ((pass ports (record {
            world = (verify_invoker ports.verify header allowed_sa (some audience) app.world).1;
            is_locked = true;
            is_built = app.is_built;
          })).0
            ≡ ok result)
          × (result.error ≡ none))
  unfolding sync checked admitted acquire entered locked
  sync-succeeds allowed_sa audience header app free allowed =
      rw (allowed, free) (answer-succeeds _ _)
