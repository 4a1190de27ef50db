-- ===== src/Tests/Endpoint.antt =====
-- server.py at a token check and a forwarder in memory.
use mail_transporter.Base.{
  ℕ, zero, suc, ◌+◌, ◌≡◌, refl, ◌↔◌, ◌⊎◌, inl, Bool, true, false, none, some, [], ◌∷◌, Text, text,
  text_eq, starts_with, Result, ok, raised, config_error,
}
use mail_transporter.Forwarder.State.{SyncResult, empty_result}
use mail_transporter.Server.Invoker.{
  bearer, is_email, is_invoker, verify_token, verify_header, verify_audience, verify_invoker,
}
use mail_transporter.Server.Sync.{ServerPorts, App, pass, sync}
use mail_transporter.Server.Answers.{Hides, sync-Hides, sync-busy, sync-succeeds}
use mail_transporter.Server.Verified.{IsVerified, verify_invoker-IsVerified}
use mail_transporter.Server.Exclusion.{arrived, running, Pool}

abbrev secret : Text
secret = 112 ∷ 119 ∷ []

abbrev caller : Text
caller = 115 ∷ []

abbrev url : Text
url = 117 ∷ []

-- The forwarder runs only once; after that it raises an exception that shows the secret.
abbrev ran : ℕ → Result SyncResult
ran zero = ok empty_result
ran (suc n) = raised (config_error secret)

abbrev ports : ServerPorts ℕ
ports = record {
  verify = λ token audience n. (ok (record { email_verified = true; email = some caller }), n);
  build_forwarder = λ n. (ok tt, n);
  run = λ n. (ran n, n + 1);
  secrets = λ n. secret ∷ [];
  class_of = λ name. name;
}

-- "Bearer t"
abbrev header : Text
header = 66 ∷ 101 ∷ 97 ∷ 114 ∷ 101 ∷ 114 ∷ 32 ∷ 116 ∷ []

abbrev app : Bool → ℕ → App ℕ
app is_locked n = record { world = n; is_locked = is_locked; is_built = true }

verify_invoker-IsVerified_example : IsVerified ports.verify (some header) caller (some url) 0
unfolding verify_invoker verify_audience verify_header verify_token is_invoker is_email bearer
    starts_with text text_eq
verify_invoker-IsVerified_example =
    verify_invoker-IsVerified ports.verify (some header) 115 [] (some url) 0 refl

sync-Hides_example : Hides secret (sync ports caller url (some header) (app false 1)).0.body
sync-Hides_example = sync-Hides ports caller url (some header) (app false 1) secret refl (inl refl)

sync-busy_example :
    (((sync ports caller url (some header) (app true 0)).0.code ≡ 403)
      ⊎ ((sync ports caller url (some header) (app true 0)).0.code ≡ 409))
    × ((sync ports caller url (some header) (app true 0)).1 ≡ record (app true 0) {
      world = (verify_invoker ports.verify (some header) caller (some url) 0).1;
    })
sync-busy_example = sync-busy ports caller url (some header) (app true 0) refl

sync-succeeds_example : ((sync ports caller url (some header) (app false 0)).0.code ≡ 200) ↔ (
    (result : SyncResult) × ((pass ports (record {
      world = (verify_invoker ports.verify (some header) caller (some url) 0).1;
      is_locked = true;
      is_built = true;
    })).0
      ≡ ok result)
    × (result.error ≡ none))
unfolding verify_invoker verify_audience verify_header verify_token is_invoker is_email bearer
    starts_with text text_eq
sync-succeeds_example = sync-succeeds ports caller url (some header) (app false 0) refl refl

abbrev two_calls : Pool ℕ
two_calls = record { app = app false 0; calls = arrived ∷ arrived ∷ [] }

abbrev one_inside : Pool ℕ
one_inside = record { app = app true 0; calls = arrived ∷ running ∷ [] }
