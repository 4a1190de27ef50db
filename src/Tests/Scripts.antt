-- ===== src/Tests/Scripts.antt =====
-- scripts/gmail_oauth.py with a flow in memory.
use mail_transporter.Base.{
  ◌≡◌, refl, Option, none, some, [], ◌∷◌, Text, text, text_eq, Result, ok, raised, other,
  if◌then◌else◌,
}
use mail_transporter.Json.{dict}
use mail_transporter.Secrets.Env.{Env}
use mail_transporter.Config.OauthJson.{Json}
use mail_transporter.Config.Settings.{gmail_from_env}
use mail_transporter.Oauth.{Credentials, InstalledAppFlow, Script, token_members, main}
use mail_transporter.Oauth.RoundTrip.{json_of, settings_of, main-gmail_from_env}

abbrev credentials : Credentials
credentials = record {
  client_id = 105 ∷ [];
  client_secret = 115 ∷ [];
  refresh_token = some (34 ∷ 233 ∷ []);
}

abbrev flow : InstalledAppFlow Unit
flow = record {
  from_client_secrets_file = λ path scopes w. (ok tt, w);
  run_local_server = λ w. (ok credentials, w);
}

abbrev started : Script Unit
started = record { world = tt; written = []; complaints = [] }

unfoldable configured : Env
unfolding text text_eq
configured name =
    if text_eq name (text "GMAIL_OAUTH_JSON")
    then some (main flow ([] ∷ [] ∷ []) started).1.written
    else none

abbrev unreachable : Text → Result Text
unreachable resource = raised (other [])

abbrev reader : Text → Option Json
reader file = some (json_of (dict (token_members credentials (34 ∷ 233 ∷ []))))

main-gmail_from_env_example :
    ((main flow ([] ∷ [] ∷ []) started).0 ≡ ok 0)
    × ((gmail_from_env configured unreachable reader []).0
        ≡ ok (settings_of configured credentials (34 ∷ 233 ∷ [])))
unfolding configured text text_eq
main-gmail_from_env_example =
    main-gmail_from_env flow [] [] started credentials configured unreachable reader [] 105 115 34
      [] [] (233 ∷ []) refl refl refl refl refl refl refl refl
