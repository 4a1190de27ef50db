-- ===== src/Config/Registered.antt =====
-- mailtransporter/config.py: the credentials that are loaded are registered for redaction.
use mail_transporter.Base.{
  Bool, true, false, ◌≤◌, ◌≡◌, ◌⊎◌, inl, inr, Option, none, some, [], ◌∷◌, Text, text, strip,
  length, leb, keep, In, Raised, Result, ok, raised, if◌then◌else◌, arith,
}
use mail_transporter.Base.Int.{pos}
use mail_transporter.Secrets.Env.{
  Env, Registry, fetched, from_reference, from_value, resolve_secret_env, require_env, env_int,
}
use mail_transporter.Config.Keywords.{keywords_from_env}
use mail_transporter.Config.OauthJson.{
  Json, string, object, array, scalar, Fields, get, item, size, is_falsy, required_keys,
  register_json,
}
use mail_transporter.Config.Settings.{
  GmailSettings, ForwarderSettings, icloud_from_env, parsed, check_keys, gmail_of, gmail_from_env,
  mode_from_env, forwarder_from_env,
}
use mail_transporter.Config.Loading.{
  Known, KnownJson, Grows, After, Loads, register_secret-Known, register_secret-Grows, bind-After,
  after_ok, given-After, registered-After,
}

module _ (env : Env) (fetch : Text → Result Text) (loads : Text → Option Json) where
  fetched-After :
      (name : Text) (outcome : Result Text) (values : Registry)
      → After (Loads values) (fetched env fetch name outcome values)
  unfolding fetched
  fetched-After name (ok payload) values = registered-After (strip payload) values
  fetched-After name (raised e) values = tt

  from_reference-After :
      (name : Text) (reference : Option Text) (values : Registry)
      → After (Loads values) (from_reference env fetch name reference values)
  unfolding from_reference
  from_reference-After name none values = tt
  from_reference-After name (some []) values = tt
  from_reference-After name (some (c ∷ reference)) values = fetched-After name _ values

  from_value-After :
      (name : Text) (value : Option Text) (values : Registry)
      → After (Loads values) (from_value env fetch name value values)
  unfolding from_value
  from_value-After name none values = from_reference-After name _ values
  from_value-After name (some []) values = from_reference-After name _ values
  from_value-After name (some (c ∷ value)) values = registered-After (strip (c ∷ value)) values

  resolve_secret_env-After :
      (name : Text) (values : Registry)
      → After (Loads values) (resolve_secret_env env fetch name values)
  unfolding resolve_secret_env
  resolve_secret_env-After name values = from_value-After name (env name) values

  icloud_from_env-After :
      (values : Registry)
      → After (λ s later. Known s.password later) (icloud_from_env env fetch loads values)
  unfolding icloud_from_env
  icloud_from_env-After values =
      given-After _ (require_env env (text "ICLOUD_USER")) _ values λ user.
        bind-After (Loads values) _ (resolve_secret_env env fetch (text "ICLOUD_PASSWORD")) _ values
          (resolve_secret_env-After (text "ICLOUD_PASSWORD") values)
          λ password later known.
            given-After _ (env_int env (text "IMAP_PORT") (pos 993)) _ later λ port.
              given-After _ (env_int env (text "IMAP_TIMEOUT") (pos 60)) _ later λ timeout. known.0

  guarded-After :
      (b : Bool) (x : Raised) (values : Registry)
      → After
          (λ _ later. Unit {0} × Grows values later)
          ((if b then raised x else ok (tt {0})), values)
  guarded-After true x values = tt
  guarded-After false x values = (tt, λ v h. h)

  Grows-KnownJson :
      (value : Json) (before after : Registry)
      → Grows before after
      → KnownJson value before
      → KnownJson value after
  Grows-KnownJson (string v) before after g h = λ long. g v (h long)
  Grows-KnownJson (object entries) before after g h = tt
  Grows-KnownJson (array n) before after g h = tt
  Grows-KnownJson (scalar b) before after g h = tt

  abbrev Holds : Registry → GmailSettings → Registry → Type 0
  Holds values s later =
      KnownJson s.client_secret later × KnownJson s.refresh_token later × Grows values later

  register_json-After :
      (value : Json) (values : Registry)
      → After (λ _ later. KnownJson value later × Grows values later) (register_json value values)
  unfolding register_json
  register_json-After (string v) values =
      (register_secret-Known v values, register_secret-Grows v values)
  register_json-After (object entries) values = guarded-After (leb 6 (size entries)) _ values
  register_json-After (array n) values = guarded-After (leb 6 n) _ values
  register_json-After (scalar b) values = tt

  gmail_of-After :
      (oauth : Fields) (values : Registry)
      → After (Holds values) (gmail_of env fetch loads oauth values)
  unfolding gmail_of
  gmail_of-After oauth values =
      given-After _ (item (get (text "client_secret") oauth)) _ values λ secret.
        bind-After (λ _ later. KnownJson secret later × Grows values later) _ (register_json secret)
          _ values (register_json-After secret values)
          λ _ later known. given-After _ (item (get (text "refresh_token") oauth)) _ later λ token.
            bind-After (λ _ last. KnownJson token last × Grows later last) _ (register_json token) _
              later (register_json-After token later)
              λ _ last known_too. given-After _ (item (get (text "client_id") oauth)) _ last λ id. (
                Grows-KnownJson secret later last known_too.1 known.0,
                known_too.0,
                λ v h. known_too.1 v (known.1 v h),
              )

  Holds-Grows :
      (x : Result GmailSettings × Registry) (values later : Registry)
      → Grows values later
      → After (Holds later) x
      → After (Holds values) x
  Holds-Grows (ok s, last) values later g h = (h.0, h.1, λ v i. h.2 v (g v i))
  Holds-Grows (raised e, last) values later g h = tt

  gmail_from_env-After :
      (values : Registry) → After (Holds values) (gmail_from_env env fetch loads values)
  unfolding gmail_from_env
  gmail_from_env-After values =
      bind-After (Loads values) _ (resolve_secret_env env fetch (text "GMAIL_OAUTH_JSON")) _ values
        (resolve_secret_env-After (text "GMAIL_OAUTH_JSON") values)
        λ raw later known. given-After _ (parsed env fetch loads (loads raw)) _ later λ oauth.
          given-After _
            (check_keys env fetch loads oauth (keep (λ k. is_falsy (get k oauth)) required_keys)) _
            later λ complete. Holds-Grows _ values later known.1 (gmail_of-After complete later)

  abbrev Registers : ForwarderSettings → Registry → Type 0
  Registers s later =
      Known s.icloud.password later
      × KnownJson s.gmail.client_secret later
      × KnownJson s.gmail.refresh_token later

  forwarder_from_env-After :
      (values : Registry) → After Registers (forwarder_from_env env fetch loads values)
  unfolding forwarder_from_env
  forwarder_from_env-After values = given-After _ (keywords_from_env env) _ values λ keywords.
      given-After _ (mode_from_env env fetch loads) _ values λ mode.
        bind-After (λ s later. Known s.password later) _ (icloud_from_env env fetch loads) _ values
          (icloud_from_env-After values)
          λ icloud later known.
            bind-After (Holds later) _ (gmail_from_env env fetch loads) _ later
              (gmail_from_env-After later)
              λ gmail last held.
                given-After _ (env_int env (text "TIME_BUDGET_SECONDS") (pos 480)) _ last λ budget.
                  given-After _ (env_int env (text "REJECTION_THRESHOLD") (pos 3)) _ last
                    λ threshold. (λ long. held.2 icloud.password (known long), held.0, held.1)

abbrev pub IsSecretOf : ForwarderSettings → Text → Type 0
IsSecretOf s v =
    (s.icloud.password ≡ v)
    ⊎ ((s.gmail.client_secret ≡ string v) ⊎ (s.gmail.refresh_token ≡ string v))

json-Known :
    (j : Json) (v : Text) (values : Registry) → j ≡ string v → KnownJson j values → Known v values
json-Known (string w) v values e h = same w v (ground arith) h
  where
    same : (w v : Text) → w ≡ v → Known w values → Known v values
    same w v e h = rw (← e) h
json-Known (object entries) v values e h = cc
json-Known (array n) v values e h = cc
json-Known (scalar b) v values e h = cc

text-Known : (w v : Text) (values : Registry) → w ≡ v → Known w values → Known v values
text-Known w v values e h = rw (← e) h

-- Once `ForwarderSettings.from_env` has returned, the password of the INBOX, the client secret and
-- the refresh token are in the registry of secrets, as far as they are texts of at least six
-- characters, whatever Secret Manager and the JSON text held.
pub forwarder_from_env-registers :
    (env : Env) (fetch : Text → Result Text) (loads : Text → Option Json) (values : Registry)
    (s : ForwarderSettings) (v : Text)
    → (forwarder_from_env env fetch loads values).0 ≡ ok s
    → IsSecretOf s v
    → 6 ≤ length v
    → In v (forwarder_from_env env fetch loads values).1
forwarder_from_env-registers env fetch loads values s v e secret long =
    let known =
      after_ok (Registers env fetch loads) (forwarder_from_env env fetch loads values) s
        (forwarder_from_env-After env fetch loads values) e in
    let enough : leb 6 (length v) ≡ true = ground arith in
    elim secret [
      | inl password ↦ text-Known s.icloud.password v _ password known.0 enough
      | inr (inl client) ↦ json-Known s.gmail.client_secret v _ client known.1 enough
      | inr (inr token) ↦ json-Known s.gmail.refresh_token v _ token known.2 enough
    ]
