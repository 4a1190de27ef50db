-- ===== src/Oauth/RoundTrip.antt =====
-- scripts/gmail_oauth.py and mailtransporter/config.py: what the script writes, the forwarder reads.
use mathlib.Core.List.{append_assoc, reverse, reverse-append, reverse-cons, reverse-reverse}
use mail_transporter.Base.{
  ℕ, ◌++◌, Bool, true, false, not, ◌==◌, ◌≡◌, refl, sym, ap, ◌∙◌, Option, some, [], ◌∷◌, Text, text,
  text_eq, strip, lstrip, rstrip, is_space, Result, ok,
}
use mail_transporter.Json.{
  Value, null, boolean, number, seconds, string, list, dict, Values, end, value, Members, last,
  member, dumps, written, written_members, quoted, line_break,
}
use mail_transporter.Secrets.Env.{Env, Registry, registered, from_value, resolve_secret_env, get_or}
use mail_transporter.Config.OauthJson.{
  Json, Fields, no_fields, field, register_json, flat_fields, flattened, required_keys,
}
use mail_transporter.Config.Settings.{
  GmailSettings, nonempty, parsed, check_keys, gmail_of, gmail_from_env,
}
use mail_transporter.Oauth.{
  Credentials, InstalledAppFlow, Script, scopes, token_members, dump, obtain, main,
}

-- The text ends with this character.
abbrev EndsWith : ℕ → Text → Type 0
EndsWith c t = (s : Text) × (t ≡ s ++ (c ∷ []))

append-EndsWith : (c : ℕ) (s t : Text) → EndsWith c t → EndsWith c (s ++ t)
append-EndsWith c s t (r, e) =
    (s ++ r, ap (λ (x : Text). s ++ x) e ∙ sym (append_assoc s r (c ∷ [])))

cons-EndsWith : (c d : ℕ) (t : Text) → EndsWith c t → EndsWith c (d ∷ t)
cons-EndsWith c d t (r, e) = (d ∷ r, ap (λ (x : Text). d ∷ x) e)

lstrip-kept : (drops : ℕ → Bool) (c : ℕ) (s : Text) → drops c ≡ false → lstrip drops (c ∷ s) ≡ c ∷ s
unfolding lstrip
lstrip-kept drops c s h = rw h refl

-- A new line at the end is dropped, if another character stands before it.
rstrip-end :
    (d : ℕ) (m : Text)
    → is_space d ≡ false
    → rstrip is_space ((m ++ (d ∷ [])) ++ (10 ∷ [])) ≡ m ++ (d ∷ [])
unfolding rstrip lstrip is_space
rstrip-end d m h =
    rw (reverse-append (m ++ (d ∷ [])) (10 ∷ []), reverse-append m (d ∷ []))
      (rw (lstrip-kept is_space d (reverse m) h)
        (reverse-cons d (reverse m) ∙ ap (λ (x : Text). x ++ (d ∷ [])) (reverse-reverse m)))

strip-end :
    (c d : ℕ) (m : Text)
    → is_space c ≡ false
    → is_space d ≡ false
    → strip (c ∷ ((m ++ (d ∷ [])) ++ (10 ∷ []))) ≡ c ∷ (m ++ (d ∷ []))
unfolding strip
strip-end c d m p q =
    rw (lstrip-kept is_space c ((m ++ (d ∷ [])) ++ (10 ∷ [])) p) (rstrip-end d (c ∷ m) q)

-- The object is written between braces.
dumped-ends :
    (key : Text) (v : Value) (members : Members)
    → (m : Text) × (dumps true (dict (member key v members)) ≡ 123 ∷ (m ++ (125 ∷ [])))
unfolding dumps written
dumped-ends key v members =
    let (m, ends) = append-EndsWith 125 (line_break 1) _ (
      append-EndsWith 125 (quoted true key) _ (
        cons-EndsWith 125 58 _ (
          cons-EndsWith 125 32 _ (
            append-EndsWith 125 (written true 1 v) _
              (append-EndsWith 125 (written_members true 1 members) _ (line_break 0, refl)))))) in
    (m, ap (λ (x : Text). 123 ∷ x) ends)

abbrev count : Values → ℕ
count end = 0
count (value v vs) = ℕ.suc (count vs)

-- What `json.loads` makes of the text of a value.
abbrev mutual
  pub json_of : Value → Json
  json_of null = Json.scalar false
  json_of (boolean b) = Json.scalar b
  json_of (number n) = Json.scalar (not (n == 0))
  json_of (seconds n) = Json.scalar (not (n == 0))
  json_of (string t) = Json.string t
  json_of (list vs) = Json.array (count vs)
  json_of (dict members) = Json.object (fields_of members)

  pub fields_of : Members → Fields
  fields_of last = no_fields
  fields_of (member key v members) = field key (json_of v) (fields_of members)

strip-file :
    (credentials : Credentials) (token : Text)
    → strip (dumps true (dict (token_members credentials token)) ++ (10 ∷ []))
      ≡ dumps true (dict (token_members credentials token))
unfolding token_members is_space
strip-file credentials token =
    let (m, ends) = dumped-ends (text "client_id") (string credentials.client_id) (
      member (text "client_secret") (string credentials.client_secret)
        (member (text "refresh_token") (string token) last)) in
    rw ends (strip-end 123 125 m refl refl)

-- The settings that hold these credentials.
abbrev pub settings_of : Env → Credentials → Text → GmailSettings
settings_of env credentials token = record {
  client_id = Json.string credentials.client_id;
  client_secret = Json.string credentials.client_secret;
  refresh_token = Json.string token;
  label = nonempty (strip (get_or (env (text "GMAIL_LABEL")) (text "iCloud")));
}

module _ (env : Env) (fetch : Text → Result Text) (loads : Text → Option Json)
    (credentials : Credentials) (token : Text) where
  resolved :
      (values : Registry)
      → env (text "GMAIL_OAUTH_JSON")
        ≡ some (dumps true (dict (token_members credentials token)) ++ (10 ∷ []))
      → (resolve_secret_env env fetch (text "GMAIL_OAUTH_JSON") values).0
        ≡ ok (dumps true (dict (token_members credentials token)))
  unfolding resolve_secret_env from_value registered dumps written token_members
  resolved values h = rw h (ap ok (strip-file credentials token))

  -- No key is missing, and no value is empty.
  loaded :
      (i c t : ℕ) (id secret rest : Text) (values : Registry)
      → credentials.client_id ≡ i ∷ id
      → credentials.client_secret ≡ c ∷ secret
      → token ≡ t ∷ rest
      → (resolve_secret_env env fetch (text "GMAIL_OAUTH_JSON") values).0
        ≡ ok (dumps true (dict (token_members credentials token)))
      → loads (dumps true (dict (token_members credentials token)))
        ≡ some (json_of (dict (token_members credentials token)))
      → (gmail_from_env env fetch loads values).0 ≡ ok (settings_of env credentials token)
  unfolding gmail_from_env parsed flat_fields flattened check_keys required_keys gmail_of
      register_json token_members text text_eq
  loaded i c t id secret rest values p q r found read = rw (found, read, p, q, r) refl

-- The script ends with the code 0 once it has written the file.
obtained :
    {W : Type 0} (flow : InstalledAppFlow W) (program path : Text) (s : Script W)
    (credentials : Credentials) (token rest : Text) (t : ℕ)
    → (flow.from_client_secrets_file path scopes s.world).0 ≡ ok tt
    → (flow.run_local_server (flow.from_client_secrets_file path scopes s.world).1).0
      ≡ ok credentials
    → credentials.refresh_token ≡ some token
    → token ≡ t ∷ rest
    → ((main flow (program ∷ path ∷ []) s).0 ≡ ok 0)
      × ((main flow (program ∷ path ∷ []) s).1.written
          ≡ (s.written ++ dumps true (dict (token_members credentials token))) ++ (10 ∷ []))
unfolding main obtain dump
obtained flow program path s credentials token rest t known granted has long =
    (rw (known, granted, has, long) refl, rw (known, granted, has, long) refl)

-- If the flow grants credentials whose identifier, secret and refresh token are not empty, then the
-- script ends with the code 0, and what it has written to an empty file is a value of
-- GMAIL_OAUTH_JSON from which `GmailSettings.from_env` loads these three values again, provided that
-- `json.loads` reads what `json.dumps` has made of a dict as that dict, whatever its keys are.
pub main-gmail_from_env :
    {W : Type 0} (flow : InstalledAppFlow W) (program path : Text) (s : Script W)
    (credentials : Credentials) (env : Env) (fetch : Text → Result Text)
    (loads : Text → Option Json) (values : Registry) (i c t : ℕ) (id secret rest : Text)
    → s.written ≡ []
    → (flow.from_client_secrets_file path scopes s.world).0 ≡ ok tt
    → (flow.run_local_server (flow.from_client_secrets_file path scopes s.world).1).0
      ≡ ok credentials
    → credentials.client_id ≡ i ∷ id
    → credentials.client_secret ≡ c ∷ secret
    → credentials.refresh_token ≡ some (t ∷ rest)
    → env (text "GMAIL_OAUTH_JSON") ≡ some (main flow (program ∷ path ∷ []) s).1.written
    → loads (dumps true (dict (token_members credentials (t ∷ rest))))
      ≡ some (json_of (dict (token_members credentials (t ∷ rest))))
    → ((main flow (program ∷ path ∷ []) s).0 ≡ ok 0)
      × ((gmail_from_env env fetch loads values).0 ≡ ok (settings_of env credentials (t ∷ rest)))
main-gmail_from_env flow program path s credentials env fetch loads values i c t id secret rest
      empty known granted p q r stored read =
    let (ended, filed) =
      obtained flow program path s credentials (t ∷ rest) rest t known granted r refl in
    let file =
      stored
      ∙ ap some (
          filed
          ∙ ap
              (λ (x : Text).
                (x ++ dumps true (dict (token_members credentials (t ∷ rest)))) ++ (10 ∷ []))
              empty) in
    (
      ended,
      loaded env fetch loads credentials (t ∷ rest) i c t id secret rest values p q refl
          (resolved env fetch loads credentials (t ∷ rest) values file) read,
    )
