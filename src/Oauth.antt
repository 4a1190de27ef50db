-- ===== src/Oauth.antt =====
-- scripts/gmail_oauth.py, over the flow of the google_auth_oauthlib package.
pub mod RoundTrip
use mail_transporter.Base.{
  ℕ, ◌++◌, true, Option, none, some, List, [], ◌∷◌, Text, text, Result, ok, Exec, pure, modify,
  ◌>>=◌, ◌>>◌,
}
use mail_transporter.Json.{Value, string, dict, Members, last, member, dumps}

-- What `run_local_server` returns.
pub record Credentials : Type 0 where
  pub client_id : Text
  pub client_secret : Text
  pub refresh_token : Option Text

-- `InstalledAppFlow.from_client_secrets_file(path, scopes=…)`, and then `run_local_server(…)`
pub record InstalledAppFlow (W : Type 0) : Type 0 where
  pub from_client_secrets_file : Text → List Text → Exec W (Unit {0})
  pub run_local_server : Exec W Credentials

-- What has been written to stdout, and the lines printed to stderr, the latest first.
pub record Script (W : Type 0) : Type 0 where
  pub world : W
  pub written : Text
  pub complaints : List Text

unfoldable pub scopes : List Text
unfolding text
scopes =
    text "https://www.googleapis.com/auth/gmail.insert"
    ∷ text "https://www.googleapis.com/auth/gmail.labels"
    ∷ []

-- `__doc__`
unfoldable pub usage : Text
unfolding text
usage =
    text "One-time helper: obtain a Gmail refresh token for the forwarder.\n\n"
    ++ (text "Usage:\n    pip install google-auth-oauthlib\n"
        ++ (text "    python scripts/gmail_oauth.py client_secret.json > gmail-oauth.json\n\n"
            ++ (text "Then store gmail-oauth.json in Secret Manager (see deploy/02_secrets.sh).\n"
                ++ (text
                      "The OAuth client must be of type \"Desktop app\", and the consent screen must\n"
                    ++ (text
                          "be published (\"In production\"); refresh tokens issued while the app is in\n"
                        ++ text "\"Testing\" expire after 7 days.\n")))))

unfoldable pub no_token : Text
unfolding text
no_token = text "No refresh token returned; revoke the app's access and try again."

-- The dict that is dumped.
unfoldable pub token_members : Credentials → Text → Members
unfolding text
token_members credentials token = member (text "client_id") (string credentials.client_id) (
    member (text "client_secret") (string credentials.client_secret)
      (member (text "refresh_token") (string token) last))

module _ {W : Type 0} (flow : InstalledAppFlow W) where
  abbrev on_flow : {A : Type 0} → Exec W A → Exec (Script W) A
  on_flow m s = ((m s.world).0, record s { world = (m s.world).1 })

  abbrev complain : Text → Exec (Script W) (Unit {0})
  complain line = modify (λ s. record s { complaints = line ∷ s.complaints })

  abbrev write : Text → Exec (Script W) (Unit {0})
  write t = modify (λ s. record s { written = s.written ++ t })

  unfoldable pub dump : Credentials → Option Text → Exec (Script W) ℕ
  unfolding no_token token_members dumps
  dump credentials none = complain no_token >> pure 1
  dump credentials (some []) = complain no_token >> pure 1
  dump credentials (some (c ∷ token)) =
      write (dumps true (dict (token_members credentials (c ∷ token)))) >> write (10 ∷ []) >> pure 0

  unfoldable pub obtain : Text → Exec (Script W) ℕ
  unfolding scopes dump
  obtain path = do
    on_flow (flow.from_client_secrets_file path scopes)
    credentials ← on_flow flow.run_local_server
    dump credentials credentials.refresh_token

  -- `main`, with `sys.argv`
  unfoldable pub main : List Text → Exec (Script W) ℕ
  unfolding usage obtain
  main (program ∷ path ∷ []) = obtain path
  main _ = complain usage >> pure 2
