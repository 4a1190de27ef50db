-- ===== src/Config/Settings.antt =====
-- mailtransporter/config.py: `ICloudSettings`, `GmailSettings`, `ForwarderSettings` and
-- `WatcherSettings` with their `from_env`. Secret Manager (`fetch`) and `json.loads` are parameters.
use mail_transporter.Base.{
  ◌++◌, Option, none, some, List, [], ◌∷◌, Text, text, text_mem, lower, strip, rstrip, repr, keep,
  ◌==◌, Result, ok, raised, config_error, Exec, pure, ◌>>=◌, ◌>>◌, if◌then◌else◌,
}
use mail_transporter.Base.Int.{ℤ, pos}
use mail_transporter.Secrets.Env.{Env, Registry, get_or, resolve_secret_env, require_env, env_int}
use mail_transporter.Config.Keywords.{Keywords, keywords_from_env}
use mail_transporter.Config.OauthJson.{
  Json, Fields, get, is_falsy, register_json, required_keys, joined, missing_keys, invalid_json,
  flat_fields, item,
}

pub record ICloudSettings : Type 0 where
  pub user : Text
  pub password : Text
  pub host : Text
  pub port : ℤ
  pub timeout : ℤ

pub record GmailSettings : Type 0 where
  pub client_id : Json
  pub client_secret : Json
  pub refresh_token : Json
  pub label : Option Text

pub record ForwarderSettings : Type 0 where
  pub icloud : ICloudSettings
  pub gmail : GmailSettings
  pub failed_folder : Text
  pub unverified_folder : Text
  pub keywords : Keywords
  pub quarantine_mode : Text
  pub time_budget_seconds : ℤ
  pub rejection_threshold : ℤ

pub record WatcherSettings : Type 0 where
  pub icloud : ICloudSettings
  pub forwarder_url : Text
  pub failed_keyword : Text
  pub unverified_keyword : Text
  pub retrigger_interval : ℤ
  pub idle_timeout : ℤ
  pub poll_interval : ℤ
  pub request_timeout : ℤ
  pub health_port : ℤ
  pub health_startup_grace : ℤ

abbrev pub given : {A : Type 0} → Result A → Exec Registry A
given outcome values = (outcome, values)

-- `….strip() or None`
abbrev pub nonempty : Text → Option Text
nonempty [] = none
nonempty (c ∷ s) = some (c ∷ s)

module _ (env : Env) (fetch : Text → Result Text) (loads : Text → Option Json) where
  unfoldable pub icloud_from_env : Exec Registry ICloudSettings
  unfolding text
  icloud_from_env = do
    user ← given (require_env env (text "ICLOUD_USER"))
    password ← resolve_secret_env env fetch (text "ICLOUD_PASSWORD")
    port ← given (env_int env (text "IMAP_PORT") (pos 993))
    timeout ← given (env_int env (text "IMAP_TIMEOUT") (pos 60))
    pure (record {
      user = user;
      password = password;
      host = get_or (env (text "IMAP_HOST")) (text "imap.mail.me.com");
      port = port;
      timeout = timeout;
    })

  unfoldable pub parsed : Option Json → Result Fields
  unfolding flat_fields invalid_json
  parsed none = raised (config_error invalid_json)
  parsed (some oauth) = flat_fields oauth

  unfoldable pub check_keys : Fields → List Text → Result Fields
  unfolding missing_keys
  check_keys oauth [] = ok oauth
  check_keys oauth (name ∷ names) = raised (config_error (missing_keys (name ∷ names)))

  unfoldable pub gmail_of : Fields → Exec Registry GmailSettings
  unfolding text strip register_json
  gmail_of oauth = do
    client_secret ← given (item (get (text "client_secret") oauth))
    register_json client_secret
    refresh_token ← given (item (get (text "refresh_token") oauth))
    register_json refresh_token
    client_id ← given (item (get (text "client_id") oauth))
    pure (record {
      client_id = client_id;
      client_secret = client_secret;
      refresh_token = refresh_token;
      label = nonempty (strip (get_or (env (text "GMAIL_LABEL")) (text "iCloud")));
    })

  unfoldable pub gmail_from_env : Exec Registry GmailSettings
  unfolding text parsed check_keys required_keys gmail_of
  gmail_from_env = do
    raw ← resolve_secret_env env fetch (text "GMAIL_OAUTH_JSON")
    oauth ← given (parsed (loads raw))
    complete ← given (check_keys oauth (keep (λ k. is_falsy (get k oauth)) required_keys))
    gmail_of complete

  unfoldable pub modes : List Text
  unfolding text
  modes = text "keyword" ∷ text "folder" ∷ []

  unfoldable pub unknown_mode : Text → Text
  unfolding text repr
  unknown_mode mode =
      text "QUARANTINE_MODE must be one of " ++ (joined modes ++ (text "; got " ++ repr mode))

  -- `… or "keyword"`
  unfoldable pub or_keyword : Text → Text
  unfolding text
  or_keyword [] = text "keyword"
  or_keyword (c ∷ mode) = c ∷ mode

  unfoldable pub check_mode : Text → Result Text
  unfolding text_mem modes unknown_mode
  check_mode mode =
      if text_mem mode modes then ok mode else raised (config_error (unknown_mode mode))

  unfoldable pub mode_from_env : Result Text
  unfolding text lower strip or_keyword check_mode
  mode_from_env =
      check_mode
        (or_keyword (lower (strip (get_or (env (text "QUARANTINE_MODE")) (text "keyword")))))

  unfoldable pub forwarder_from_env : Exec Registry ForwarderSettings
  unfolding text mode_from_env icloud_from_env gmail_from_env
  forwarder_from_env = do
    keywords ← given (keywords_from_env env)
    mode ← given mode_from_env
    icloud ← icloud_from_env
    gmail ← gmail_from_env
    time_budget ← given (env_int env (text "TIME_BUDGET_SECONDS") (pos 480))
    threshold ← given (env_int env (text "REJECTION_THRESHOLD") (pos 3))
    pure (record {
      icloud = icloud;
      gmail = gmail;
      failed_folder = get_or (env (text "FAILED_FOLDER")) (text "Forward-Failed");
      unverified_folder = get_or (env (text "UNVERIFIED_FOLDER")) (text "Forward-Unverified");
      keywords = keywords;
      quarantine_mode = mode;
      time_budget_seconds = time_budget;
      rejection_threshold = threshold;
    })

  unfoldable pub watcher_from_env : Exec Registry WatcherSettings
  unfolding text rstrip icloud_from_env
  watcher_from_env = do
    keywords ← given (keywords_from_env env)
    icloud ← icloud_from_env
    url ← given (require_env env (text "FORWARDER_URL"))
    retrigger ← given (env_int env (text "RETRIGGER_INTERVAL") (pos 600))
    idle ← given (env_int env (text "IDLE_TIMEOUT") (pos 240))
    poll ← given (env_int env (text "POLL_INTERVAL") (pos 60))
    request ← given (env_int env (text "REQUEST_TIMEOUT") (pos 900))
    port ← given (env_int env (text "HEALTH_PORT") (pos 8080))
    grace ← given (env_int env (text "HEALTH_STARTUP_GRACE") (pos 300))
    pure (record {
      icloud = icloud;
      forwarder_url = rstrip (λ c. c == 47) url;
      failed_keyword = keywords.failed;
      unverified_keyword = keywords.unverified;
      retrigger_interval = retrigger;
      idle_timeout = idle;
      poll_interval = poll;
      request_timeout = request;
      health_port = port;
      health_startup_grace = grace;
    })
