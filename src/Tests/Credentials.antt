-- ===== src/Tests/Credentials.antt =====
-- `ForwarderSettings.from_env` in a concrete environment.
use mail_transporter.Base.{
  refl, inl, Option, none, some, [], Text, text, text_eq, text_mem, lower, lower_char, is_ascii,
  starts_with, strip, lstrip, rstrip, is_space, In, Result, raised, other, if◌then◌else◌, arith,
}
use mail_transporter.Base.Int.{pos}
use mail_transporter.Secrets.Redaction.{register_secret, add_value}
use mail_transporter.Secrets.Env.{
  Env, registered, from_value, resolve_secret_env, require_env, nonempty_or, env_int, int_of,
}
use mail_transporter.Config.Keywords.{
  reserved_keywords, is_malformed, is_taken, check_keyword, keyword_from_env, check_pair,
  quarantine_keywords_from_env, distinct, check_three, keywords_from_env, default_inserted,
  default_failed, default_unverified,
}
use mail_transporter.Config.OauthJson.{
  Json, string, object, no_fields, field, register_json, required_keys, flattened, flat_fields,
}
use mail_transporter.Config.Settings.{
  ForwarderSettings, icloud_from_env, parsed, check_keys, gmail_of, gmail_from_env, modes,
  or_keyword, check_mode, mode_from_env, forwarder_from_env,
}
use mail_transporter.Config.Registered.{forwarder_from_env-registers}

unfoldable pub environment : Env
unfolding text text_eq
environment name =
    if text_eq name (text "ICLOUD_USER")
    then some (text "user")
    else if text_eq name (text "ICLOUD_PASSWORD")
    then some (text "password")
    else if text_eq name (text "GMAIL_OAUTH_JSON")
    then some (text "{oauth}")
    else if text_eq name (text "FORWARDER_URL")
    then some (text "https://forwarder/")
    else none

abbrev unreachable : Text → Result Text
unreachable resource = raised (other [])

unfoldable pub loaded : Text → Option Json
unfolding text
loaded raw = some (
    object (
      field (text "client_id") (string (text "id")) (
        field (text "client_secret") (string (text "client secret"))
          (field (text "refresh_token") (string (text "refresh token")) no_fields))))

unfoldable pub settings : ForwarderSettings
unfolding text default_inserted default_failed default_unverified
settings = record {
  icloud = record {
    user = text "user";
    password = text "password";
    host = text "imap.mail.me.com";
    port = pos 993;
    timeout = pos 60;
  };
  gmail = record {
    client_id = string (text "id");
    client_secret = string (text "client secret");
    refresh_token = string (text "refresh token");
    label = some (text "iCloud");
  };
  failed_folder = text "Forward-Failed";
  unverified_folder = text "Forward-Unverified";
  keywords = record {
    inserted = default_inserted;
    failed = default_failed;
    unverified = default_unverified;
  };
  quarantine_mode = text "keyword";
  time_budget_seconds = pos 480;
  rejection_threshold = pos 3;
}

forwarder_from_env-registers_example :
    In (text "password") (forwarder_from_env environment unreachable loaded []).1
unfolding forwarder_from_env mode_from_env check_mode or_keyword modes gmail_from_env gmail_of
    check_keys parsed flat_fields flattened required_keys register_json register_secret add_value
    icloud_from_env require_env nonempty_or resolve_secret_env from_value registered env_int int_of
    keywords_from_env keyword_from_env check_keyword is_malformed is_taken reserved_keywords
    quarantine_keywords_from_env check_pair distinct check_three default_inserted default_failed
    default_unverified environment loaded settings text text_eq text_mem lower lower_char is_ascii
    starts_with strip lstrip rstrip is_space
forwarder_from_env-registers_example =
    forwarder_from_env-registers environment unreachable loaded [] settings (text "password") refl
      (inl refl) (omega arith)
