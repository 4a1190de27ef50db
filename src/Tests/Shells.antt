-- ===== src/Tests/Shells.antt =====
-- cli.py as a whole, in a concrete environment, at the server and the Gmail API in memory.
use mail_transporter.Base.{
  ◌≡◌, refl, true, false, [], ◌∷◌, Text, text, text_eq, text_mem, lower, lower_char, is_ascii,
  starts_with, strip, lstrip, rstrip, is_space, ok,
}
use mail_transporter.Base.Int.{pos}
use mail_transporter.Secrets.Redaction.{register_secret, add_value}
use mail_transporter.Secrets.Env.{
  registered, from_value, resolve_secret_env, require_env, nonempty_or, env_int, int_of,
}
use mail_transporter.Config.Keywords.{
  reserved_keywords, is_malformed, is_taken, check_keyword, keyword_from_env, check_pair,
  quarantine_keywords_from_env, distinct, check_three, keywords_from_env, default_inserted,
  default_failed, default_unverified,
}
use mail_transporter.Config.OauthJson.{register_json, required_keys, flattened, flat_fields}
use mail_transporter.Config.Settings.{
  WatcherSettings, icloud_from_env, parsed, check_keys, gmail_of, gmail_from_env, modes, or_keyword,
  check_mode, mode_from_env, forwarder_from_env, watcher_from_env,
}
use mail_transporter.Runtime.{built_account}
use mail_transporter.Runtime.Wiring.{Services, build_forwarder, options_of}
use mail_transporter.Watcher.Wiring.{watcher_account}
use mail_transporter.Cli.{RetryArgs}
use mail_transporter.Cli.Commands.{Shell, Args, Opened, list_command, mailbox}
use mail_transporter.Cli.ReadOnly.{Reads, list_command-reads}
use mail_transporter.Cli.Agreement.{processes_agree}
use mail_transporter.Tests.Server.{Server, server, inbox}
use mail_transporter.Tests.Whole.{api}
use mail_transporter.Tests.Lists.{email}
use mail_transporter.Tests.Credentials.{environment, loaded, settings}

abbrev services : Services Server
services = record {
  env = environment;
  fetch = λ resource. ok [];
  loads = loaded;
  basic_config = λ level. ok tt;
  imap_of = λ icloud. server;
  api_of = λ gmail. api;
  clock = λ w. (0, w);
}

abbrev shell : Shell Server
shell = record { world = inbox; registry = []; printed = [] }

abbrev no_uids : RetryArgs
no_uids = record { uids = []; every = false; unverified = false; yes = false }

abbrev asking : Text → Args
asking command = record { command = command; as_json = false; retry = no_uids }

-- The reading calls of the server leave its messages alone.
server-Reads : Reads (λ w. w ≡ inbox) server
unfolding server
server-Reads = record {
  create = λ w h. h;
  login = λ w h. h;
  select_inbox = λ w h. h;
  logout = λ w h. h;
  shutdown = λ w h. h;
  has_capability = λ name w h. h;
  search = λ criteria w h. h;
  fetch = λ uids keys w h. h;
}

list_command-reads_example : (list_command services email false shell).1.world ≡ inbox
list_command-reads_example =
    list_command-reads services email (λ w. w ≡ inbox) (λ icloud. server-Reads) false shell refl

unfoldable watcher : WatcherSettings
unfolding text settings default_failed default_unverified
watcher = record {
  icloud = settings.icloud;
  forwarder_url = text "https://forwarder";
  failed_keyword = default_failed;
  unverified_keyword = default_unverified;
  retrigger_interval = pos 600;
  idle_timeout = pos 240;
  poll_interval = pos 60;
  request_timeout = pos 900;
  health_port = pos 8080;
  health_startup_grace = pos 300;
}

unfoldable opened : Opened
unfolding settings default_failed default_unverified
opened = record {
  icloud = settings.icloud;
  account = record { readonly = true; skip_keywords = default_failed ∷ default_unverified ∷ [] };
  keywords = settings.keywords;
}

processes_agree_example :
    (settings.icloud ≡ watcher.icloud)
    × (settings.icloud ≡ opened.icloud)
    × ((built_account (options_of settings)).skip_keywords
        ≡ (watcher_account watcher).skip_keywords)
    × (settings.keywords ≡ opened.keywords)
unfolding build_forwarder forwarder_from_env watcher_from_env mailbox mode_from_env check_mode
    or_keyword modes gmail_from_env gmail_of check_keys parsed flat_fields flattened required_keys
    register_json register_secret add_value icloud_from_env require_env nonempty_or
    resolve_secret_env from_value registered env_int int_of keywords_from_env keyword_from_env
    check_keyword is_malformed is_taken reserved_keywords quarantine_keywords_from_env check_pair
    distinct check_three default_inserted default_failed default_unverified environment loaded
    settings watcher opened text text_eq text_mem lower lower_char is_ascii starts_with strip lstrip
    rstrip is_space
processes_agree_example =
    processes_agree services email settings watcher opened true [] [] [] refl refl refl
