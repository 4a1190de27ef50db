-- ===== src/Watcher/Wiring.antt =====
-- mailtransporter/watcher.py: what the settings of the watcher make of its session and its loops
-- (`default_mailbox_factory`, and the parameters that `run_forever` takes from the settings).
use mail_transporter.Base.{true, none, [], ◌∷◌}
use mail_transporter.Config.Settings.{WatcherSettings}
use mail_transporter.Imap.Client.{Account}
use mail_transporter.Runtime.Wiring.{milliseconds}
use mail_transporter.Watcher.Daemon.{DaemonOptions}

-- The session may only read, and knows the quarantine keywords.
unfoldable pub watcher_account : WatcherSettings → Account
watcher_account s = record {
  readonly = true;
  skip_keywords = s.failed_keyword ∷ s.unverified_keyword ∷ [];
}

-- The arguments of `WatchLoop`, and what the loops read of the settings; `main` sets no bound on
-- the number of sessions.
unfoldable pub daemon_options : WatcherSettings → DaemonOptions
daemon_options s = record {
  watch = record {
    retrigger_interval = milliseconds s.retrigger_interval;
    request_timeout = milliseconds s.request_timeout;
  };
  timeout = milliseconds s.icloud.timeout;
  idle_timeout = milliseconds s.idle_timeout;
  poll_interval = milliseconds s.poll_interval;
  max_sessions = none;
}
