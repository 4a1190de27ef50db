-- ===== src/Runtime/Wiring.antt =====
-- mailtransporter/runtime.py: `configure_logging`, and `build_forwarder`, from the settings, and the run of what it returns.
use mail_transporter.Base.{ℕ, ◌+◌, ◌*◌, [], Option, Text, text, upper, Result, Exec}
use mail_transporter.Base.Int.{ℤ, pos, negsuc}
use mail_transporter.Secrets.Env.{Env, Registry, get_or}
use mail_transporter.Config.OauthJson.{Json}
use mail_transporter.Config.Settings.{
  ICloudSettings, GmailSettings, ForwarderSettings, forwarder_from_env,
}
use mail_transporter.Imap.Client.{ImapClient}
use mail_transporter.Gmail.Api.{Api}
use mail_transporter.Forwarder.State.{SyncResult, ForwarderOptions}
use mail_transporter.Forwarder.Loop.{run}
use mail_transporter.Runtime.{Live, new_box, live_ports}

-- What a process finds around it: the environment, Secret Manager, `json.loads`, whether
-- `logging.basicConfig` knows the level it is given, the clients of the two services for given
-- credentials, and the clock.
pub record Services (W : Type 0) : Type 0 where
  pub env : Env
  pub fetch : Text → Result Text
  pub loads : Text → Option Json
  pub basic_config : Text → Result (Unit {0})
  pub imap_of : ICloudSettings → ImapClient W
  pub api_of : GmailSettings → Api W
  pub clock : W → ℕ × W

-- Seconds as milliseconds.
abbrev pub milliseconds : ℤ → ℤ
milliseconds (pos n) = pos (n * 1000)
milliseconds (negsuc n) = negsuc (n * 1000 + 999)

unfoldable pub options_of : ForwarderSettings → ForwarderOptions
options_of s = record {
  label = s.gmail.label;
  failed_keyword = s.keywords.failed;
  unverified_keyword = s.keywords.unverified;
  failed_folder = s.failed_folder;
  unverified_folder = s.unverified_folder;
  inserted_keyword = s.keywords.inserted;
  quarantine_mode = s.quarantine_mode;
  time_budget = milliseconds s.time_budget_seconds;
  rejection_threshold = s.rejection_threshold;
}

-- Before the first run there is neither a session nor a label in the cache.
abbrev pub idle_live : {W : Type 0} → W → Live W
idle_live world = record { box = new_box world; label_cache = [] }

module _ {W : Type 0} (services : Services W) where
  -- `configure_logging`, up to the handlers and filters that it sets up
  unfoldable pub configure_logging : Result (Unit {0})
  unfolding text upper
  configure_logging =
      services.basic_config (upper (get_or (services.env (text "LOG_LEVEL")) (text "INFO")))

  -- `build_forwarder()`: the settings decide what the forwarder is.
  unfoldable pub build_forwarder : Exec Registry ForwarderSettings
  build_forwarder = forwarder_from_env services.env services.fetch services.loads

  -- The method `run` of the forwarder with these settings.
  unfoldable pub run_with : ForwarderSettings → Exec W SyncResult
  unfolding options_of
  run_with s world =
      let (outcome, l) =
        run
          (live_ports (services.imap_of s.icloud) (services.api_of s.gmail) (options_of s)
            services.clock)
          (options_of s) (idle_live world) in
      (outcome, l.box.world)
