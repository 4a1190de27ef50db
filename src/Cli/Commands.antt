-- ===== src/Cli/Commands.antt =====
-- mailtransporter/cli.py: `_mailbox`, the commands with it, and `main`. The state is that of the
-- process: the world, the registry of secrets, and what has been printed.
use mail_transporter.Base.{
  ℕ, Bool, true, false, not, ◌&&◌, ◌||◌, [], ◌∷◌, List, Text, text, text_eq, ok, Exec, pure,
  attempt, ◌>>=◌, ◌>>◌, if◌then◌else◌,
}
use mail_transporter.Json.{dict, dumps}
use mail_transporter.Imap.Client.{Account}
use mail_transporter.Imap.Headers.{EmailPackage}
use mail_transporter.Secrets.Env.{Registry}
use mail_transporter.Config.Keywords.{Keywords, keywords_from_env}
use mail_transporter.Config.Settings.{ICloudSettings, icloud_from_env, given}
use mail_transporter.Forwarder.State.{SyncResult, succeeded}
use mail_transporter.Forwarder.Report.{to_dict}
use mail_transporter.Runtime.{new_box}
use mail_transporter.Runtime.Wiring.{Services, configure_logging, build_forwarder, run_with}
use mail_transporter.Cli.{
  Console, Line, out, print, RetryArgs, unconfirmed_line, retry_opened, cmd_mark_failed, handled,
}
use mail_transporter.Cli.Listing.{list_opened}

pub record Shell (W : Type 0) : Type 0 where
  pub world : W
  pub registry : Registry
  pub printed : List Line

-- What `parse_args` returns. The UIDs stand in `retry` for both commands that take them.
pub record Args : Type 0 where
  pub command : Text
  pub as_json : Bool
  pub retry : RetryArgs

-- What `_mailbox` returns: the session object is given by its settings.
pub record Opened : Type 0 where
  pub icloud : ICloudSettings
  pub account : Account
  pub keywords : Keywords

module _ {W : Type 0} where
  abbrev pub on_registry : {A : Type 0} → Exec Registry A → Exec (Shell W) A
  on_registry m s = ((m s.registry).0, record s { registry = (m s.registry).1 })

  abbrev pub on_world : {A : Type 0} → Exec W A → Exec (Shell W) A
  on_world m s = ((m s.world).0, record s { world = (m s.world).1 })

  abbrev pub console_of : Shell W → Console W
  console_of s = record { box = new_box s.world; printed = s.printed }

  -- A command with a new session object.
  abbrev pub on_console : {A : Type 0} → Exec (Console W) A → Exec (Shell W) A
  on_console m s =
      let (outcome, c) = m (console_of s) in
      (outcome, record s { world = c.box.world; printed = c.printed })

module _ {W : Type 0} (services : Services W) (email : EmailPackage) where
  -- `_mailbox`
  unfoldable pub mailbox : Bool → Exec Registry Opened
  unfolding icloud_from_env keywords_from_env
  mailbox readonly = do
    icloud ← icloud_from_env services.env services.fetch services.loads
    keywords ← given (keywords_from_env services.env)
    pure (record {
      icloud = icloud;
      account = record {
        readonly = readonly;
        skip_keywords = keywords.failed ∷ keywords.unverified ∷ [];
      };
      keywords = keywords;
    })

  unfoldable pub list_with : Bool → Opened → Exec (Console W) ℕ
  list_with as_json m = list_opened email (services.imap_of m.icloud) m.account as_json m.keywords

  unfoldable pub retry_with : RetryArgs → Opened → Exec (Console W) ℕ
  retry_with args m = retry_opened (services.imap_of m.icloud) m.account args (ok m.keywords)

  unfoldable pub mark_with : List ℕ → Opened → Exec (Console W) ℕ
  mark_with uids m = cmd_mark_failed (services.imap_of m.icloud) m.account uids (ok m.keywords)

  -- `_cmd_list`
  unfoldable pub list_command : Bool → Exec (Shell W) ℕ
  unfolding mailbox list_with
  list_command as_json = on_registry (mailbox true) >>= λ m. on_console (list_with as_json m)

  unfoldable pub retry_command : RetryArgs → Exec (Shell W) ℕ
  unfolding mailbox retry_with
  retry_command args =
      if args.unverified && not args.yes
      then on_console (print unconfirmed_line >> pure 2)
      else (on_registry (mailbox false) >>= λ m. on_console (retry_with args m))

  unfoldable pub mark_command : List ℕ → Exec (Shell W) ℕ
  unfolding mailbox mark_with
  mark_command uids = on_registry (mailbox false) >>= λ m. on_console (mark_with uids m)

  unfoldable pub report_result : SyncResult → Exec (Console W) ℕ
  unfolding to_dict dumps
  report_result result =
      print (out (dumps true (dict (to_dict result)))) >> pure (if succeeded result then 0 else 1)

  unfoldable pub sync_command : Exec (Shell W) ℕ
  unfolding build_forwarder run_with report_result
  sync_command = do
    settings ← on_registry (build_forwarder services)
    result ← on_world (run_with services settings)
    on_console (report_result result)

  unfoldable pub is_listing : Text → Bool
  unfolding text text_eq
  is_listing command =
      text_eq command (text "list-quarantined") || text_eq command (text "list-failed")

  -- The body of the `try`; a command that is none of these falls through to `return 2`.
  unfoldable pub dispatch : Args → Exec (Shell W) ℕ
  unfolding text text_eq is_listing sync_command list_command retry_command mark_command
  dispatch args =
      if text_eq args.command (text "sync")
      then sync_command
      else if is_listing args.command
      then list_command args.as_json
      else if text_eq args.command (text "retry")
      then retry_command args.retry
      else if text_eq args.command (text "mark-failed")
      then mark_command args.retry.uids
      else pure 2

  -- `main`, given the arguments as they were parsed
  unfoldable pub main : Args → Exec (Shell W) ℕ
  unfolding configure_logging dispatch handled
  main args =
      on_registry (given (configure_logging services))
      >> attempt (dispatch args) (λ outcome. on_console (handled outcome))
