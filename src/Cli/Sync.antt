-- ===== src/Cli/Sync.antt =====
-- mailtransporter/cli.py: the `sync` branch of `main`.
use mail_transporter.Base.{
  ℕ, true, ◌≡◌, Option, none, some, ◌∷◌, Text, text, text_eq, Result, ok, if◌then◌else◌,
}
use mail_transporter.Json.{Value, null, number, seconds, string, dict, Members, last, member, dumps}
use mail_transporter.Config.Settings.{ForwarderSettings}
use mail_transporter.Forwarder.State.{SyncResult, succeeded}
use mail_transporter.Forwarder.Report.{to_dict}
use mail_transporter.Runtime.Wiring.{Services, run_with}
use mail_transporter.Cli.{out}
use mail_transporter.Cli.Commands.{Shell}

abbrev pub code_of : SyncResult → ℕ
code_of result = if succeeded result then 0 else 1

-- What a reader of the JSON finds under a key.
abbrev pub under : Text → Members → Option Value
under key last = none
under key (member name v members) =
    let rest = under key members in if text_eq name key then some v else rest

abbrev pub error_value : Option Text → Value
error_value none = null
error_value (some message) = string message

abbrev pub status_of : SyncResult → Text
status_of result = if succeeded result then text "ok" else text "error"

-- The dict says of the run what its result holds.
abbrev pub IsReportOf : SyncResult → Members → Type 0
IsReportOf result members =
    (under (text "listed") members ≡ some (number result.listed))
    × (under (text "forwarded") members ≡ some (number result.forwarded))
    × (under (text "trashed") members ≡ some (number result.trashed))
    × (under (text "skipped") members ≡ some (number result.skipped))
    × (under (text "retry_later") members ≡ some (number result.retry_later))
    × (under (text "quarantined") members ≡ some (number result.quarantined))
    × (under (text "remaining") members ≡ some (number result.remaining))
    × (under (text "duration_seconds") members ≡ some (seconds result.duration))
    × (under (text "error") members ≡ some (error_value result.error))
    × (under (text "status") members ≡ some (string (status_of result)))

module _ {W : Type 0} (services : Services W) where
  -- The code, the line and the world that are left by a run with this result.
  abbrev Ends : SyncResult → ForwarderSettings → Shell W → Result ℕ × Shell W → Type 0
  Ends result s sh (outcome, sh') =
      (outcome ≡ ok (code_of result))
      × (sh'.printed ≡ out (dumps true (dict (to_dict result))) ∷ sh.printed)
      × (sh'.world ≡ (run_with services s sh.world).1)
