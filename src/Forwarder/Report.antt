-- ===== src/Forwarder/Report.antt =====
-- mailtransporter/forwarder.py: `SyncResult.to_dict`.
use mail_transporter.Base.{Option, none, some, Text, text, if◌then◌else◌}
use mail_transporter.Json.{Value, null, number, seconds, string, Members, last, member}
use mail_transporter.Forwarder.State.{SyncResult, succeeded}

abbrev pub optional : Option Text → Value
optional none = null
optional (some t) = string t

-- The fields in their order, and the status.
unfoldable pub to_dict : SyncResult → Members
unfolding text
to_dict r = member (text "listed") (number r.listed) (
    member (text "forwarded") (number r.forwarded) (
      member (text "trashed") (number r.trashed) (
        member (text "skipped") (number r.skipped) (
          member (text "retry_later") (number r.retry_later) (
            member (text "quarantined") (number r.quarantined) (
              member (text "remaining") (number r.remaining) (
                member (text "duration_seconds") (seconds r.duration) (
                  member (text "error") (optional r.error) (
                    member (text "status")
                      (string (if succeeded r then text "ok" else text "error")) last)))))))))
