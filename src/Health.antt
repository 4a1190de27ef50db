-- ===== src/Health.antt =====
-- mailtransporter/health.py: `Heartbeat`, and the answers of the health endpoint. Times are
-- milliseconds; a reading of the clock is an argument. The lock makes each method atomic.
pub mod Budget
use mail_transporter.Base.{
  ℕ, ◌+◌, Bool, true, false, not, List, [], ◌∷◌, Text, text, text_eq, leb, ◌==◌, if◌then◌else◌,
}
use mail_transporter.Base.Int.{ℤ, pos, negsuc, pos_part, sub_ℕ}

pub record Heartbeat : Type 0 where
  pub deadline : ℕ
  pub note : Text

-- `__init__`. A negative grace would put the deadline before the clock; it is cut off at 0.
unfoldable pub start : ℕ → ℕ → Heartbeat
unfolding text
start now startup_grace = record { deadline = now + startup_grace; note = text "starting" }

-- `max(ttl, 0.0)` is the positive part.
unfoldable pub touch : ℕ → ℤ → Text → Heartbeat → Heartbeat
touch now ttl note h = record { deadline = now + pos_part ttl; note = note }

unfoldable pub is_ok : ℕ → Heartbeat → Bool
is_ok now h = leb now h.deadline

pub record Status : Type 0 where
  pub healthy : Bool
  pub until_stale : ℤ
  pub note : Text

-- `status`, with the time that is left in milliseconds.
unfoldable pub status : ℕ → Heartbeat → Status
status now h = record {
  healthy = leb now h.deadline;
  until_stale = sub_ℕ h.deadline now;
  note = h.note;
}

-- `self.path.split("?", 1)[0]`
unfoldable pub before_query : Text → Text
before_query [] = []
before_query (c ∷ path) = let rest = before_query path in if c == 63 then [] else c ∷ rest

-- The status code of `do_GET`.
unfoldable pub do_get : Text → ℕ → Heartbeat → ℕ
unfolding text text_eq before_query status
do_get path now h =
    if not (text_eq (before_query path) (text "/healthz"))
    then 404
    else if (status now h).healthy
    then 200
    else 503
