-- ===== src/Watcher/State.antt =====
-- mailtransporter/watcher.py: `TriggerResult`, `CloudRunNotifier.trigger`, and the state of
-- `WatchLoop`. Times are in milliseconds.
use mail_transporter.Base.{
  ℕ, ◌+◌, ◌-◌, ◌*◌, ◌^◌, ◌++◌, Bool, true, false, Option, none, some, List, Text, text, take,
  show_nat, Result, ok, raised, other, Exec, message_of, min, leb, ◌==◌, if◌then◌else◌,
}
use mail_transporter.Base.Int.{ℤ, pos_part, neg_part, sub_ℕ}
use mail_transporter.Health.{Heartbeat, touch}

abbrev pub short_delay : ℕ
short_delay = 5000

abbrev pub busy_delay : ℕ
busy_delay = 20000

abbrev pub base_backoff : ℕ
base_backoff = 30000

abbrev pub max_backoff : ℕ
max_backoff = 600000

abbrev pub heartbeat_margin : ℕ
heartbeat_margin = 120000

pub record TriggerResult : Type 0 where
  pub succeeded : Bool
  pub busy : Bool
  pub remaining : ℕ
  pub error : Option Text

-- What `requests.post` returns: the status, the text, and the number under `remaining` if the body
-- is a JSON object that has one.
pub record Response : Type 0 where
  pub status_code : ℕ
  pub body : Text
  pub remaining : Option ℕ

unfoldable pub request_failed : Text → Text
unfolding text
request_failed e = text "request failed: " ++ e

unfoldable pub http_failed : ℕ → Text → Text
unfolding text show_nat
http_failed status body = text "HTTP " ++ (show_nat status ++ (text ": " ++ body))

abbrev pub failure : Bool → Option Text → TriggerResult
failure busy error = record { succeeded = false; busy = busy; remaining = 0; error = error }

-- `CloudRunNotifier.trigger`, given the outcome of the token and the request together.
unfoldable pub trigger_result : Result Response → TriggerResult
unfolding message_of
trigger_result (raised e) = failure false (some (request_failed (message_of e)))
trigger_result (ok response) =
    if response.status_code == 409
    then failure true none
    else if response.status_code == 200
    then record {
      succeeded = true;
      busy = false;
      remaining = elim response.remaining [ none ↦ 0 | some n ↦ n ];
      error = none;
    }
    else failure false (some (http_failed response.status_code (take 500 response.body)))

-- `min(BASE_BACKOFF * 2 ** (failures - 1), MAX_BACKOFF)`: the power is an `int`, and turning it
-- into a `float` for the product raises `OverflowError` from 2 ** 1024 on.
unfoldable pub backoff_delay : ℕ → Result ℕ
unfolding text
backoff_delay failures =
    if leb 1024 (failures - 1)
    then raised (other (text "int too large to convert to float"))
    else ok (min (base_backoff * 2 ^ (failures - 1)) max_backoff)

-- The attributes that `WatchLoop.__init__` fixes.
pub record WatchOptions : Type 0 where
  pub retrigger_interval : ℤ
  pub request_timeout : ℤ

-- `WatchLoop` over the world, with its heartbeat.
pub record Watch (S : Type 0) : Type 0 where
  pub world : S
  pub heartbeat : Heartbeat
  pub notified : List ℕ
  pub last_trigger_at : Option ℕ
  pub not_before : ℕ
  pub failures : ℕ

-- What the loop uses: the clock, the session's listing, and the forwarder.
pub record WatchPorts (S : Type 0) : Type 0 where
  pub clock : S → ℕ × S
  pub list_inbox_uids : Exec S (List ℕ)
  pub trigger : S → TriggerResult × S

abbrev pub ticked : {S : Type 0} → WatchPorts S → Watch S → Watch S
ticked ports w = record w { world = (ports.clock w.world).1 }

-- `ttl + HEARTBEAT_MARGIN`
abbrev pub with_margin : ℤ → ℤ
with_margin ttl = sub_ℕ (pos_part ttl + heartbeat_margin) (neg_part ttl)

unfoldable pub beat : {S : Type 0} → WatchPorts S → ℤ → Text → Watch S → Watch S
unfolding touch
beat ports ttl note w = record w {
  world = (ports.clock w.world).1;
  heartbeat = touch (ports.clock w.world).0 ttl note w.heartbeat;
}
