-- ===== src/Health/Budget.antt =====
-- A heartbeat is good for the budget that it was given, and no longer.
use mail_transporter.Base.{ℕ, ◌+◌, ◌≤◌, ◌<◌, ◌≡◌, ◌↔◌, true, Text, text, text_eq, arith}
use mail_transporter.Base.Int.{ℤ, pos_part}
use mail_transporter.Health.{Heartbeat, touch, status, before_query, do_get}

-- For the path /healthz, after `touch` with a budget, the endpoint answers 200 exactly up to the
-- end of the budget, and 503 exactly after it; a negative budget counts as none.
do_get-touch :
    (path : Text) (now later : ℕ) (ttl : ℤ) (note : Text) (h : Heartbeat)
    → text_eq (before_query path) (text "/healthz") ≡ true
    → ((do_get path later (touch now ttl note h) ≡ 200) ↔ (later ≤ now + pos_part ttl))
      × ((do_get path later (touch now ttl note h) ≡ 503) ↔ (now + pos_part ttl < later))
unfolding do_get touch status
do_get-touch path now later ttl note h e = rw e (ground arith)

pub do_get-alive :
    (path : Text) (now : ℕ) (h : Heartbeat)
    → text_eq (before_query path) (text "/healthz") ≡ true
    → now ≤ h.deadline
    → do_get path now h ≡ 200
unfolding do_get status
do_get-alive path now h e alive = rw e (ground arith)
