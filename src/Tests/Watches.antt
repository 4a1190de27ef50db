-- ===== src/Tests/Watches.antt =====
-- watcher.py and health.py at a clock and a forwarder in memory.
use mail_transporter.Base.{
  ℕ, ◌+◌, ◌≡◌, refl, false, none, some, [], ◌∷◌, Text, text, ok, raised, other, arith,
}
use mail_transporter.Base.Int.{pos}
use mail_transporter.Health.{Heartbeat}
use mail_transporter.Watcher.State.{WatchOptions, Watch, WatchPorts, failure}
use mail_transporter.Watcher.Step.{is_stale, decide, step}
use mail_transporter.Watcher.Calls.{Counted, counted, is_due, one_if, step-calls}
use mail_transporter.Watcher.Pacing.{IsPaced, decide-IsPaced, decide-overflow}

-- The forwarder always fails; the state is the time.
abbrev ports : WatchPorts ℕ
ports = record {
  clock = λ n. (n, n + 1);
  list_inbox_uids = λ n. (ok (3 ∷ []), n);
  trigger = λ n. (failure false (some []), n);
}

abbrev options : WatchOptions
options = record { retrigger_interval = pos 600000; request_timeout = pos 900000 }

abbrev heartbeat : Heartbeat
heartbeat = record { deadline = 0; note = [] }

abbrev watch : {S : Type 0} → S → ℕ → Watch S
watch world failures = record {
  world = world;
  heartbeat = heartbeat;
  notified = [];
  last_trigger_at = none;
  not_before = 0;
  failures = failures;
}

abbrev path : Text
path = 47 ∷ 104 ∷ 101 ∷ 97 ∷ 108 ∷ 116 ∷ 104 ∷ 122 ∷ []

decide-IsPaced_example : IsPaced 9 (decide ports options 9 (3 ∷ []) (watch 0 0))
decide-IsPaced_example =
    decide-IsPaced ports options 5 9 (3 ∷ []) (watch 0 0) (omega arith) (omega arith)

decide-overflow_example :
    ((decide ports options 9 (3 ∷ []) (watch 0 1024)).0
      ≡ raised (other (text "int too large to convert to float")))
    × ((decide ports options 9 (3 ∷ []) (watch 0 1024)).1.not_before ≡ 0)
    × ((decide ports options 9 (3 ∷ []) (watch 0 1024)).1.failures ≡ 1024 + 1)
unfolding is_stale
decide-overflow_example =
    decide-overflow ports options 9 (3 ∷ []) (watch 0 1024) (λ n. (refl, refl)) (omega arith) refl

abbrev uncalled : Watch (Counted ℕ)
uncalled = watch (record { world = 0; calls = 0 }) 0

step-calls_example :
    (step (counted ports) options uncalled).1.world.calls
    ≡ 0 + one_if (is_due (counted ports) options 0 (3 ∷ []) uncalled)
step-calls_example = step-calls ports options uncalled
