-- ===== src/Tests/Whole.antt =====
-- runtime.py and `run_forever` at services in memory.
use mail_transporter.Base.{
  ℕ, ◌+◌, refl, true, false, none, [], ◌∷◌, ok, raised, mailbox_error, arith,
}
use mail_transporter.Base.Int.{pos, pos_part}
use mail_transporter.Gmail.Api.{Api, answered}
use mail_transporter.Gmail.Classes.{IsDocumentedApi}
use mail_transporter.Runtime.{Live, new_box}
use mail_transporter.Watcher.State.{Watch, failure}
use mail_transporter.Watcher.Daemon.{DaemonPorts, DaemonOptions, run_forever}
use mail_transporter.Watcher.Forever.{IsReady, run_forever-IsReady}
use mail_transporter.Watcher.Patience.{IsMonotone, IsCalm, run_forever-IsCalm}
use mail_transporter.Tests.Server.{Server, inbox}

abbrev pub api : Api Server
api = record {
  create = λ w. (answered tt, w);
  list_labels = λ w. (answered [], w);
  create_label = λ name w. (answered (49 ∷ []), w);
  insert = λ raw labels resumable w. (answered (50 ∷ []), w);
}

pub api-IsDocumented : IsDocumentedApi api
api-IsDocumented = record {
  create = λ w. tt;
  list_labels = λ w. tt;
  create_label = λ name w. tt;
  insert = λ raw labels resumable w. tt;
}

abbrev live : Live Server
live = record { box = new_box inbox; label_cache = [] }

-- A server that drops the connection in IDLE, and a forwarder that always fails; the state is the
-- time.
abbrev ports : DaemonPorts ℕ
ports = record {
  watch = record {
    clock = λ n. (n, n + 1);
    list_inbox_uids = λ n. (ok (3 ∷ []), n);
    trigger = λ n. (failure false none, n);
  };
  connect = λ n. (ok tt, n);
  close = λ n. n;
  supports_idle = λ n. true;
  idle_wait = λ timeout n. (raised (mailbox_error []), n);
  sleep = λ duration n. (ok tt, n + pos_part duration);
}

abbrev options : DaemonOptions
options = record {
  watch = record { retrigger_interval = pos 600000; request_timeout = pos 900000 };
  timeout = pos 60000;
  idle_timeout = pos 240000;
  poll_interval = pos 60000;
  max_sessions = none;
}

abbrev loop : Watch ℕ
loop = record {
  world = 0;
  heartbeat = record { deadline = 0; note = [] };
  notified = [];
  last_trigger_at = none;
  not_before = 0;
  failures = 0;
}

run_forever-IsReady_example : IsReady (run_forever ports options 1000 loop)
run_forever-IsReady_example = run_forever-IsReady ports options (λ n s. refl) refl 1000 loop

abbrev time : ℕ → ℕ
time n = n

ports-IsMonotone : IsMonotone time ports
ports-IsMonotone = record {
  reads = λ n. refl;
  ticks = λ n. omega arith;
  lists = λ n. omega arith;
  triggers = λ n. omega arith;
  connects = λ n. omega arith;
  closes = λ n. omega arith;
  idles = λ timeout n. omega arith;
  sleeps = λ duration n. omega arith;
}

run_forever-IsCalm_example : IsCalm time (run_forever ports options 1000 loop).1.watch
run_forever-IsCalm_example =
    run_forever-IsCalm time ports options ports-IsMonotone 1000 loop (omega arith)
