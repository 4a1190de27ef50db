-- ===== src/Tests/Hearts.antt =====
-- The heartbeat of the watcher over services that take their time; the state is the time.
use mail_transporter.Base.{
  ℕ, ◌+◌, ◌≡◌, refl, true, false, none, [], ◌∷◌, text, text_eq, ok, raised, mailbox_error, arith,
}
use mail_transporter.Base.Int.{pos, pos_part}
use mail_transporter.Health.{before_query, do_get}
use mail_transporter.Watcher.State.{Watch, failure}
use mail_transporter.Watcher.Daemon.{DaemonPorts, DaemonOptions, run_forever}
use mail_transporter.Watcher.Alive.{run_forever-alive}
use mail_transporter.Watcher.Announced.{Durations, IsPrompt}

abbrev ports : DaemonPorts ℕ
ports = record {
  watch = record {
    clock = λ n. (n, n);
    list_inbox_uids = λ n. (ok (3 ∷ []), n + 50000);
    trigger = λ n. (failure false none, n + 800000);
  };
  connect = λ n. (ok tt, n + 100000);
  close = λ n. n + 1000;
  supports_idle = λ n. true;
  idle_wait = λ timeout n. (raised (mailbox_error []), n + pos_part timeout);
  sleep = λ duration n. (ok tt, n + pos_part duration);
}

abbrev options : DaemonOptions
options = record {
  watch = record { retrigger_interval = pos 600000; request_timeout = pos 900000 };
  timeout = pos 60000;
  idle_timeout = pos 240000;
  poll_interval = pos 60000;
  max_sessions = none;
}

abbrev durations : Durations
durations = record { timeout = 60000; idle = 240000; poll = 60000 }

ports-IsPrompt : IsPrompt ports options durations (λ n. n)
ports-IsPrompt = record {
  clock = λ n. (refl, refl);
  connects = λ n. omega arith;
  lists = λ n. omega arith;
  idles = λ n. omega arith;
  sleeps = λ d n. omega arith;
  closes = λ n. omega arith;
}

abbrev loop : Watch ℕ
loop = record {
  world = 0;
  heartbeat = record { deadline = 300000; note = [] };
  notified = [];
  last_trigger_at = none;
  not_before = 0;
  failures = 0;
}

run_forever-alive_example :
    do_get
      (text "/healthz")
      (run_forever ports options 1000 loop).1.watch.world
      (run_forever ports options 1000 loop).1.watch.heartbeat
    ≡ 200
unfolding before_query text_eq text
run_forever-alive_example =
    run_forever-alive ports options durations (refl, refl, refl) (λ n. n) ports-IsPrompt 1000 loop
      (text "/healthz") (omega arith) refl
