-- ===== src/Watcher/Daemon.antt =====
-- mailtransporter/watcher.py: `run_forever`, as a machine that takes one iteration of a loop at a
-- time. `ports` adds the session, IDLE and `sleep` to what the watch loop uses.
use mail_transporter.Base.{
  ℕ, zero, suc, ◌+◌, ◌*◌, Bool, true, false, Option, none, some, Text, text, min, leb, Raised,
  Result, ok, raised, Exec, ◌>>◌, ◌>>=◌, if◌then◌else◌,
}
use mail_transporter.Base.Int.{ℤ, pos, pos_part, neg_part, sub_ℕ}
use mail_transporter.Watcher.State.{WatchOptions, Watch, WatchPorts, with_margin, beat}
use mail_transporter.Watcher.Step.{step}

pub record DaemonPorts (S : Type 0) : Type 0 where
  pub watch : WatchPorts S
  -- `__enter__` and `__exit__` of a new session
  pub connect : Exec S (Unit {0})
  pub close : S → S
  pub supports_idle : S → Bool
  pub idle_wait : ℤ → Exec S (Unit {0})
  pub sleep : ℤ → Exec S (Unit {0})

-- `WatcherSettings`, as far as the loop reads them, and `max_sessions`.
pub record DaemonOptions : Type 0 where
  pub watch : WatchOptions
  pub timeout : ℤ
  pub idle_timeout : ℤ
  pub poll_interval : ℤ
  pub max_sessions : Option ℕ

pub record Daemon (S : Type 0) : Type 0 where
  pub watch : Watch S
  pub backoff : ℕ
  pub sessions : ℕ

-- Where the control is: at the head of the outer loop, at the head of the inner loop, below the
-- `except` clauses, or outside.
pub data Mode : Type 0 where
  connecting watching lost finished : Mode
  stopped : Raised → Mode

abbrev pub first_backoff : ℕ
first_backoff = 5000

abbrev pub backoff_limit : ℕ
backoff_limit = 300000

abbrev pub plus : ℤ → ℤ → ℤ
plus a b = sub_ℕ (pos_part a + pos_part b) (neg_part a + neg_part b)

-- `settings.icloud.timeout * 3 + HEARTBEAT_MARGIN`
abbrev pub connect_budget : ℤ → ℤ
connect_budget timeout = with_margin (plus timeout (plus timeout timeout))

module _ {S : Type 0} (ports : DaemonPorts S) (options : DaemonOptions) where
  abbrev pub touched : ℤ → Text → Exec (Watch S) (Unit {0})
  touched ttl note w = (ok tt, beat ports.watch ttl note w)

  abbrev pub on_world : Exec S (Unit {0}) → Exec (Watch S) (Unit {0})
  on_world m w = ((m w.world).0, record w { world = (m w.world).1 })

  -- `step` asked for no delay.
  unfoldable pub wait_for_mail : Bool → Exec (Watch S) (Unit {0})
  unfolding beat text
  wait_for_mail true =
      touched (with_margin (plus options.idle_timeout options.timeout)) (text "IMAP IDLE")
      >> on_world (ports.idle_wait options.idle_timeout)
  wait_for_mail false =
      touched (with_margin options.poll_interval) (text "polling")
      >> on_world (ports.sleep options.poll_interval)

  -- What follows `step` in the inner loop.
  unfoldable pub wait : Bool → Option ℕ → Exec (Watch S) (Unit {0})
  unfolding beat text wait_for_mail
  wait supports_idle (some delay) =
      touched (with_margin (pos delay)) (text "sleeping") >> on_world (ports.sleep (pos delay))
  wait supports_idle none = wait_for_mail supports_idle

  unfoldable pub wait_after_step : Option ℕ → Exec (Watch S) (Unit {0})
  unfolding wait
  wait_after_step delay w = wait (ports.supports_idle w.world) delay w

  -- One iteration of the inner loop.
  unfoldable pub round : Exec (Watch S) (Unit {0})
  unfolding beat text step
  round = do
    touched (with_margin options.timeout) (text "listing INBOX")
    delay ← step ports.watch options.watch
    wait_after_step delay

  -- The session is there, or is not; the iteration ended well, or raised. All exceptions are
  -- caught, and the session is closed if there was one.
  unfoldable pub entered : Result (Unit {0}) × Watch S → Daemon S → Mode × Daemon S
  entered (ok _, w) d = (watching, record d { watch = w; backoff = first_backoff })
  entered (raised e, w) d = (lost, record d { watch = w })

  unfoldable pub rounded : Result (Unit {0}) × Watch S → Daemon S → Mode × Daemon S
  rounded (ok _, w) d = (watching, record d { watch = w })
  rounded (raised e, w) d = (lost, record d { watch = record w { world = ports.close w.world } })

  -- The outer `sleep` stands below the `try` statement.
  unfoldable pub slept : Result (Unit {0}) × Watch S → Daemon S → Mode × Daemon S
  slept (ok _, w) d =
      (connecting, record d { watch = w; backoff = min (d.backoff * 2) backoff_limit })
  slept (raised e, w) d = (stopped e, record d { watch = w })

  unfoldable pub has_more : Option ℕ → ℕ → Bool
  has_more none sessions = true
  has_more (some bound) sessions = leb (suc sessions) bound

  unfoldable pub enter : Daemon S → Mode × Daemon S
  unfolding entered beat text
  enter d =
      entered
        ((touched (connect_budget options.timeout) (text "connecting to IMAP")
            >> on_world ports.connect)
          d.watch)
        (record d { sessions = d.sessions + 1 })

  unfoldable pub advance : Mode → Daemon S → Mode × Daemon S
  unfolding enter has_more rounded round slept beat text
  advance connecting d = if has_more options.max_sessions d.sessions then enter d else (finished, d)
  advance watching d = rounded (round d.watch) d
  advance lost d =
      slept
        ((touched (with_margin (pos d.backoff)) (text "reconnect backoff")
            >> on_world (ports.sleep (pos d.backoff)))
          d.watch)
        d
  advance finished d = (finished, d)
  advance (stopped e) d = (stopped e, d)

  unfoldable pub iterate : ℕ → Mode × Daemon S → Mode × Daemon S
  unfolding advance
  iterate zero at = at
  iterate (suc n) (mode, d) = iterate n (advance mode d)

  -- `run_forever`, after `n` iterations of its loops.
  unfoldable pub run_forever : ℕ → Watch S → Mode × Daemon S
  unfolding iterate
  run_forever n loop =
      iterate n (connecting, record { watch = loop; backoff = first_backoff; sessions = 0 })
