-- ===== src/Watcher/Alive.antt =====
-- The heartbeat of the watcher: /healthz answers while the calls return in time.
use mail_transporter.Base.{
  ℕ, zero, suc, ◌+◌, ◌*◌, ◌≤◌, Bool, true, false, ◌≡◌, Text, text, text_eq, Result, ok, raised,
  if◌then◌else◌, arith,
}
use mail_transporter.Base.Int.{pos}
use mail_transporter.Health.{before_query, do_get}
use mail_transporter.Health.Budget.{do_get-alive}
use mail_transporter.Watcher.State.{Watch, with_margin}
use mail_transporter.Watcher.Daemon.{
  DaemonPorts, DaemonOptions, Daemon, Mode, connecting, watching, lost, finished, stopped,
  connect_budget, round, entered, rounded, slept, has_more, enter, advance, iterate, run_forever,
}
use mail_transporter.Watcher.Announced.{
  Durations, IsSetTo, IsPrompt, Roomy, margin_of, margin_of_connect, announced-Roomy, round-Roomy,
}

module _ {S : Type 0} (ports : DaemonPorts S) (options : DaemonOptions) (n : Durations)
    (set : IsSetTo options n) (time : S → ℕ) (prompt : IsPrompt ports options n time) where
  abbrev Alive : Watch S → Type 0
  Alive w = time w.world ≤ w.heartbeat.deadline

  -- In time, whatever came of the call.
  entered-Alive :
      (x : Result (Unit {0}) × Watch S) (d : Daemon S)
      → Roomy ports options n set time prompt x.1
      → Alive (entered ports options x d).1.watch
  unfolding entered
  entered-Alive (ok _, w) d h = omega (arith, h)
  entered-Alive (raised e, w) d h = omega (arith, h)

  rounded-Alive :
      (x : Result (Unit {0}) × Watch S) (d : Daemon S)
      → Roomy ports options n set time prompt x.1
      → Alive (rounded ports options x d).1.watch
  unfolding rounded
  rounded-Alive (ok _, w) d h = omega (arith, h)
  rounded-Alive (raised e, w) d h = omega (arith, h, prompt.closes w.world)

  slept-Alive :
      (x : Result (Unit {0}) × Watch S) (d : Daemon S)
      → Roomy ports options n set time prompt x.1
      → Alive (slept ports options x d).1.watch
  unfolding slept
  slept-Alive (ok _, w) d h = omega (arith, h)
  slept-Alive (raised e, w) d h = omega (arith, h)

  if-Alive :
      (b : Bool) (x y : Mode × Daemon S)
      → Alive x.1.watch
      → Alive y.1.watch
      → Alive (if b then x else y).1.watch
  if-Alive true x y h k = h
  if-Alive false x y h k = k

  enter-Alive : (d : Daemon S) → Alive (enter ports options d).1.watch
  unfolding enter
  enter-Alive d =
      let (timeout, idle, poll) = set in
      entered-Alive _ (record d { sessions = d.sessions + 1 })
        (announced-Roomy ports options n set time prompt ports.connect
          (connect_budget options.timeout) (text "connecting to IMAP") (3 * n.timeout) d.watch
          prompt.connects (rw timeout (margin_of_connect n.timeout)))

  advance-Alive :
      (mode : Mode) (d : Daemon S) → Alive d.watch → Alive (advance ports options mode d).1.watch
  unfolding advance
  advance-Alive connecting d h =
      if-Alive (has_more ports options options.max_sessions d.sessions) _ _ (enter-Alive d) h
  advance-Alive watching d h =
      rounded-Alive (round ports options d.watch) d
        (round-Roomy ports options n set time prompt d.watch)
  advance-Alive lost d h = slept-Alive _ d (
      announced-Roomy ports options n set time prompt (ports.sleep (pos d.backoff))
        (with_margin (pos d.backoff)) (text "reconnect backoff") d.backoff d.watch
        (prompt.sleeps d.backoff) (margin_of d.backoff))
  advance-Alive finished d h = h
  advance-Alive (stopped e) d h = h

  iterate-Alive :
      (k : ℕ) (at : Mode × Daemon S) → Alive at.1.watch → Alive (iterate ports options k at).1.watch
  unfolding iterate
  iterate-Alive zero at h = h
  iterate-Alive (suc k) (mode, d) h =
      iterate-Alive k (advance ports options mode d) (advance-Alive mode d h)

  -- If the durations of the settings are not negative, each call returns in time, and the heartbeat
  -- is good when the loops start, then after any number of iterations of `run_forever` /healthz
  -- answers 200.
  pub run_forever-alive :
      (k : ℕ) (loop : Watch S) (path : Text)
      → time loop.world ≤ loop.heartbeat.deadline
      → text_eq (before_query path) (text "/healthz") ≡ true
      → do_get path
          (time (run_forever ports options k loop).1.watch.world)
          (run_forever ports options k loop).1.watch.heartbeat
        ≡ 200
  unfolding run_forever
  run_forever-alive k loop path started asked =
      do_get-alive path _ _ asked (iterate-Alive k _ started)
