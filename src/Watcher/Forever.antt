-- ===== src/Watcher/Forever.antt =====
-- mailtransporter/watcher.py: `run_forever` goes on whatever happens, and reconnects without haste.
use mail_transporter.Base.{ℕ, zero, suc, ◌≤◌, ◌≡◌, none, Result, ok, raised, arith}
use mail_transporter.Base.Int.{pos}
use mail_transporter.Watcher.State.{Watch}
use mail_transporter.Watcher.Daemon.{
  DaemonPorts, DaemonOptions, Daemon, Mode, connecting, watching, lost, finished, stopped,
  first_backoff, backoff_limit, round, entered, rounded, slept, has_more, enter, advance, iterate,
  run_forever,
}

-- Not outside of the loops.
abbrev pub IsRunning : Mode → Type 0
IsRunning finished = ⊥
IsRunning (stopped e) = ⊥
IsRunning _ = Unit

abbrev pub IsReady : {S : Type 0} → Mode × Daemon S → Type 0
IsReady (mode, d) = IsRunning mode × (first_backoff ≤ d.backoff) × (d.backoff ≤ backoff_limit)

module _ {S : Type 0} (ports : DaemonPorts S) (options : DaemonOptions)
    (sleeps : (n : ℕ) (s : S) → (ports.sleep (pos n) s).0 ≡ ok tt)
    (unbounded : options.max_sessions ≡ none) where
  entered-IsReady :
      (x : Result (Unit {0}) × Watch S) (d : Daemon S)
      → first_backoff ≤ d.backoff
      → d.backoff ≤ backoff_limit
      → IsReady (entered ports options x d)
  unfolding entered
  entered-IsReady (ok _, w) d h k = (tt, omega arith, omega arith)
  entered-IsReady (raised e, w) d h k = (tt, h, k)

  rounded-IsReady :
      (x : Result (Unit {0}) × Watch S) (d : Daemon S)
      → first_backoff ≤ d.backoff
      → d.backoff ≤ backoff_limit
      → IsReady (rounded ports options x d)
  unfolding rounded
  rounded-IsReady (ok _, w) d h k = (tt, h, k)
  rounded-IsReady (raised e, w) d h k = (tt, h, k)

  slept-IsReady :
      (x : Result (Unit {0}) × Watch S) (d : Daemon S)
      → x.0 ≡ ok tt
      → first_backoff ≤ d.backoff
      → d.backoff ≤ backoff_limit
      → IsReady (slept ports options x d)
  unfolding slept
  slept-IsReady (ok _, w) d e h k = (tt, omega arith, omega arith)
  slept-IsReady (raised x, w) d e h k = absurd (ground arith)

  advance-IsReady :
      (mode : Mode) (d : Daemon S) → IsReady (mode, d) → IsReady (advance ports options mode d)
  unfolding advance enter has_more
  advance-IsReady connecting d (r, h, k) =
      rw unbounded (entered-IsReady _ (record d { sessions = _ }) h k)
  advance-IsReady watching d (r, h, k) = rounded-IsReady (round ports options d.watch) d h k
  advance-IsReady lost d (r, h, k) = slept-IsReady _ d (sleeps d.backoff _) h k
  advance-IsReady finished d (r, h, k) = absurd r
  advance-IsReady (stopped e) d (r, h, k) = absurd r

  iterate-IsReady :
      (n : ℕ) (at : Mode × Daemon S) → IsReady at → IsReady (iterate ports options n at)
  unfolding iterate
  iterate-IsReady zero at h = h
  iterate-IsReady (suc n) (mode, d) h =
      iterate-IsReady n (advance ports options mode d) (advance-IsReady mode d h)

  -- If `sleep` returns for a duration that is not negative, and the number of sessions is not
  -- bounded, then after any number of iterations `run_forever` is still in its loops, whatever the
  -- server and the forwarder do, and the time before it reconnects lies between 5 s and 5 min.
  pub run_forever-IsReady : (n : ℕ) (loop : Watch S) → IsReady (run_forever ports options n loop)
  unfolding run_forever
  run_forever-IsReady n loop = iterate-IsReady n _ (tt, omega arith, omega arith)
