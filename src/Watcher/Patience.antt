-- ===== src/Watcher/Patience.antt =====
-- mailtransporter/watcher.py: over all iterations of `run_forever`, the next call of the forwarder is
-- never far off. `time` tells the reading of the clock in a state of the world.
use mail_transporter.Base.{
  ℕ, zero, suc, ◌+◌, ◌≤◌, ◌≡◌, Bool, true, false, Option, none, some, List, Text, text, Result, ok,
  raised, Exec, continue, ◌>>◌, if◌then◌else◌, arith,
}
use mail_transporter.Base.Int.{ℤ, pos}
use mail_transporter.Watcher.State.{Watch, beat, with_margin, max_backoff}
use mail_transporter.Watcher.Step.{common, call, decide, step}
use mail_transporter.Watcher.Calls.{answered-world}
use mail_transporter.Watcher.Pacing.{IsPaced, decide-IsPaced}
use mail_transporter.Watcher.Daemon.{
  DaemonPorts, DaemonOptions, Daemon, Mode, connecting, watching, lost, finished, stopped, plus,
  connect_budget, round, wait, wait_for_mail, wait_after_step, entered, rounded, slept, enter,
  advance, iterate, run_forever, touched, on_world,
}

-- The clock reads `time`, and no call sets it back.
pub record IsMonotone {S : Type 0} (time : S → ℕ) (ports : DaemonPorts S) : Type 0 where
  pub reads : (s : S) → (ports.watch.clock s).0 ≡ time s
  pub ticks : (s : S) → time s ≤ time (ports.watch.clock s).1
  pub lists : (s : S) → time s ≤ time (ports.watch.list_inbox_uids s).1
  pub triggers : (s : S) → time s ≤ time (ports.watch.trigger s).1
  pub connects : (s : S) → time s ≤ time (ports.connect s).1
  pub closes : (s : S) → time s ≤ time (ports.close s)
  pub idles : (timeout : ℤ) (s : S) → time s ≤ time (ports.idle_wait timeout s).1
  pub sleeps : (duration : ℤ) (s : S) → time s ≤ time (ports.sleep duration s).1

-- The next call is put off for at most 10 min from now.
abbrev pub IsCalm : {S : Type 0} → (S → ℕ) → Watch S → Type 0
IsCalm time w = w.not_before ≤ time w.world + max_backoff

paced-late :
    {S : Type 0} (now : ℕ) (outcome : Result (Option ℕ)) (w : Watch S)
    → IsPaced now (outcome, w)
    → w.not_before ≤ now + max_backoff
paced-late now (ok (some d)) w h = h.2
paced-late now (ok none) w h = h
paced-late now (raised e) w h = h

module _ {S : Type 0} (time : S → ℕ) (ports : DaemonPorts S) (options : DaemonOptions)
    (monotone : IsMonotone time ports) where
  abbrev Calms : {A : Type 0} → Exec (Watch S) A → Type 0
  Calms m = (w : Watch S) → IsCalm time w → IsCalm time (m w).1

  continue-Calms :
      {A B : Type 0} (f : A → Exec (Watch S) B) (outcome : Result A) (w : Watch S)
      → ((a : A) → Calms (f a))
      → IsCalm time w
      → IsCalm time (continue f outcome w).1
  continue-Calms f (ok a) w k h = k a w h
  continue-Calms f (raised e) w k h = h

  call-time :
      (now : ℕ) (uids : List ℕ) (w : Watch S)
      → time w.world ≤ time (call ports.watch options.watch now uids w).1.world
  unfolding call beat
  call-time now uids w =
      let (_, w1) = ports.watch.clock w.world in
      let (_, w2) = ports.watch.trigger w1 in
      let a = monotone.ticks w.world in
      let b = monotone.triggers w1 in
      let c = monotone.ticks w2 in rw (answered-world ports.watch options.watch) (omega arith)

  decide-time :
      (now : ℕ) (uids : List ℕ) (w : Watch S)
      → time w.world ≤ time (decide ports.watch options.watch now uids w).1.world
  unfolding decide
  decide-time now uids w =
      ground (arith, call-time now uids (record w { notified = common w.notified uids }))

  decide-IsCalm :
      (now : ℕ) (uids : List ℕ) (w : Watch S)
      → w.not_before ≤ now + max_backoff
      → now ≤ time w.world
      → IsCalm time (decide ports.watch options.watch now uids w).1
  decide-IsCalm now uids w h k =
      let (outcome, w') = decide ports.watch options.watch now uids w in
      let paced = decide-IsPaced ports.watch options.watch now now uids w (omega arith) h in
      let late = paced-late now outcome w' paced in
      let later = decide-time now uids w in omega arith

  listed-IsCalm :
      (now : ℕ) (listing : Result (List ℕ)) (w : Watch S)
      → w.not_before ≤ now + max_backoff
      → now ≤ time w.world
      → IsCalm time (continue (decide ports.watch options.watch now) listing w).1
  listed-IsCalm now (ok uids) w h k = decide-IsCalm now uids w h k
  listed-IsCalm now (raised e) w h k = omega arith

  step-Calms : Calms (step ports.watch options.watch)
  unfolding step
  step-Calms w h =
      let (now, w1) = ports.watch.clock w.world in
      let (listing, w2) = ports.watch.list_inbox_uids w1 in
      let a = monotone.reads w.world in
      let b = monotone.ticks w.world in
      let c = monotone.lists w1 in
      listed-IsCalm now listing (record w { world = w2 }) (omega arith) (omega arith)

  touched-Calms : (ttl : ℤ) (note : Text) → Calms (touched ports options ttl note)
  unfolding beat
  touched-Calms ttl note w h = let b = monotone.ticks w.world in omega arith

  on_world-Calms :
      (m : Exec S (Unit {0})) → ((s : S) → time s ≤ time (m s).1) → Calms (on_world ports options m)
  on_world-Calms m later w h = let b = later w.world in omega arith

  blocking-Calms :
      (ttl : ℤ) (note : Text) (m : Exec S (Unit {0}))
      → ((s : S) → time s ≤ time (m s).1)
      → Calms (touched ports options ttl note >> on_world ports options m)
  blocking-Calms ttl note m later w h =
      on_world-Calms m later (touched ports options ttl note w).1 (touched-Calms ttl note w h)

  wait_for_mail-Calms : (idle : Bool) → Calms (wait_for_mail ports options idle)
  unfolding wait_for_mail
  wait_for_mail-Calms true =
      blocking-Calms (with_margin (plus options.idle_timeout options.timeout)) (text "IMAP IDLE")
        (ports.idle_wait options.idle_timeout) (monotone.idles options.idle_timeout)
  wait_for_mail-Calms false =
      blocking-Calms (with_margin options.poll_interval) (text "polling")
        (ports.sleep options.poll_interval) (monotone.sleeps options.poll_interval)

  wait-Calms : (idle : Bool) (delay : Option ℕ) → Calms (wait ports options idle delay)
  unfolding wait
  wait-Calms idle (some delay) =
      blocking-Calms (with_margin (pos delay)) (text "sleeping") (ports.sleep (pos delay))
        (monotone.sleeps (pos delay))
  wait-Calms idle none = wait_for_mail-Calms idle

  round-Calms : Calms (round ports options)
  unfolding round wait_after_step
  round-Calms w h =
      let budget = with_margin options.timeout in
      let (_, w1) = touched ports options budget (text "listing INBOX") w in
      let (delay, w2) = step ports.watch options.watch w1 in
      continue-Calms (wait_after_step ports options) delay w2
        (λ d w3 k. wait-Calms (ports.supports_idle w3.world) d w3 k)
        (step-Calms w1 (touched-Calms budget (text "listing INBOX") w h))

  entered-IsCalm :
      (x : Result (Unit {0}) × Watch S) (d : Daemon S)
      → IsCalm time x.1
      → IsCalm time (entered ports options x d).1.watch
  unfolding entered
  entered-IsCalm (ok _, w) d h = h
  entered-IsCalm (raised e, w) d h = h

  rounded-IsCalm :
      (x : Result (Unit {0}) × Watch S) (d : Daemon S)
      → IsCalm time x.1
      → IsCalm time (rounded ports options x d).1.watch
  unfolding rounded
  rounded-IsCalm (ok _, w) d h = h
  rounded-IsCalm (raised e, w) d h = let b = monotone.closes w.world in omega arith

  slept-IsCalm :
      (x : Result (Unit {0}) × Watch S) (d : Daemon S)
      → IsCalm time x.1
      → IsCalm time (slept ports options x d).1.watch
  unfolding slept
  slept-IsCalm (ok _, w) d h = h
  slept-IsCalm (raised e, w) d h = h

  enter-IsCalm : (d : Daemon S) → IsCalm time d.watch → IsCalm time (enter ports options d).1.watch
  unfolding enter
  enter-IsCalm d h =
      let connects =
        blocking-Calms (connect_budget options.timeout) (text "connecting to IMAP") ports.connect
          monotone.connects in
      entered-IsCalm _ (record d { sessions = d.sessions + 1 }) (connects d.watch h)

  if-IsCalm :
      (b : Bool) (x y : Mode × Daemon S)
      → IsCalm time x.1.watch
      → IsCalm time y.1.watch
      → IsCalm time (if b then x else y).1.watch
  if-IsCalm true x y h k = h
  if-IsCalm false x y h k = k

  advance-IsCalm :
      (mode : Mode) (d : Daemon S)
      → IsCalm time d.watch
      → IsCalm time (advance ports options mode d).1.watch
  unfolding advance
  advance-IsCalm connecting d h = if-IsCalm _ _ (finished, d) (enter-IsCalm d h) h
  advance-IsCalm watching d h = rounded-IsCalm _ d (round-Calms d.watch h)
  advance-IsCalm lost d h =
      let sleeps =
        blocking-Calms (with_margin (pos d.backoff)) (text "reconnect backoff")
          (ports.sleep (pos d.backoff)) (monotone.sleeps (pos d.backoff)) in
      slept-IsCalm _ d (sleeps d.watch h)
  advance-IsCalm finished d h = h
  advance-IsCalm (stopped e) d h = h

  iterate-IsCalm :
      (n : ℕ) (at : Mode × Daemon S)
      → IsCalm time at.1.watch
      → IsCalm time (iterate ports options n at).1.watch
  unfolding iterate
  iterate-IsCalm zero at h = h
  iterate-IsCalm (suc n) (mode, d) h =
      iterate-IsCalm n (advance ports options mode d) (advance-IsCalm mode d h)

  -- If no call sets the clock back, and the next call of the forwarder is put off for at most 10 min
  -- at the start, then so it is after any number of iterations of `run_forever`, over lost sessions
  -- and failures of the forwarder.
  pub run_forever-IsCalm :
      (n : ℕ) (loop : Watch S)
      → IsCalm time loop
      → IsCalm time (run_forever ports options n loop).1.watch
  unfolding run_forever
  run_forever-IsCalm n loop h = iterate-IsCalm n _ h
