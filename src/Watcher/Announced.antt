-- ===== src/Watcher/Announced.antt =====
-- watcher.py: every call that may block is announced to the heartbeat with enough time.
use mail_transporter.Base.{
  ℕ, ◌+◌, ◌*◌, ◌≤◌, Bool, true, false, not, ◌&&◌, ◌≡◌, Option, none, some, List, Text, text, Result,
  ok, raised, Exec, continue, ltb, ◌>>◌, if◌then◌else◌, arith,
}
use mail_transporter.Base.Int.{ℤ, pos, pos_part}
use mail_transporter.Health.{touch}
use mail_transporter.Watcher.State.{
  TriggerResult, Watch, heartbeat_margin, with_margin, beat, backoff_delay,
}
use mail_transporter.Watcher.Step.{
  is_empty, common, without, is_stale, settle, back_off, fail, answered, call, decide, step,
}
use mail_transporter.Watcher.Daemon.{
  DaemonPorts, DaemonOptions, plus, connect_budget, touched, on_world, wait_for_mail, wait,
  wait_after_step, round,
}

-- The durations of the settings, in milliseconds.
pub record Durations : Type 0 where
  pub timeout : ℕ
  pub idle : ℕ
  pub poll : ℕ

abbrev pub IsSetTo : DaemonOptions → Durations → Type 0
IsSetTo options n =
    (options.timeout ≡ pos n.timeout)
    × (options.idle_timeout ≡ pos n.idle)
    × (options.poll_interval ≡ pos n.poll)

-- `time` is what the clock shows, reading it takes no time, and each call returns in time: setting up
-- a session takes at most three timeouts of the socket, a listing one, IDLE one more than it was
-- asked to wait, and closing the session at most the margin.
pub record IsPrompt {S : Type 0} (ports : DaemonPorts S) (options : DaemonOptions) (n : Durations)
    (time : S → ℕ) : Type 0 where
  pub clock : (s : S) → ((ports.watch.clock s).0 ≡ time s) × (time (ports.watch.clock s).1 ≡ time s)
  pub connects : (s : S) → time (ports.connect s).1 ≤ time s + 3 * n.timeout
  pub lists : (s : S) → time (ports.watch.list_inbox_uids s).1 ≤ time s + n.timeout
  pub idles :
      (s : S) → time (ports.idle_wait options.idle_timeout s).1 ≤ time s + n.idle + n.timeout
  pub sleeps : (d : ℕ) (s : S) → time (ports.sleep (pos d) s).1 ≤ time s + d
  pub closes : (s : S) → time (ports.close s) ≤ time s + heartbeat_margin

pub margin_of : (n : ℕ) → pos_part (with_margin (pos n)) ≡ n + 120000
margin_of n = ground arith

margin_of_plus : (i n : ℕ) → pos_part (with_margin (plus (pos i) (pos n))) ≡ i + n + 120000
margin_of_plus i n = ground arith

pub margin_of_connect : (n : ℕ) → pos_part (connect_budget (pos n)) ≡ 3 * n + 120000
margin_of_connect n = ground arith

module _ {S : Type 0} (ports : DaemonPorts S) (options : DaemonOptions) (n : Durations)
    (set : IsSetTo options n) (time : S → ℕ) (prompt : IsPrompt ports options n time) where
  -- The margin is still left.
  abbrev pub Roomy : Watch S → Type 0
  Roomy w = time w.world + 120000 ≤ w.heartbeat.deadline

  -- A call of at most `k` milliseconds that was announced with `k` and the margin.
  pub announced-Roomy :
      (m : Exec S (Unit {0})) (ttl : ℤ) (note : Text) (k : ℕ) (w : Watch S)
      → ((s : S) → time (m s).1 ≤ time s + k)
      → pos_part ttl ≡ k + 120000
      → Roomy ((touched ports options ttl note >> on_world ports options m) w).1
  unfolding beat touch
  announced-Roomy m ttl note k w quick enough =
      let (shows, still) = prompt.clock w.world in
      let done = quick (ports.watch.clock w.world).1 in omega (arith, shows, still, done, enough)

  wait_for_mail-Roomy :
      (supports_idle : Bool) (w : Watch S) → Roomy (wait_for_mail ports options supports_idle w).1
  unfolding wait_for_mail
  wait_for_mail-Roomy true w =
      let (timeout, idle, poll) = set in
      announced-Roomy (ports.idle_wait options.idle_timeout)
        (with_margin (plus options.idle_timeout options.timeout)) (text "IMAP IDLE")
        (n.idle + n.timeout) w (λ s. omega (arith, prompt.idles s))
        (rw (idle, timeout) (margin_of_plus n.idle n.timeout))
  wait_for_mail-Roomy false w =
      let (timeout, idle, poll) = set in
      announced-Roomy (ports.sleep options.poll_interval) (with_margin options.poll_interval)
        (text "polling") n.poll w (λ s. rw poll (prompt.sleeps n.poll s))
        (rw poll (margin_of n.poll))

  wait-Roomy :
      (supports_idle : Bool) (delay : Option ℕ) (w : Watch S)
      → Roomy (wait ports options supports_idle delay w).1
  unfolding wait
  wait-Roomy supports_idle (some delay) w =
      announced-Roomy (ports.sleep (pos delay)) (with_margin (pos delay)) (text "sleeping") delay w
        (prompt.sleeps delay) (margin_of delay)
  wait-Roomy supports_idle none w = wait_for_mail-Roomy supports_idle w

  if-Roomy :
      (b : Bool) (x y : Result (Option ℕ) × Watch S)
      → Roomy x.1
      → Roomy y.1
      → Roomy (if b then x else y).1
  if-Roomy true x y h k = h
  if-Roomy false x y h k = k

  back_off-Roomy :
      (now : ℕ) (delay : Result ℕ) (w : Watch S)
      → Roomy w
      → Roomy (back_off ports.watch options.watch now delay w).1
  unfolding back_off
  back_off-Roomy now (ok delay) w h = h
  back_off-Roomy now (raised e) w h = h

  answered-Roomy :
      (now : ℕ) (uids : List ℕ) (result : TriggerResult) (w : Watch S)
      → Roomy w
      → Roomy (answered ports.watch options.watch now uids result w).1
  unfolding answered settle fail
  answered-Roomy now uids result w h =
      if-Roomy result.succeeded _ _ (if-Roomy (ltb 0 result.remaining) _ _ h h) (
        if-Roomy result.busy _ _ h (
          back_off-Roomy now (backoff_delay (w.failures + 1))
            (record w { failures = w.failures + 1 }) h))

  -- The heartbeat that follows the answer of the forwarder.
  answered_beat-Roomy :
      (w : Watch S) → Roomy (beat ports.watch (pos heartbeat_margin) (text "forwarder answered") w)
  unfolding beat touch
  answered_beat-Roomy w = let (shows, still) = prompt.clock w.world in omega (arith, shows, still)

  call-Roomy :
      (now : ℕ) (uids : List ℕ) (w : Watch S) → Roomy (call ports.watch options.watch now uids w).1
  unfolding call
  call-Roomy now uids w =
      let calling =
        beat ports.watch (with_margin options.watch.request_timeout) (text "calling forwarder") w in
      let (result, world) = ports.watch.trigger calling.world in
      answered-Roomy now uids result _ (answered_beat-Roomy (record calling { world = world }))

  decide-Roomy :
      (now : ℕ) (uids : List ℕ) (w : Watch S)
      → Roomy w
      → Roomy (decide ports.watch options.watch now uids w).1
  unfolding decide
  decide-Roomy now uids w h = if-Roomy (is_empty uids) _ _ h (
      if-Roomy
        (is_empty (without uids (common w.notified uids))
          && not (is_stale ports.watch options.watch now w.last_trigger_at))
        _ _ h
        (if-Roomy (ltb now w.not_before) _ _ h
          (call-Roomy now uids (record w { notified = common w.notified uids }))))

  -- The listing was announced with a timeout and the margin.
  step-Roomy :
      (w : Watch S)
      → time w.world + n.timeout + 120000 ≤ w.heartbeat.deadline
      → Roomy (step ports.watch options.watch w).1
  unfolding step
  step-Roomy w fresh =
      let (now, world) = ports.watch.clock w.world in
      let (listing, world') = ports.watch.list_inbox_uids world in
      let (shows, still) = prompt.clock w.world in
      let quick = prompt.lists world in
      listed-Roomy now listing (record w { world = world' })
        (omega (arith, shows, still, quick, fresh))
    where
      listed-Roomy :
          (now : ℕ) (listing : Result (List ℕ)) (v : Watch S)
          → Roomy v
          → Roomy (continue (decide ports.watch options.watch now) listing v).1
      listed-Roomy now (ok uids) v h = decide-Roomy now uids v h
      listed-Roomy now (raised e) v h = h

  stepped-Roomy :
      (outcome : Result (Option ℕ)) (w : Watch S)
      → Roomy w
      → Roomy (continue (wait_after_step ports options) outcome w).1
  unfolding wait_after_step
  stepped-Roomy (ok delay) w h = wait-Roomy (ports.supports_idle w.world) delay w
  stepped-Roomy (raised e) w h = h

  pub round-Roomy : (w : Watch S) → Roomy (round ports options w).1
  unfolding round
  round-Roomy w =
      let announced = beat ports.watch (with_margin options.timeout) (text "listing INBOX") w in
      let (outcome, later) = step ports.watch options.watch announced in
      stepped-Roomy outcome later (step-Roomy announced (listing_fresh w))
    where
      listing_fresh :
          (v : Watch S)
          → time (beat ports.watch (with_margin options.timeout) (text "listing INBOX") v).world
              + n.timeout
              + 120000
            ≤ (beat ports.watch
                (with_margin options.timeout)
                (text "listing INBOX")
                v).heartbeat.deadline
      listing_fresh v =
          let (shows, still) = prompt.clock v.world in
          let (timeout, idle, poll) = set in
          unfold beat touch in rw timeout (omega (arith, shows, still, margin_of n.timeout))
