-- ===== src/Watcher/Calls.antt =====
-- When `WatchLoop.step` calls the forwarder.
use mail_transporter.Base.{
  ℕ, ◌+◌, ◌≡◌, refl, Bool, not, ◌&&◌, ◌||◌, List, Result, ok, raised, continue, ltb, if◌then◌else◌,
  arith,
}
use mail_transporter.Watcher.State.{
  TriggerResult, WatchOptions, Watch, WatchPorts, backoff_delay, beat,
}
use mail_transporter.Watcher.Step.{
  is_empty, common, without, is_stale, settle, back_off, fail, answered, call, decide, step,
}

-- The world with the number of calls of the forwarder.
pub record Counted (S : Type 0) : Type 0 where
  pub world : S
  pub calls : ℕ

abbrev pub counted : {S : Type 0} → WatchPorts S → WatchPorts (Counted S)
counted ports = record {
  clock = λ c. ((ports.clock c.world).0, record c { world = (ports.clock c.world).1 });
  list_inbox_uids = λ c.
      ((ports.list_inbox_uids c.world).0, record c { world = (ports.list_inbox_uids c.world).1 });
  trigger = λ c. (
    (ports.trigger c.world).0,
    record { world = (ports.trigger c.world).1; calls = c.calls + 1 },
  );
}

-- The INBOX holds a message that has not been reported, or the last report is too old, and no
-- delay is running.
abbrev pub is_due : {S : Type 0} → WatchPorts S → WatchOptions → ℕ → List ℕ → Watch S → Bool
is_due ports options now uids w =
    not (is_empty uids)
    && ((not (is_empty (without uids (common w.notified uids)))
          || is_stale ports options now w.last_trigger_at)
        && not (ltb now w.not_before))

abbrev pub one_if : Bool → ℕ
one_if b = if b then 1 else 0

module _ {S : Type 0} (ports : WatchPorts S) (options : WatchOptions) where
  back_off-world :
      (now : ℕ) (delay : Result ℕ) (w : Watch S)
      → (back_off ports options now delay w).1.world ≡ w.world
  unfolding back_off
  back_off-world now (ok d) w = refl
  back_off-world now (raised e) w = refl

  pub answered-world :
      (now : ℕ) (uids : List ℕ) (result : TriggerResult) (w : Watch S)
      → (answered ports options now uids result w).1.world ≡ w.world
  unfolding answered settle fail
  answered-world now uids result w = ground (
    arith,
    back_off-world now (backoff_delay (w.failures + 1)) (record w { failures = w.failures + 1 }),
  )

module _ {S : Type 0} (ports : WatchPorts S) (options : WatchOptions) where
  call-calls :
      (now : ℕ) (uids : List ℕ) (w : Watch (Counted S))
      → (call (counted ports) options now uids w).1.world.calls ≡ w.world.calls + 1
  unfolding call beat
  call-calls now uids w = rw (answered-world (counted ports) options) refl

  decide-calls :
      (now : ℕ) (uids : List ℕ) (w : Watch (Counted S))
      → (decide (counted ports) options now uids w).1.world.calls
        ≡ w.world.calls + one_if (is_due (counted ports) options now uids w)
  unfolding decide
  decide-calls now uids w =
      ground (arith, call-calls now uids (record w { notified = common w.notified uids }))

  -- A step calls the forwarder exactly once if the listing succeeds and a call is due, and not at
  -- all otherwise. It is due if the INBOX is not empty, has a message not yet notified or the last
  -- call is stale, and the time is not before the end of the delay.
  pub step-calls :
      (w : Watch (Counted S))
      → let (now, world) = (counted ports).clock w.world in
        let (listing, world') = (counted ports).list_inbox_uids world in
        (step (counted ports) options w).1.world.calls
        ≡ w.world.calls + elim listing [
          | ok uids ↦ one_if (is_due (counted ports) options now uids w)
          | raised e ↦ 0
        ]
  unfolding step
  step-calls w = listed-calls ((ports.list_inbox_uids (ports.clock w.world.world).1).0)
    where
      listed-calls :
          (listing : Result (List ℕ))
          → (continue
              (decide (counted ports) options (ports.clock w.world.world).0)
              listing
              (record w {
                world = record w.world {
                  world = (ports.list_inbox_uids (ports.clock w.world.world).1).1;
                };
              })).1.world.calls
            ≡ w.world.calls + elim listing [
              | ok uids ↦
                  one_if (is_due (counted ports) options (ports.clock w.world.world).0 uids w)
              | raised e ↦ 0
            ]
      listed-calls (ok uids) = decide-calls (ports.clock w.world.world).0 uids _
      listed-calls (raised e) = omega arith
