-- ===== src/Watcher/Pacing.antt =====
-- The delays of `WatchLoop.step`.
use mail_transporter.Base.{
  ℕ, ◌+◌, ◌-◌, ◌^◌, ◌≤◌, ◌<◌, ◌≡◌, refl, sym, Bool, true, false, not, ◌&&◌, Option, some, List,
  text, Result, ok, raised, other, ltb, arith,
}
use native.Mathlib.Nat.{one-le-pow}
use mail_transporter.Watcher.State.{
  TriggerResult, WatchOptions, Watch, WatchPorts, backoff_delay, beat, max_backoff,
}
use mail_transporter.Watcher.Step.{
  is_empty, common, without, is_stale, settle, back_off, fail, answered, call, decide,
}
use mail_transporter.Watcher.Calls.{is_due}

pow-pos : (n : ℕ) → 1 ≤ 2 ^ n
pow-pos n = one-le-pow n 2 (omega arith)

-- If the delay after failures is computed, it lies between 30 s and 10 min.
backoff_delay_bounds : (failures d : ℕ) → backoff_delay failures ≡ ok d → (30000 ≤ d) × (d ≤ 600000)
unfolding backoff_delay
backoff_delay_bounds failures d h = ground (arith, pow-pos (failures - 1))

-- A step that ended at `now` sleeps at most `max_backoff`, and the next call of the forwarder may
-- be put off for no longer than that.
abbrev pub IsPaced : {S : Type 0} → ℕ → Result (Option ℕ) × Watch S → Type 0
IsPaced now (ok (some d), w) = (0 < d) × (d ≤ max_backoff) × (w.not_before ≤ now + max_backoff)
IsPaced now (_, w) = w.not_before ≤ now + max_backoff

module _ {S : Type 0} (ports : WatchPorts S) (options : WatchOptions) where
  back_off-IsPaced :
      (now failures : ℕ) (delay : Result ℕ) (w : Watch S)
      → delay ≡ backoff_delay failures
      → w.not_before ≤ now + max_backoff
      → IsPaced now (back_off ports options now delay w)
  unfolding back_off
  back_off-IsPaced now failures (ok d) w e h =
      let bounds = backoff_delay_bounds failures d (sym e) in omega arith
  back_off-IsPaced now failures (raised x) w e h = h

  settle-IsPaced :
      (now : ℕ) (uids : List ℕ) (result : TriggerResult) (more : Bool) (w : Watch S)
      → ltb 0 result.remaining ≡ more
      → IsPaced now (settle ports options now uids result w)
  unfolding settle
  settle-IsPaced now uids result true w e = rw e (omega arith)
  settle-IsPaced now uids result false w e = rw e (omega arith)

  answered-IsPaced :
      (now : ℕ) (uids : List ℕ) (result : TriggerResult) (good busy : Bool) (w : Watch S)
      → result.succeeded ≡ good
      → result.busy ≡ busy
      → w.not_before ≤ now + max_backoff
      → IsPaced now (answered ports options now uids result w)
  unfolding answered fail settle
  answered-IsPaced now uids result true busy w g b h =
      rw g (settle-IsPaced now uids result _ w refl)
  answered-IsPaced now uids result false true w g b h = rw (g, b) (omega arith)
  answered-IsPaced now uids result false false w g b h =
      rw (g, b)
        (back_off-IsPaced now (w.failures + 1) (backoff_delay (w.failures + 1))
          (record w { failures = w.failures + 1 }) refl h)

  decide_by-IsPaced :
      (none_left known early : Bool) (now : ℕ) (uids : List ℕ) (w : Watch S)
      → is_empty uids ≡ none_left
      → (is_empty (without uids (common w.notified uids))
          && not (is_stale ports options now w.last_trigger_at))
        ≡ known
      → ltb now w.not_before ≡ early
      → w.not_before ≤ now + max_backoff
      → IsPaced now (decide ports options now uids w)
  unfolding decide
  decide_by-IsPaced true known early now uids w a b c h = rw a h
  decide_by-IsPaced false true early now uids w a b c h = rw (a, b) h
  decide_by-IsPaced false false true now uids w a b c h = rw (a, b, c) (ground arith)
  decide_by-IsPaced false false false now uids w a b c h =
      rw (a, b, c) (unfold call beat in answered-IsPaced now uids _ _ _ _ refl refl h)

  -- If the clock does not go back between two steps, and the next call was put off for at most
  -- 10 min at the last one, then the step sleeps for a positive time of at most 10 min, if at all,
  -- and the next call is again put off for at most 10 min.
  pub decide-IsPaced :
      (before now : ℕ) (uids : List ℕ) (w : Watch S)
      → before ≤ now
      → w.not_before ≤ before + max_backoff
      → IsPaced now (decide ports options now uids w)
  decide-IsPaced before now uids w later h =
      decide_by-IsPaced _ _ _ now uids w refl refl refl (omega arith)

  answered-overflow :
      (now : ℕ) (uids : List ℕ) (result : TriggerResult) (w : Watch S)
      → result.succeeded ≡ false
      → result.busy ≡ false
      → 1024 ≤ w.failures
      → answered ports options now uids result w ≡ (
        raised (other (text "int too large to convert to float")),
        record w { failures = w.failures + 1 },
      )
  unfolding answered fail back_off backoff_delay
  answered-overflow now uids result w g b h = rw (g, b) (ground arith)

  -- A step that is due calls the forwarder.
  due_calls :
      (now : ℕ) (uids : List ℕ) (w : Watch S)
      → is_due ports options now uids w ≡ true
      → decide ports options now uids w
        ≡ call ports options now uids (record w { notified = common w.notified uids })
  unfolding decide
  due_calls now uids w due = ground arith

  answered_down-overflow :
      (now : ℕ) (uids : List ℕ) (result : TriggerResult) (w : Watch S)
      → (result.succeeded ≡ false) × (result.busy ≡ false)
      → 1024 ≤ w.failures
      → ((answered ports options now uids result w).0
          ≡ raised (other (text "int too large to convert to float")))
        × ((answered ports options now uids result w).1.not_before ≡ w.not_before)
        × ((answered ports options now uids result w).1.failures ≡ w.failures + 1)
  answered_down-overflow now uids result w down h =
      simp (answered-overflow now uids result w down.0 down.1 h) (refl, refl, refl)

  -- If the forwarder fails without being busy, 1024 failures in a row or more have been counted,
  -- and a call is due, then the step raises `OverflowError`; it counts the failure, and leaves the
  -- time before which no call is made as it was.
  pub decide-overflow :
      (now : ℕ) (uids : List ℕ) (w : Watch S)
      → ((s : S) → ((ports.trigger s).0.succeeded ≡ false) × ((ports.trigger s).0.busy ≡ false))
      → 1024 ≤ w.failures
      → is_due ports options now uids w ≡ true
      → ((decide ports options now uids w).0
          ≡ raised (other (text "int too large to convert to float")))
        × ((decide ports options now uids w).1.not_before ≡ w.not_before)
        × ((decide ports options now uids w).1.failures ≡ w.failures + 1)
  decide-overflow now uids w down h due =
      rw (due_calls now uids w due)
        (unfold call beat in answered_down-overflow now uids _ _ (down _) h)
