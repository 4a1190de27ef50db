-- ===== src/Watcher/Step.antt =====
-- mailtransporter/watcher.py: `WatchLoop.step`. The result is the time to sleep, if any.
use mail_transporter.Base.{
  ℕ, ◌+◌, ◌-◌, Bool, true, false, not, ◌&&◌, Option, none, some, List, [], ◌∷◌, text, contains,
  keep, Result, ok, raised, Exec, continue, ltb, if◌then◌else◌,
}
use mail_transporter.Base.Int.{pos, leb_ℤ}
use mail_transporter.Watcher.State.{
  TriggerResult, WatchOptions, Watch, WatchPorts, short_delay, busy_delay, heartbeat_margin,
  backoff_delay, with_margin, beat,
}

abbrev pub is_empty : List ℕ → Bool
is_empty [] = true
is_empty (_ ∷ _) = false

-- `uids & others` and `uids - others`
abbrev pub common : List ℕ → List ℕ → List ℕ
common uids others = keep (λ u. contains u others) uids

abbrev pub without : List ℕ → List ℕ → List ℕ
without uids others = keep (λ u. not (contains u others)) uids

module _ {S : Type 0} (ports : WatchPorts S) (options : WatchOptions) where
  -- `stale`
  unfoldable pub is_stale : ℕ → Option ℕ → Bool
  is_stale now none = true
  is_stale now (some last) = leb_ℤ options.retrigger_interval (pos (now - last))

  -- The trigger succeeded.
  unfoldable pub settle : ℕ → List ℕ → TriggerResult → Exec (Watch S) (Option ℕ)
  settle now uids result w =
      let w' = record w {
        failures = 0;
        notified = uids;
        last_trigger_at = some now;
        not_before = now;
      } in
      if ltb 0 result.remaining
      then (ok (some short_delay), record w' { last_trigger_at = none })
      else (ok none, w')

  -- The trigger failed; `failures` has been counted up.
  unfoldable pub back_off : ℕ → Result ℕ → Exec (Watch S) (Option ℕ)
  back_off now (ok delay) w = (ok (some delay), record w { not_before = now + delay })
  back_off now (raised e) w = (raised e, w)

  unfoldable pub fail : ℕ → Exec (Watch S) (Option ℕ)
  unfolding backoff_delay
  fail now w =
      back_off now (backoff_delay (w.failures + 1)) (record w { failures = w.failures + 1 })

  unfoldable pub answered : ℕ → List ℕ → TriggerResult → Exec (Watch S) (Option ℕ)
  answered now uids result w =
      if result.succeeded
      then settle now uids result w
      else if result.busy
      then (ok (some busy_delay), record w { not_before = now + busy_delay })
      else fail now w

  unfoldable pub call : ℕ → List ℕ → Exec (Watch S) (Option ℕ)
  unfolding beat text
  call now uids w =
      let calling = beat ports (with_margin options.request_timeout) (text "calling forwarder") w in
      let (result, world) = ports.trigger calling.world in
      let called =
        beat ports (pos heartbeat_margin) (text "forwarder answered")
          (record calling { world = world }) in
      answered now uids result called

  unfoldable pub decide : ℕ → List ℕ → Exec (Watch S) (Option ℕ)
  unfolding is_stale
  decide now uids w =
      let kept = record w { notified = common w.notified uids } in
      if is_empty uids
      then (ok none, kept)
      else if is_empty (without uids kept.notified) && not (is_stale now w.last_trigger_at)
      then (ok none, kept)
      else if ltb now w.not_before
      then (ok (some (w.not_before - now)), kept)
      else call now uids kept

  unfoldable pub step : Exec (Watch S) (Option ℕ)
  step w =
      let (now, world) = ports.clock w.world in
      let (listing, world') = ports.list_inbox_uids world in
      continue (decide now) listing (record w { world = world' })
