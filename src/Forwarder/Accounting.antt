-- ===== src/Forwarder/Accounting.antt =====
-- How `Forwarder.run` counts messages: what the counters of `SyncResult` add up to.
pub mod Process
pub mod Loop
pub mod Settle
pub mod Total
use mail_transporter.Base.{ℕ, ◌+◌, ◌≡◌, Result, ok, raised, length}
use mail_transporter.Forwarder.State.{SyncResult, Run}

-- The messages that the run is through with.
abbrev pub settled_count : SyncResult → ℕ
settled_count r = r.trashed + r.skipped + r.retry_later + r.quarantined

-- Those, and the rejections that wait for the end of the run.
abbrev pub handled : {S : Type 0} → Run S → ℕ
handled r = settled_count r.result + length r.rejected

-- A call leaves the fields alone that only `run` sets.
abbrev pub SameFrame : SyncResult → SyncResult → Type 0
SameFrame a b = (b.listed ≡ a.listed) × (b.remaining ≡ a.remaining) × (b.error ≡ a.error)

-- A call that returns has handled one message; one that raises has handled none.
abbrev pub Handles : {S : Type 0} → Run S → Result (Unit {0}) → Run S → Type 0
Handles r (ok _) r' = (handled r' ≡ handled r + 1) × SameFrame r.result r'.result
Handles r (raised _) r' = (handled r' ≡ handled r) × SameFrame r.result r'.result
