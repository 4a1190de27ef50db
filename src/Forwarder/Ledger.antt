-- ===== src/Forwarder/Ledger.antt =====
-- What the counters of `SyncResult` say, against the calls that a run has made.
pub mod Process
pub mod Loop
pub mod Total
use mail_transporter.Base.{
  ℕ, ◌+◌, ◌≤◌, Bool, true, false, ◌≡◌, List, [], ◌∷◌, Text, text_eq, Result, ok, raised,
  if◌then◌else◌,
}
use mail_transporter.Forwarder.State.{SyncResult, ForwarderOptions, Run}
use mail_transporter.Forwarder.Trace.{
  Event, fetch_done, insert_done, mark_done, trash_done, move_done, Traced,
}

abbrev pub tally : (Event → ℕ) → List Event → ℕ
tally f [] = 0
tally f (e ∷ es) = f e + tally f es

-- A call that has returned.
abbrev pub done : {A : Type 0} → Result A → ℕ
done (ok _) = 1
done (raised _) = 0

abbrev pub an_insert : Event → ℕ
an_insert (insert_done raw labels outcome) = done outcome
an_insert _ = 0

abbrev pub a_trashing : Event → ℕ
a_trashing (trash_done uid outcome) = done outcome
a_trashing _ = 0

abbrev pub a_fetch : Event → ℕ
a_fetch (fetch_done uid outcome) = 1
a_fetch _ = 0

-- An insert, whatever came of it.
abbrev pub an_attempt : Event → ℕ
an_attempt (insert_done raw labels outcome) = 1
an_attempt _ = 0

-- A move to a folder, or a keyword other than the inserted one.
abbrev pub a_quarantine : ForwarderOptions → Event → ℕ
a_quarantine options (mark_done uid keyword outcome) =
    if text_eq keyword options.inserted_keyword then 0 else done outcome
a_quarantine options (move_done uid folder outcome) = done outcome
a_quarantine options _ = 0

-- The counters are the numbers of the calls that have returned.
abbrev pub Tells : ForwarderOptions → List Event → SyncResult → Type 0
Tells options es r =
    (r.forwarded ≡ tally an_insert es)
    × (r.trashed ≡ tally a_trashing es)
    × (r.quarantined ≡ tally (a_quarantine options) es)

-- Besides, the run has listed so many messages, and made at most so many fetches.
abbrev pub Agreed : {S : Type 0} → ForwarderOptions → ℕ → ℕ → List Event → Run (Traced S) → Type 0
Agreed options listed fetches es r =
    Tells options es r.result × (r.result.listed ≡ listed) × (tally a_fetch es ≤ fetches)

abbrev pub Agrees : {S : Type 0} → ForwarderOptions → ℕ → ℕ → Run (Traced S) → Type 0
Agrees options listed fetches r = Agreed options listed fetches r.world.trace r

-- The two keywords that set a message aside are not the inserted one.
pub record AreApart (options : ForwarderOptions) : Type 0 where
  pub failed : text_eq options.failed_keyword options.inserted_keyword ≡ false
  pub unverified : text_eq options.unverified_keyword options.inserted_keyword ≡ false
