-- ===== src/Server/Exclusion.antt =====
-- mailtransporter/server.py: calls of `sync` that overlap. A call waits, has taken `_run_lock` and
-- runs, or has been answered; the calls of the process take their steps in any order. What a step
-- does to the state of the process is what the parts of `sync` do to it.
use mail_transporter.Base.{ℕ, ◌+◌, true, false, ◌≡◌, List, [], ◌∷◌, ◌++◌, Result, if◌then◌else◌}
use mail_transporter.Forwarder.State.{SyncResult}
use mail_transporter.Server.Sync.{
  ServerPorts, App, answer, pass, release, acquire, entered, checked,
}

pub data Phase : Type 0 where
  arrived running : Phase
  replied : ℕ → Phase

pub record Pool (S : Type 0) : Type 0 where
  pub app : App S
  pub calls : List Phase

-- One call goes from one phase to another.
pub data Goes {S : Type 0} (from to : Phase) (p q : Pool S) : Type 0 where
  goes :
      (before after : List Phase)
      → p.calls ≡ before ++ from ∷ after
      → q.calls ≡ before ++ to ∷ after
      → Goes from to p q

-- A step: the check of a token or anything else in the process changes the world; a call is denied,
-- is refused because `acquire` has failed, or enters because it has succeeded; the pass of a call
-- that has entered is made; the call is answered, with the lock released.
pub data Step {S : Type 0} (ports : ServerPorts S) (p q : Pool S) : Type 0 where
  outside :
      (world : S) → q.calls ≡ p.calls → q.app ≡ record p.app { world = world } → Step ports p q
  denied :
      Goes arrived (replied (checked ports false p.app).0.code) p q
      → q.app ≡ (checked ports false p.app).1
      → Step ports p q
  refused :
      (acquire ports p.app).0 ≡ false
      → Goes arrived (replied (entered ports false (acquire ports p.app).1).0.code) p q
      → q.app ≡ (entered ports false (acquire ports p.app).1).1
      → Step ports p q
  enters :
      (acquire ports p.app).0 ≡ true
      → Goes arrived running p q
      → q.app ≡ (acquire ports p.app).1
      → Step ports p q
  works : q.calls ≡ p.calls → q.app ≡ (pass ports p.app).1 → Step ports p q
  leaves :
      (outcome : Result SyncResult)
      → Goes running (replied (answer ports outcome (ports.secrets p.app.world)).code) p q
      → q.app ≡ release ports p.app
      → Step ports p q

-- Any number of steps.
pub data Reaches {S : Type 0} (ports : ServerPorts S) (p : Pool S) : Pool S → Type 0 where
  at_start : Reaches ports p p
  one_more : {q r : Pool S} → Reaches ports p q → Step ports q r → Reaches ports p r

abbrev weight : Phase → ℕ
weight running = 1
weight _ = 0

abbrev pub running_count : List Phase → ℕ
running_count [] = 0
running_count (call ∷ calls) = weight call + running_count calls

module _ {S : Type 0} (ports : ServerPorts S) where
  -- One call runs if the lock is held, and none otherwise.
  abbrev IsGuarded : Pool S → Type 0
  IsGuarded p = running_count p.calls ≡ (if p.app.is_locked then 1 else 0)
