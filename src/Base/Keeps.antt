-- ===== src/Base/Keeps.antt =====
-- Invariants of calls that change state: what holds before a call holds after it, whether it returns
-- or raises.
use mathlib.Core.Bool.{Bool, true, false}
use mail_transporter.Base.Tests.{if◌then◌else◌}
use mail_transporter.Base.Chars.{Text}
use mail_transporter.Base.Effects.{Result, ok, raised, Exec, continue, ◌>>=◌, rewrap, normalise}

module _ {S : Type 0} (Q : S → Type 0) where
  abbrev pub Keeps : {A : Type 0} → Exec S A → Type 0
  Keeps m = (s : S) → Q s → Q (m s).1

  pub continue-Keeps :
      {A B : Type 0} (f : A → Exec S B) (outcome : Result A)
      → ((a : A) → Keeps (f a))
      → Keeps (continue f outcome)
  continue-Keeps f (ok a) k s h = k a s h
  continue-Keeps f (raised e) k s h = h

  pub bind-Keeps :
      {A B : Type 0} (m : Exec S A) (f : A → Exec S B)
      → Keeps m
      → ((a : A) → Keeps (f a))
      → Keeps (m >>= f)
  bind-Keeps m f h k s i = continue-Keeps f (m s).0 k (m s).1 (h s i)

  pub if-Keeps :
      {A : Type 0} (c : Bool) (m k : Exec S A) → Keeps m → Keeps k → Keeps (if c then m else k)
  if-Keeps true m k h i = h
  if-Keeps false m k h i = i

  rewrap-Keeps : {A : Type 0} (f : Text → Text) (outcome : Result A) → Keeps (rewrap f outcome)
  unfolding rewrap
  rewrap-Keeps f (ok a) s h = h
  rewrap-Keeps f (raised e) s h = h

  pub normalise-Keeps :
      {A : Type 0} (f : Text → Text) (m : Exec S A) → Keeps m → Keeps (normalise f m)
  unfolding normalise
  normalise-Keeps f m h s i = rewrap-Keeps f (m s).0 (m s).1 (h s i)
