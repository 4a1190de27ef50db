-- ===== src/Base/Effects.antt =====
-- Calls that change state and may raise. What was written before a raise stays written, so the
-- state comes back beside the exception too.

use mathlib.Core.Option.{Option}
use mathlib.Core.Path.{◌≡◌, refl}
use mathlib.Core.Logic.{◌⊎◌, inl, inr}
use Prim.Native.Nat.{ℕ}
use mail_transporter.Base.Chars.{Text}

pub data GmailKind : Type 0 where
  retryable permanent auth : GmailKind

-- `GmailError` and its three subclasses, with the HTTP status when known.
pub record GmailError : Type 0 where
  pub kind : GmailKind
  pub message : Text
  pub status : Option ℕ

-- The exceptions that the program's handlers tell apart; `other` is every other class.
pub data Raised : Type 0 where
  mailbox_error : Text → Raised
  message_gone : Text → Raised
  gmail_error : GmailError → Raised
  abort_run : Text → Raised
  config_error : Text → Raised
  other : Text → Raised

-- `str(exc)`
unfoldable pub message_of : Raised → Text
message_of (mailbox_error t) = t
message_of (message_gone t) = t
message_of (gmail_error e) = e.message
message_of (abort_run t) = t
message_of (config_error t) = t
message_of (other t) = t

pub data Result {ℓ} (A : Type ℓ) : Type ℓ where
  ok : A → Result A
  raised : Raised → Result A

abbrev pub Exec : Type 0 → Type 0 → Type 0
Exec S A = S → Result A × S

module _ {S A : Type 0} where
  abbrev pub pure : A → Exec S A
  pure a s = (ok a, s)

  abbrev pub raise : Raised → Exec S A
  raise e s = (raised e, s)

  abbrev pub gets : (S → A) → Exec S A
  gets f s = (ok (f s), s)

abbrev pub modify : {S : Type 0} → (S → S) → Exec S (Unit {0})
modify f s = (ok tt, f s)

module _ {S A B : Type 0} where
  abbrev pub continue : (A → Exec S B) → Result A → Exec S B
  continue f (ok a) s = f a s
  continue f (raised e) s = (raised e, s)

  -- `try`: the handler is given the outcome, with the state that the body left.
  abbrev pub attempt : Exec S A → (Result A → Exec S B) → Exec S B
  attempt m handler s = handler (m s).0 (m s).1

  infixl 5 ◌>>=◌ ◌>>◌
  abbrev pub ◌>>=◌ : Exec S A → (A → Exec S B) → Exec S B
  ◌>>=◌ m f s = continue f (m s).0 (m s).1

  abbrev pub ◌>>◌ : Exec S A → Exec S B → Exec S B
  ◌>>◌ m k s = continue (λ _. k) (m s).0 (m s).1

-- `except Exception as exc: raise MailboxError(f"...")`
module _ {S A : Type 0} where
  unfoldable pub rewrap : (Text → Text) → Result A → Exec S A
  rewrap f (ok a) s = (ok a, s)
  rewrap f (raised e) s = (raised (mailbox_error (f (message_of e))), s)

  unfoldable pub normalise : (Text → Text) → Exec S A → Exec S A
  unfolding rewrap message_of
  normalise f m = attempt m (rewrap f)

pub Result-cases :
    {A : Type 0} (r : Result A) → ((a : A) × (r ≡ ok a)) ⊎ ((e : Raised) × (r ≡ raised e))
Result-cases (ok a) = inl (a, refl)
Result-cases (raised e) = inr (e, refl)
