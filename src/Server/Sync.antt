-- ===== src/Server/Sync.antt =====
-- mailtransporter/server.py: `get_forwarder` and `sync`. The state is that of the process: the world,
-- whether `_run_lock` is held, and whether `_forwarder` has been built.
use mail_transporter.Base.{
  ℕ, Bool, true, false, Option, none, some, List, [], ◌∷◌, ◌++◌, Text, text, take, GmailKind,
  retryable, permanent, auth, Raised, Result, ok, raised, mailbox_error, message_gone, gmail_error,
  abort_run, config_error, other, message_of, Exec, ◌>>◌, attempt, if◌then◌else◌,
}
use mail_transporter.Secrets.Redaction.{redact}
use mail_transporter.Forwarder.State.{SyncResult, succeeded}
use mail_transporter.Server.Invoker.{Claims, verify_invoker}

-- What the endpoint calls. `secrets` reads the registry of secrets.
pub record ServerPorts (S : Type 0) : Type 0 where
  pub verify : Text → Text → Exec S Claims
  -- `build_forwarder()`
  pub build_forwarder : Exec S (Unit {0})
  -- the method `run` of the forwarder
  pub run : Exec S SyncResult
  pub secrets : S → List Text
  -- the name of the class of an exception that the program does not define
  pub class_of : Text → Text

pub record App (S : Type 0) : Type 0 where
  pub world : S
  pub is_locked : Bool
  pub is_built : Bool

-- The JSON bodies: `{"status": …}`, the result's `to_dict()`, and the error.
pub data Body : Type 0 where
  forbidden busy : Body
  report : SyncResult → Body
  error : Text → Body

pub record Response : Type 0 where
  pub code : ℕ
  pub body : Body

abbrev pub error_text_limit : ℕ
error_text_limit = 500

unfoldable pub gmail_class : GmailKind → Text
unfolding text
gmail_class retryable = text "GmailRetryableError"
gmail_class permanent = text "GmailPermanentError"
gmail_class auth = text "GmailAuthError"

-- `type(exc).__name__`
unfoldable pub class_name : (Text → Text) → Raised → Text
unfolding text gmail_class
class_name class_of (mailbox_error t) = text "MailboxError"
class_name class_of (message_gone t) = text "MessageGone"
class_name class_of (gmail_error e) = gmail_class e.kind
class_name class_of (abort_run t) = text "AbortRun"
class_name class_of (config_error t) = text "ConfigError"
class_name class_of (other t) = class_of t

-- `redact(…)[:ERROR_TEXT_LIMIT]`
unfoldable pub scrubbed : List Text → Text → Text
unfolding redact
scrubbed secrets s = take error_text_limit (redact secrets s)

-- The `if` on `payload.get("error")`.
unfoldable pub payload_error : List Text → Option Text → Option Text
unfolding scrubbed
payload_error secrets none = none
payload_error secrets (some []) = some []
payload_error secrets (some (c ∷ e)) = some (scrubbed secrets (c ∷ e))

module _ {S : Type 0} (ports : ServerPorts S) where
  -- The outcome of the body of the `try`.
  unfoldable pub answer : Result SyncResult → List Text → Response
  unfolding payload_error scrubbed class_name message_of text
  answer (ok result) secrets = record {
    code = if succeeded result then 200 else 500;
    body = report (record result { error = payload_error secrets result.error });
  }
  answer (raised e) secrets = record {
    code = 500;
    body = error (scrubbed secrets (class_name ports.class_of e ++ (text ": " ++ message_of e)));
  }

  -- `_forwarder` is kept once it has been built.
  unfoldable pub built : Result (Unit {0}) → Exec (App S) (Unit {0})
  built (ok _) app = (ok tt, record app { is_built = true })
  built (raised e) app = (raised e, app)

  abbrev pub inside : {A : Type 0} → Exec S A → Exec (App S) A
  inside m app = ((m app.world).0, record app { world = (m app.world).1 })

  unfoldable pub get_forwarder : Exec (App S) (Unit {0})
  unfolding built
  get_forwarder app =
      if app.is_built then (ok tt, app) else attempt (inside ports.build_forwarder) built app

  unfoldable pub pass : Exec (App S) SyncResult
  pass = get_forwarder >> inside ports.run

  -- `finally`
  abbrev pub release : App S → App S
  release app = record app { is_locked = false }

  -- The `try` statement, with the lock held.
  unfoldable pub locked : App S → Response × App S
  unfolding pass answer
  locked app =
      let (outcome, app') = pass app in (answer outcome (ports.secrets app'.world), release app')

  -- `_run_lock.acquire(blocking=False)`
  unfoldable pub acquire : App S → Bool × App S
  acquire app = if app.is_locked then (false, app) else (true, record app { is_locked = true })

  -- The `if` on what `acquire` returned, and the `try` statement below it.
  unfoldable pub entered : Bool → App S → Response × App S
  unfolding locked
  entered false app = (record { code = 409; body = busy }, app)
  entered true app = locked app

  unfoldable pub admitted : App S → Response × App S
  unfolding acquire entered
  admitted app = let (got, app') = acquire app in entered got app'

  unfoldable pub checked : Bool → App S → Response × App S
  checked false app = (record { code = 403; body = forbidden }, app)
  checked true app = admitted app

  -- `sync`, with `ALLOWED_INVOKER_SA` and `EXPECTED_AUDIENCE`
  unfoldable pub sync : Text → Text → Option Text → App S → Response × App S
  unfolding verify_invoker
  sync allowed_sa audience header app =
      let (allowed, world) =
        verify_invoker ports.verify header allowed_sa (some audience) app.world in
      checked allowed (record app { world = world })
