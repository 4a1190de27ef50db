-- ===== src/Secrets/Filter.antt =====
-- mailtransporter/secrets.py: `RedactingFilter.filter`, over the record of the logging package.
use mail_transporter.Base.{
  Bool, true, false, ◌≡◌, refl, sym, Option, none, some, List, [], Text, occurs, In,
}
use mail_transporter.Secrets.Redaction.{redact}
use mail_transporter.Secrets.Sealed.{IsPlain, redact-seals}

-- The attributes of a `LogRecord` that the filter reads or writes, over the arguments `A` and the
-- exceptions `E`.
pub record LogRecord (A E : Type 0) : Type 0 where
  pub msg : Text
  pub args : List A
  pub exc_info : Option E
  pub exc_text : Option Text

module _ {A E : Type 0} (get_message : LogRecord A E → Option Text)
    (format_exception : E → Text) where
  -- `record.getMessage()`, or `str(record.msg)` if that raises
  unfoldable pub message_or_msg : LogRecord A E → Option Text → Text
  message_or_msg r none = r.msg
  message_or_msg r (some message) = message

  -- The `if` on `record.exc_info`.
  unfoldable pub with_exception : List Text → Option E → LogRecord A E → LogRecord A E
  unfolding redact
  with_exception secrets none r = r
  with_exception secrets (some exc) r = record r {
    exc_text = some (redact secrets (format_exception exc));
    exc_info = none;
  }

  -- `filter`, which always lets the record through
  unfoldable pub filter : List Text → LogRecord A E → Bool × LogRecord A E
  unfolding redact message_or_msg with_exception
  filter secrets r = (
    true,
    with_exception secrets r.exc_info
        (record r { msg = redact secrets (message_or_msg r (get_message r)); args = [] }),
  )

  -- What the handlers print of a record: the message, which no arguments change any more, and the
  -- text of the exception if it was formatted by the filter.
  abbrev pub Lacks : Text → Option Text → Type 0
  Lacks w none = Unit
  Lacks w (some t) = occurs w t ≡ false

  exception-Lacks :
      (secrets : List Text) (w : Text) (info : Option E) (r : LogRecord A E)
      → IsPlain w
      → In w secrets
      → (info ≡ none → Lacks w r.exc_text)
      → info ≡ r.exc_info
      → Lacks w (with_exception secrets info r).exc_text
        × ((with_exception secrets info r).msg ≡ r.msg)
        × ((with_exception secrets info r).args ≡ r.args)
        × ((with_exception secrets info r).exc_info ≡ none)
  unfolding with_exception
  exception-Lacks secrets w none r plain known before e = (before refl, refl, refl, sym e)
  exception-Lacks secrets w (some exc) r plain known before e =
      ((redact-seals secrets w (format_exception exc) 0 plain known).0, refl, refl, refl)

  -- After the filter, a registered secret that is not empty and holds no asterisk occurs neither in
  -- the message of the record nor in the text of its exception; the message has no arguments left,
  -- and the record no exception that a handler could format again. If the record comes without an
  -- exception, its text of one is taken not to hold the secret.
  pub filter-seals :
      (secrets : List Text) (w : Text) (r : LogRecord A E)
      → IsPlain w
      → In w secrets
      → (r.exc_info ≡ none → Lacks w r.exc_text)
      → (occurs w (filter secrets r).1.msg ≡ false)
        × (Lacks w (filter secrets r).1.exc_text)
        × ((filter secrets r).1.args ≡ [])
        × ((filter secrets r).1.exc_info ≡ none)
  unfolding filter
  filter-seals secrets w r plain known before =
      let sealed = (redact-seals secrets w (message_or_msg r (get_message r)) 0 plain known).0 in
      let (lacks, same, emptied, dropped) =
        exception-Lacks secrets w r.exc_info
          (record r { msg = redact secrets (message_or_msg r (get_message r)); args = [] }) plain
          known before refl in
      (rw same sealed, lacks, emptied, dropped)
