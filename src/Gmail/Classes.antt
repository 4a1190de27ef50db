-- ===== src/Gmail/Classes.antt =====
-- Which failures of the API become which errors.
use mail_transporter.Base.{
  ◌≡◌, Bool, true, Option, none, some, List, [], Text, permanent, GmailError, ok, gmail_error,
  continue, first, length, ltb, arith,
}
use mail_transporter.Forwarder.Process.{is_per_message}
use mail_transporter.Forwarder.Errors.{IsGmailError, Raises, GmailRaises}
use mail_transporter.Gmail.Api.{
  Api, Answer, answered, failed, Failure, http_error, refresh_error, transport_error, unexpected,
  Label,
}
use mail_transporter.Gmail.Client.{
  translate, Session, executed, found_label, look_up_label, label_or, ensure_label, insert_raw,
  build, gmail_client, same_name, cached, keep_label, resumable_threshold,
}

-- If a failure becomes a `GmailError` whose `per_message` holds, then that error is a permanent
-- one.
translate-per_message :
    (failure : Failure) (e : GmailError)
    → translate failure ≡ gmail_error e
    → is_per_message e ≡ true
    → e.kind ≡ permanent
unfolding translate is_per_message
translate-per_message (http_error status message) e h p = ground arith
translate-per_message (refresh_error message) e h p = ground arith
translate-per_message (transport_error message) e h p = ground arith
translate-per_message (unexpected message) e h p = cc

-- The failures that the `except` clauses of `_execute` name. Any other exception of the libraries gets
-- out of `GmailClient`, and out of a run.
abbrev pub IsDocumented : Failure → Type 0
IsDocumented (unexpected message) = ⊥
IsDocumented _ = Unit

abbrev pub Answers {ℓ} : {A : Type 0} → (Failure → Type ℓ) → Answer A → Type ℓ
Answers P (answered a) = Unit
Answers P (failed failure) = P failure

-- The calls of the API fail in these ways only, and building the service does not fail.
pub record IsDocumentedApi {W : Type 0} (api : Api W) : Type 0 where
  pub create : (w : W) → Answers (λ f. ⊥) (api.create w).0
  pub list_labels : (w : W) → Answers IsDocumented (api.list_labels w).0
  pub create_label : (name : Text) (w : W) → Answers IsDocumented (api.create_label name w).0
  pub insert :
      (raw : Text) (labels : List Text) (resumable : Bool) (w : W)
      → Answers IsDocumented (api.insert raw labels resumable w).0

translate-IsGmailError :
    (failure : Failure) → IsDocumented failure → IsGmailError (translate failure)
unfolding translate
translate-IsGmailError (http_error status message) h = tt
translate-IsGmailError (refresh_error message) h = tt
translate-IsGmailError (transport_error message) h = tt
translate-IsGmailError (unexpected message) h = absurd h

executed-Raises :
    {W A : Type 0} (answer : Answer A) (s : Session W)
    → Answers IsDocumented answer
    → Raises IsGmailError (executed answer s).0
unfolding executed
executed-Raises (answered a) s h = tt
executed-Raises (failed failure) s h = translate-IsGmailError failure h

module _ {W : Type 0} (api : Api W) (documented : IsDocumentedApi api) where
  created-Raises :
      (name : Text) (answer : Answer Text) (s : Session W)
      → Answers IsDocumented answer
      → Raises IsGmailError
          (continue (keep_label api name) (executed answer s).0 (executed answer s).1).0
  unfolding executed keep_label
  created-Raises name (answered id) s h = tt
  created-Raises name (failed failure) s h = translate-IsGmailError failure h

  found_label-Raises :
      (name : Text) (label : Option Label) (s : Session W)
      → Raises IsGmailError (found_label api name label s).0
  unfolding found_label
  found_label-Raises name (some label) s = tt
  found_label-Raises name none s =
      created-Raises name (api.create_label name s.world).0 _ (documented.create_label name s.world)

  listed-Raises :
      (name : Text) (answer : Answer (List Label)) (s : Session W)
      → Answers IsDocumented answer
      → Raises IsGmailError
          (continue
            (λ listing. found_label api name (first (same_name name) listing))
            (executed answer s).0
            (executed answer s).1).0
  unfolding executed
  listed-Raises name (answered listing) s h =
      found_label-Raises name (first (same_name name) listing) s
  listed-Raises name (failed failure) s h = translate-IsGmailError failure h

  label_or-Raises :
      (name : Text) (known : Option Text) (s : Session W)
      → Raises IsGmailError (label_or api name known s).0
  unfolding label_or look_up_label
  label_or-Raises name (some id) s = tt
  label_or-Raises name none s =
      listed-Raises name (api.list_labels s.world).0 _ (documented.list_labels s.world)

  built-Raises :
      (answer : Answer (Unit {0})) (s : Session W)
      → Answers (λ f. ⊥) answer
      → Raises IsGmailError
          (continue
            (λ (_ : Unit {0}) x. (ok tt, record x { label_cache = [] }))
            (executed answer s).0
            (executed answer s).1).0
  unfolding executed
  built-Raises (answered a) s h = tt
  built-Raises (failed failure) s h = absurd h

  -- If the API fails in the documented ways only, and building the service does not fail, then the
  -- calls of the client raise `GmailError` and its subclasses only.
  pub gmail_client-Raises : GmailRaises (gmail_client api)
  unfolding ensure_label insert_raw build
  gmail_client-Raises = record {
    build = λ s. built-Raises (api.create s.world).0 _ (documented.create s.world);
    ensure_label = λ name s. label_or-Raises name (cached name s.label_cache) s;
    insert_raw = λ raw labels s.
        executed-Raises _ _
          (documented.insert raw labels (ltb resumable_threshold (length raw)) s.world);
  }
