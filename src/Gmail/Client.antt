-- ===== src/Gmail/Client.antt =====
-- mailtransporter/gmail_client.py: `classify_http_error`, `_execute`, `ensure_label`, `insert_raw`.
use mail_transporter.Base.{
  ℕ, ◌++◌, Bool, ◌||◌, Option, none, some, List, [], ◌∷◌, Text, text, text_eq, lower, show_nat,
  first, GmailKind, retryable, permanent, auth, Raised, ok, raised, gmail_error, other, Exec, pure,
  modify, ◌>>=◌, ◌>>◌, length, ltb, leb, ◌==◌, if◌then◌else◌,
}
use mail_transporter.Ports.{Gmail}
use mail_transporter.Gmail.Api.{
  Api, Answer, answered, failed, Failure, http_error, refresh_error, transport_error, unexpected,
  Label,
}

-- `status in (400, 404, 409, 410, 412, 413, 422)`
unfoldable pub is_rejection : ℕ → Bool
is_rejection n =
    n == 400 || (n == 404 || (n == 409 || (n == 410 || (n == 412 || (n == 413 || n == 422)))))

unfoldable pub classify_http_error : ℕ → GmailKind
unfolding is_rejection
classify_http_error status =
    if status == 401
    then auth
    else if status == 429 || leb 500 status
    then retryable
    else if status == 403
    then retryable
    else if is_rejection status
    then permanent
    else retryable

unfoldable pub api_error : ℕ → Text → Text
unfolding text show_nat
api_error status message = text "Gmail API error " ++ (show_nat status ++ (text ": " ++ message))

unfoldable pub refresh_failed : Text → Text
unfolding text
refresh_failed message = text "Gmail OAuth refresh failed: " ++ message

unfoldable pub transport_failed : Text → Text
unfolding text
transport_failed message = text "Gmail transport error: " ++ message

-- The `except` clauses of `_execute`.
unfoldable pub translate : Failure → Raised
unfolding classify_http_error
translate (http_error status message) = gmail_error (record {
  kind = classify_http_error status;
  message = api_error status message;
  status = if status == 0 then none else some status;
})
translate (refresh_error message) =
    gmail_error (record { kind = auth; message = refresh_failed message; status = none })
translate (transport_error message) =
    gmail_error (record { kind = retryable; message = transport_failed message; status = none })
translate (unexpected message) = other message

-- The client object over the world.
pub record Session (W : Type 0) : Type 0 where
  pub world : W
  pub label_cache : List (Text × Text)

unfoldable pub executed : {W A : Type 0} → Answer A → Exec (Session W) A
unfolding translate
executed (answered a) s = (ok a, s)
executed (failed failure) s = (raised (translate failure), s)

-- `_execute`
unfoldable pub execute : {W A : Type 0} → (W → Answer A × W) → Exec (Session W) A
unfolding executed
execute request s = executed (request s.world).0 (record s { world = (request s.world).1 })

-- `RESUMABLE_THRESHOLD`
abbrev pub resumable_threshold : ℕ
resumable_threshold = 5242880

unfoldable pub cached : Text → List (Text × Text) → Option Text
unfolding text_eq
cached name [] = none
cached name ((key, id) ∷ cache) =
    let rest = cached name cache in if text_eq key name then some id else rest

-- `label.get("name", "")`
abbrev pub name_of : Label → Text
name_of label = elim label.name [ none ↦ [] | some name ↦ name ]

unfoldable pub same_name : Text → Label → Bool
unfolding text_eq lower
same_name name label = text_eq (lower (name_of label)) (lower name)

module _ {W : Type 0} (api : Api W) where
  -- A new key of the cache.
  unfoldable pub keep_label : Text → Text → Exec (Session W) Text
  keep_label name id s = (ok id, record s { label_cache = (name, id) ∷ s.label_cache })

  unfoldable pub found_label : Text → Option Label → Exec (Session W) Text
  unfolding execute keep_label
  found_label name (some label) = keep_label name label.id
  found_label name none = do id ← execute (api.create_label name); keep_label name id

  unfoldable pub look_up_label : Text → Exec (Session W) Text
  unfolding execute same_name
  look_up_label name = do
    listing ← execute api.list_labels
    found_label name (first (same_name name) listing)

  unfoldable pub label_or : Text → Option Text → Exec (Session W) Text
  label_or name (some id) = pure id
  label_or name none = look_up_label name

  unfoldable pub ensure_label : Text → Exec (Session W) Text
  unfolding cached
  ensure_label name s = label_or name (cached name s.label_cache) s

  unfoldable pub insert_raw : Text → List Text → Exec (Session W) Text
  unfolding execute
  insert_raw raw labels = execute (api.insert raw labels (ltb resumable_threshold (length raw)))

  -- `GmailClient(credentials)`: a new object, with an empty cache.
  unfoldable pub build : Exec (Session W) (Unit {0})
  unfolding execute
  build = do execute api.create; modify (λ s. record s { label_cache = [] })

  abbrev pub gmail_client : Gmail (Session W)
  gmail_client = record { build = build; ensure_label = ensure_label; insert_raw = insert_raw }
