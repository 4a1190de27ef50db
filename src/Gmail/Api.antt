-- ===== src/Gmail/Api.antt =====
-- The Gmail API as googleapiclient offers it, a parameter over the state of the world.
use mail_transporter.Base.{ℕ, Bool, Option, List, Text}

-- What `request.execute` raises: `HttpError` with the status of the response (0 if it has none) and
-- the text that `_message` finds in it, `RefreshError`, one of the transport errors, anything else.
pub data Failure : Type 0 where
  http_error : ℕ → Text → Failure
  refresh_error : Text → Failure
  transport_error : Text → Failure
  unexpected : Text → Failure

pub data Answer (A : Type 0) : Type 0 where
  answered : A → Answer A
  failed : Failure → Answer A

-- One entry of the listing; the name may be missing.
pub record Label : Type 0 where
  pub id : Text
  pub name : Option Text

pub record Api (W : Type 0) : Type 0 where
  -- `build("gmail", "v1", …)`
  pub create : W → Answer (Unit {0}) × W
  pub list_labels : W → Answer (List Label) × W
  -- the id of the new label
  pub create_label : Text → W → Answer Text × W
  -- `messages().insert`: the text, the labels, whether the upload is resumable; the message's id
  pub insert : Text → List Text → Bool → W → Answer Text × W
