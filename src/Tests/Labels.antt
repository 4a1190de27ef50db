-- ===== src/Tests/Labels.antt =====
-- gmail_client.py at an API in memory.
use mail_transporter.Base.{
  ℕ, ◌++◌, refl, List, some, [], ◌∷◌, Text, text_eq, lower, lower_char, permanent, GmailError,
}
use mail_transporter.Gmail.Api.{Api, answered, failed, http_error, Label}
use mail_transporter.Gmail.Client.{api_error, Session, same_name, ensure_label}
use mail_transporter.Gmail.Directory.{IsDirectory, Implements, ensure_label-Implements}

abbrev icloud : Text
icloud = 105 ∷ 67 ∷ []

abbrev label : Label
label = record { id = 49 ∷ []; name = some (73 ∷ 99 ∷ []) }

abbrev api : Api ℕ
api = record {
  create = λ n. (answered tt, n);
  list_labels = λ n. (answered (label ∷ []), n);
  create_label = λ name n. (failed (http_error 409 []), n);
  insert = λ raw labels resumable n. (answered (50 ∷ []), n);
}

abbrev fresh : Session ℕ
fresh = record { world = 0; label_cache = [] }

abbrev too_large : GmailError
too_large = record { kind = permanent; message = api_error 413 []; status = some 413 }

-- A Gmail that gives every label the id "2".
abbrev growing : Api (List Label)
growing = record {
  create = λ w. (answered tt, w);
  list_labels = λ w. (answered w, w);
  create_label =
      λ name w. (answered (50 ∷ []), w ++ (record { id = 50 ∷ []; name = some name } ∷ []));
  insert = λ raw labels resumable w. (answered (50 ∷ []), w);
}

growing-IsDirectory : IsDirectory growing (λ w. w)
growing-IsDirectory = record {
  lists = λ w. (refl, refl);
  creates = λ name w. (50 ∷ [], refl, refl);
}

abbrev listing : Session (List Label)
listing = record { world = label ∷ []; label_cache = (73 ∷ 67 ∷ [], 49 ∷ []) ∷ [] }

ensure_label-Implements_example :
    Implements growing
      (λ w. w)
      growing-IsDirectory
      icloud
      (label ∷ [])
      (ensure_label growing icloud listing).0
      (ensure_label growing icloud listing).1
unfolding same_name text_eq lower lower_char
ensure_label-Implements_example =
    ensure_label-Implements growing (λ w. w) growing-IsDirectory icloud listing
      ((label, refl, refl), tt)
