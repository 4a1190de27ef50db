-- ===== src/Tests/Settings.antt =====
-- secrets.py and config.py at concrete texts and environments.
use mail_transporter.Base.{
  ◌≡◌, refl, inl, false, Option, none, some, Text, [], ◌∷◌, text, text_eq, text_mem, lower,
  lower_char, is_ascii, starts_with, strip, lstrip, rstrip, is_space, occurs, take,
}
use mail_transporter.Secrets.Redaction.{redact}
use mail_transporter.Secrets.Sealed.{redact-seals}
use mail_transporter.Secrets.Filter.{LogRecord, filter, Lacks, filter-seals}
use mail_transporter.Secrets.Env.{Env}
use mail_transporter.Config.Keywords.{
  reserved_keywords, is_malformed, is_taken, check_keyword, keyword_from_env, Keywords, check_pair,
  quarantine_keywords_from_env, distinct, check_three, keywords_from_env, default_inserted,
  default_failed, default_unverified,
}
use mail_transporter.Config.Validity.{IsUsable, Differ, keywords_from_env-IsUsable}

redact-seals_example :
    (occurs (112 ∷ 119 ∷ []) (redact ((112 ∷ 119 ∷ []) ∷ []) (58 ∷ 112 ∷ 119 ∷ [])) ≡ false)
    × (occurs (112 ∷ 119 ∷ []) (take 2 (redact ((112 ∷ 119 ∷ []) ∷ []) (58 ∷ 112 ∷ 119 ∷ [])))
        ≡ false)
redact-seals_example =
    redact-seals ((112 ∷ 119 ∷ []) ∷ []) (112 ∷ 119 ∷ []) (58 ∷ 112 ∷ 119 ∷ []) 2 refl (inl refl)

abbrev unset : Env
unset name = none

abbrev defaults : Keywords
defaults = record {
  inserted = default_inserted;
  failed = default_failed;
  unverified = default_unverified;
}

keywords_from_env-IsUsable_example :
    (IsUsable default_inserted × IsUsable default_failed × IsUsable default_unverified)
    × (Differ default_inserted default_failed
        × Differ default_failed default_unverified
        × Differ default_inserted default_unverified)
unfolding keywords_from_env keyword_from_env check_keyword is_malformed is_taken reserved_keywords
    quarantine_keywords_from_env check_pair distinct check_three default_inserted default_failed
    default_unverified text text_eq text_mem lower lower_char is_ascii starts_with strip lstrip
    rstrip is_space
keywords_from_env-IsUsable_example = keywords_from_env-IsUsable unset defaults refl

-- A record whose message and exception both hold "pw".
abbrev logged : LogRecord Unit Unit
logged = record { msg = 112 ∷ 119 ∷ []; args = tt ∷ []; exc_info = some tt; exc_text = none }

abbrev traceback : Unit {0} → Text
traceback e = 58 ∷ 112 ∷ 119 ∷ []

abbrev message : LogRecord Unit Unit → Option Text
message r = none

no_exception : {A : Type 0} → logged.exc_info ≡ none → A
no_exception e = cc

filter-seals_example :
    (occurs (112 ∷ 119 ∷ []) (filter message traceback ((112 ∷ 119 ∷ []) ∷ []) logged).1.msg
      ≡ false)
    × (Lacks message traceback
        (112 ∷ 119 ∷ [])
        (filter message traceback ((112 ∷ 119 ∷ []) ∷ []) logged).1.exc_text)
    × ((filter message traceback ((112 ∷ 119 ∷ []) ∷ []) logged).1.args ≡ [])
    × ((filter message traceback ((112 ∷ 119 ∷ []) ∷ []) logged).1.exc_info ≡ none)
filter-seals_example =
    filter-seals message traceback ((112 ∷ 119 ∷ []) ∷ []) (112 ∷ 119 ∷ []) logged refl (inl refl)
      (λ e. no_exception e)
