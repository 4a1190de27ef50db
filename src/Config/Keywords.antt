-- ===== src/Config/Keywords.antt =====
-- mailtransporter/config.py: the IMAP keywords read from the environment.
use mail_transporter.Base.{
  ℕ, ◌++◌, Bool, true, false, not, ◌||◌, List, [], ◌∷◌, Text, text, text_mem, text_eq, repr, lower,
  strip, is_ascii, starts_with, any, length, contains, Result, ok, raised, config_error, ◌==◌,
  if◌then◌else◌,
}
use mail_transporter.Secrets.Env.{Env, get_or}

-- ' ()\\{"%*]'
abbrev pub special : List ℕ
special = 32 ∷ 40 ∷ 41 ∷ 92 ∷ 123 ∷ 34 ∷ 37 ∷ 42 ∷ 93 ∷ []

unfoldable pub reserved_keywords : List Text
unfolding text
reserved_keywords =
    text "$forwarded"
    ∷ text "$junk"
    ∷ text "$notjunk"
    ∷ text "$mdnsent"
    ∷ text "$phishing"
    ∷ text "$important"
    ∷ text "$label1"
    ∷ text "$label2"
    ∷ text "$label3"
    ∷ text "$label4"
    ∷ text "$label5"
    ∷ text "$mailflagbit0"
    ∷ text "$mailflagbit1"
    ∷ text "$mailflagbit2"
    ∷ text "junk"
    ∷ text "nonjunk"
    ∷ text "forwarded"
    ∷ text "redirected"
    ∷ []

unfoldable pub default_inserted : Text
unfolding text
default_inserted = text "$GmailInserted"

unfoldable pub default_failed : Text
unfolding text
default_failed = text "$GmailFailed"

unfoldable pub default_unverified : Text
unfolding text
default_unverified = text "$GmailUnverified"

unfoldable pub not_an_atom : Text → Text → Text
unfolding text
not_an_atom name default = name ++ (text " must be a plain ASCII IMAP atom such as " ++ default)

unfoldable pub is_reserved : Text → Text → Text → Text
unfolding text repr
is_reserved name keyword hint =
    name
    ++ (text "=" ++ (repr keyword ++ (text " is a keyword mail clients set themselves; " ++ hint)))

unfoldable pub clash : Text → Text
unfolding text repr
clash failed =
    text "FAILED_KEYWORD and UNVERIFIED_KEYWORD must differ; one means the message is NOT in "
    ++ (text "Gmail and the other that it IS, and both are " ++ repr failed)

unfoldable pub clash_of_three : Text → Text → Text → Text
unfolding text repr
clash_of_three inserted failed unverified =
    text "INSERTED_KEYWORD, FAILED_KEYWORD and UNVERIFIED_KEYWORD must all differ; got "
    ++ (repr inserted ++ (text ", " ++ (repr failed ++ (text ", " ++ repr unverified))))

abbrev pub is_empty : Text → Bool
is_empty [] = true
is_empty (_ ∷ _) = false

-- `not keyword or any(c in keyword for c in ' ()\\{"%*]') or not keyword.isascii()`
unfoldable pub is_malformed : Text → Bool
unfolding is_ascii
is_malformed keyword =
    is_empty keyword || (any (λ c. contains c keyword) special || not (is_ascii keyword))

-- `keyword.lower() in RESERVED_KEYWORDS or keyword.lower().startswith("\\")`
unfoldable pub is_taken : Text → Bool
unfolding lower text_mem starts_with text reserved_keywords
is_taken keyword =
    text_mem (lower keyword) reserved_keywords || starts_with (text "\\") (lower keyword)

unfoldable pub check_keyword : Text → Text → Text → Text → Result Text
unfolding is_malformed is_taken
check_keyword name default hint keyword =
    if is_malformed keyword
    then raised (config_error (not_an_atom name default))
    else if is_taken keyword
    then raised (config_error (is_reserved name keyword hint))
    else ok keyword

unfoldable pub keyword_from_env : Env → Text → Text → Text → Result Text
unfolding strip check_keyword
keyword_from_env env name default hint =
    check_keyword name default hint (strip (get_or (env name) default))

pub record Keywords : Type 0 where
  pub inserted : Text
  pub failed : Text
  pub unverified : Text

infixl 5 ◌then_try◌
abbrev pub ◌then_try◌ : {A B : Type 0} → Result A → (A → Result B) → Result B
(ok a) then_try f = f a
(raised e) then_try f = raised e

unfoldable pub quarantine_hint : Text
unfolding text
quarantine_hint = text "existing mail carrying it would silently drop out of the forwarding queue"

unfoldable pub inserted_hint : Text
unfolding text
inserted_hint = text "existing mail carrying it would be trashed without being forwarded"

unfoldable pub check_pair : Text → Text → Result (Text × Text)
unfolding lower text_eq
check_pair failed unverified =
    if text_eq (lower failed) (lower unverified)
    then raised (config_error (clash failed))
    else ok (failed, unverified)

unfoldable pub quarantine_keywords_from_env : Env → Result (Text × Text)
unfolding text keyword_from_env check_pair
quarantine_keywords_from_env env =
    keyword_from_env env (text "FAILED_KEYWORD") default_failed quarantine_hint then_try λ failed.
    keyword_from_env env (text "UNVERIFIED_KEYWORD") default_unverified quarantine_hint
    then_try λ unverified. check_pair failed unverified

-- `set(names)`
unfoldable pub distinct : List Text → List Text
unfolding text_mem
distinct [] = []
distinct (name ∷ names) =
    let rest = distinct names in if text_mem name rest then rest else name ∷ rest

unfoldable pub check_three : Text → Text × Text → Result Keywords
unfolding lower distinct
check_three inserted (failed, unverified) =
    let names = lower inserted ∷ lower failed ∷ lower unverified ∷ [] in
    if not (length (distinct names) == length names)
    then raised (config_error (clash_of_three inserted failed unverified))
    else ok (record { inserted = inserted; failed = failed; unverified = unverified })

unfoldable pub keywords_from_env : Env → Result Keywords
unfolding text keyword_from_env quarantine_keywords_from_env check_three
keywords_from_env env =
    keyword_from_env env (text "INSERTED_KEYWORD") default_inserted inserted_hint
    then_try λ inserted. quarantine_keywords_from_env env then_try λ pair. check_three inserted pair
