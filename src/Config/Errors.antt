-- ===== src/Config/Errors.antt =====
-- mailtransporter/config.py: what loading the settings of the session and the keywords raises.
use mail_transporter.Base.{
  Bool, true, false, not, ◌≡◌, Option, none, some, [], ◌∷◌, Text, text, strip, text_eq, lower,
  length, Raised, Result, ok, raised, config_error, Exec, continue, ◌>>=◌, ◌==◌, if◌then◌else◌,
}
use mail_transporter.Base.Int.{ℤ, pos}
use mail_transporter.Forwarder.Errors.{Raises}
use mail_transporter.Secrets.Env.{
  Env, Registry, get_or, fetched, from_reference, from_value, resolve_secret_env, version_of,
  missing_value, nonempty_or, require_env, parse_int, int_or, int_of, env_int,
}
use mail_transporter.Config.Keywords.{
  is_malformed, is_taken, check_keyword, keyword_from_env, Keywords, ◌then_try◌, check_pair,
  distinct, quarantine_keywords_from_env, check_three, clash_of_three, keywords_from_env,
  default_inserted, default_failed, default_unverified, quarantine_hint, inserted_hint,
}
use mail_transporter.Config.OauthJson.{Json}
use mail_transporter.Config.Settings.{icloud_from_env, given}

abbrev pub IsConfigError : Raised → Type 0
IsConfigError (config_error t) = Unit
IsConfigError _ = ⊥

if-IsConfigError :
    {A : Type 0} (b : Bool) (r r' : Result A)
    → Raises IsConfigError r
    → Raises IsConfigError r'
    → Raises IsConfigError (if b then r else r')
if-IsConfigError true r r' h k = h
if-IsConfigError false r r' h k = k

then_try-Raises :
    {A B : Type 0} (r : Result A) (f : A → Result B)
    → Raises IsConfigError r
    → ((a : A) → Raises IsConfigError (f a))
    → Raises IsConfigError (r then_try f)
then_try-Raises (ok a) f h k = k a
then_try-Raises (raised e) f h k = h

bind-Raises :
    {A B : Type 0} (m : Exec Registry A) (f : A → Exec Registry B) (values : Registry)
    → Raises IsConfigError (m values).0
    → ((a : A) (later : Registry) → Raises IsConfigError (f a later).0)
    → Raises IsConfigError ((m >>= f) values).0
bind-Raises {A = A} m f values h k = by_outcome (m values) h
  where
    by_outcome :
        (x : Result A × Registry)
        → Raises IsConfigError x.0
        → Raises IsConfigError (continue f x.0 x.1).0
    by_outcome (ok a, later) h = k a later
    by_outcome (raised e, later) h = h

check_keyword-Raises :
    (name default hint keyword : Text)
    → Raises IsConfigError (check_keyword name default hint keyword)
unfolding check_keyword
check_keyword-Raises name default hint keyword =
    if-IsConfigError (is_malformed keyword) _ _ tt (if-IsConfigError (is_taken keyword) _ _ tt tt)

keyword_from_env-Raises :
    (env : Env) (name default hint : Text)
    → Raises IsConfigError (keyword_from_env env name default hint)
unfolding keyword_from_env
keyword_from_env-Raises env name default hint =
    check_keyword-Raises name default hint (strip (get_or (env name) default))

check_pair-Raises : (failed unverified : Text) → Raises IsConfigError (check_pair failed unverified)
unfolding check_pair
check_pair-Raises failed unverified =
    if-IsConfigError (text_eq (lower failed) (lower unverified)) _ _ tt tt

check_three-Raises :
    (inserted : Text) (pair : Text × Text) → Raises IsConfigError (check_three inserted pair)
unfolding check_three
check_three-Raises inserted (failed, unverified) =
    let names = lower inserted ∷ lower failed ∷ lower unverified ∷ [] in
    if-IsConfigError {A = Keywords} (not (length (distinct names) == length names))
      (raised (config_error (clash_of_three inserted failed unverified))) (ok _) tt tt

pub keywords_from_env-Raises : (env : Env) → Raises IsConfigError (keywords_from_env env)
unfolding keywords_from_env quarantine_keywords_from_env
keywords_from_env-Raises env =
    then_try-Raises (keyword_from_env env (text "INSERTED_KEYWORD") default_inserted inserted_hint)
      _ (keyword_from_env-Raises env _ _ _)
      λ inserted.
        then_try-Raises (quarantine_keywords_from_env env) (check_three inserted)
          (then_try-Raises
            (keyword_from_env env (text "FAILED_KEYWORD") default_failed quarantine_hint) _
            (keyword_from_env-Raises env _ _ _)
            λ failed.
              then_try-Raises
                (keyword_from_env env (text "UNVERIFIED_KEYWORD") default_unverified
                  quarantine_hint)
                _ (keyword_from_env-Raises env _ _ _) (check_pair-Raises failed))
          (check_three-Raises inserted)

nonempty_or-Raises :
    (name value : Text) → Raises IsConfigError (nonempty_or (config_error name) value)
unfolding nonempty_or
nonempty_or-Raises name [] = tt
nonempty_or-Raises name (c ∷ value) = tt

require_env-Raises : (env : Env) (name : Text) → Raises IsConfigError (require_env env name)
unfolding require_env
require_env-Raises env name = nonempty_or-Raises (missing_value name) _

int_or-Raises : (name raw : Text) (n : Option ℤ) → Raises IsConfigError (int_or name raw n)
unfolding int_or
int_or-Raises name raw none = tt
int_or-Raises name raw (some n) = tt

int_of-Raises :
    (name : Text) (default : ℤ) (raw : Text) → Raises IsConfigError (int_of name default raw)
unfolding int_of
int_of-Raises name default [] = tt
int_of-Raises name default (c ∷ raw) = int_or-Raises name (c ∷ raw) (parse_int (c ∷ raw))

env_int-Raises :
    (env : Env) (name : Text) (default : ℤ) → Raises IsConfigError (env_int env name default)
unfolding env_int
env_int-Raises env name default = int_of-Raises name default (strip (get_or (env name) []))

module _ (env : Env) (fetch : Text → Result Text)
    (answers : (resource : Text) → (payload : Text) × (fetch resource ≡ ok payload)) where
  from_reference-Raises :
      (name : Text) (reference : Option Text) (values : Registry)
      → Raises IsConfigError (from_reference env fetch name reference values).0
  unfolding from_reference fetched
  from_reference-Raises name none values = tt
  from_reference-Raises name (some []) values = tt
  from_reference-Raises name (some (c ∷ reference)) values =
      rw (answers (version_of (c ∷ reference))).1 tt

  from_value-Raises :
      (name : Text) (value : Option Text) (values : Registry)
      → Raises IsConfigError (from_value env fetch name value values).0
  unfolding from_value
  from_value-Raises name none values = from_reference-Raises name _ values
  from_value-Raises name (some []) values = from_reference-Raises name _ values
  from_value-Raises name (some (c ∷ value)) values = tt

  resolve_secret_env-Raises :
      (name : Text) (values : Registry)
      → Raises IsConfigError (resolve_secret_env env fetch name values).0
  unfolding resolve_secret_env
  resolve_secret_env-Raises name values = from_value-Raises name (env name) values

  pub icloud_from_env-Raises :
      (loads : Text → Option Json) (values : Registry)
      → Raises IsConfigError (icloud_from_env env fetch loads values).0
  unfolding icloud_from_env
  icloud_from_env-Raises loads values =
      bind-Raises (given (require_env env (text "ICLOUD_USER"))) _ values
        (require_env-Raises env (text "ICLOUD_USER"))
        λ user now.
          bind-Raises (resolve_secret_env env fetch (text "ICLOUD_PASSWORD")) _ now
            (resolve_secret_env-Raises (text "ICLOUD_PASSWORD") now)
            λ password later.
              bind-Raises (given (env_int env (text "IMAP_PORT") (pos 993))) _ later
                (env_int-Raises env (text "IMAP_PORT") (pos 993))
                λ port later'.
                  bind-Raises (given (env_int env (text "IMAP_TIMEOUT") (pos 60))) _ later'
                    (env_int-Raises env (text "IMAP_TIMEOUT") (pos 60)) λ timeout last. tt
