-- ===== src/Secrets/Env.antt =====
-- mailtransporter/secrets.py: `fetch_secret`, `resolve_secret_env`, `require_env`, `env_int`.
-- The environment is a function; the state is the registry of secrets.
use mail_transporter.Base.{
  ℕ, ◌+◌, ◌-◌, ◌*◌, ◌++◌, Bool, true, false, not, ◌&&◌, Option, none, some, List, [], ◌∷◌, Text,
  text, strip, rstrip, repr, occurs, Raised, Result, ok, raised, config_error, Exec, raise, leb,
  ◌==◌, if◌then◌else◌,
}
use mail_transporter.Base.Int.{ℤ, pos, sub_ℕ}
use mail_transporter.Secrets.Redaction.{register_secret}

abbrev pub Env : Type 0
Env = Text → Option Text

-- The registry of secrets.
abbrev pub Registry : Type 0
Registry = List Text

-- `f"{resource.rstrip('/')}/versions/latest"` unless a version is named.
unfoldable pub version_of : Text → Text
unfolding text occurs rstrip
version_of resource =
    if not (occurs (text "/versions/") resource)
    then rstrip (λ c. c == 47) resource ++ text "/versions/latest"
    else resource

unfoldable pub missing_secret : Text → Text
unfolding text
missing_secret name =
    text "Missing configuration: set " ++ (name ++ (text " or " ++ (name ++ text "_SECRET")))

unfoldable pub missing_value : Text → Text
unfolding text
missing_value name = text "Missing configuration: " ++ name

unfoldable pub not_an_integer : Text → Text → Text
unfolding text repr
not_an_integer name raw = name ++ (text " must be an integer, got " ++ repr raw)

-- `os.environ.get(name, default)`
abbrev pub get_or : Option Text → Text → Text
get_or none default = default
get_or (some value) default = value

-- A registered value.
unfoldable pub registered : Text → Exec Registry Text
unfolding register_secret
registered value values = (ok value, register_secret (some value) values)

-- `fetch` is the Secret Manager, given the resource with its version.
module _ (env : Env) (fetch : Text → Result Text) where
  unfoldable pub fetched : Text → Result Text → Exec Registry Text
  unfolding registered strip
  fetched name (ok payload) = registered (strip payload)
  fetched name (raised e) = raise e

  unfoldable pub from_reference : Text → Option Text → Exec Registry Text
  unfolding version_of
  from_reference name none = raise (config_error (missing_secret name))
  from_reference name (some []) = raise (config_error (missing_secret name))
  from_reference name (some (c ∷ reference)) = fetched name (fetch (version_of (c ∷ reference)))

  unfoldable pub from_value : Text → Option Text → Exec Registry Text
  unfolding registered strip text
  from_value name none = from_reference name (env (name ++ text "_SECRET"))
  from_value name (some []) = from_reference name (env (name ++ text "_SECRET"))
  from_value name (some (c ∷ value)) = registered (strip (c ∷ value))

  -- `resolve_secret_env(name)`, with `required` left at `True`
  unfoldable pub resolve_secret_env : Text → Exec Registry Text
  resolve_secret_env name = from_value name (env name)

unfoldable pub nonempty_or : Raised → Text → Result Text
nonempty_or e [] = raised e
nonempty_or e (c ∷ value) = ok (c ∷ value)

unfoldable pub require_env : Env → Text → Result Text
unfolding strip nonempty_or
require_env env name =
    nonempty_or (config_error (missing_value name)) (strip (get_or (env name) []))

abbrev pub is_digit : ℕ → Bool
is_digit c = leb 48 c && leb c 57

-- The digits of `int`, which may have single underscores between them. `open_digit` says that the
-- last character was a digit.
unfoldable pub digits : ℕ → Bool → Text → Option ℕ
digits n open_digit [] = if open_digit then some n else none
digits n open_digit (c ∷ s) = elim (is_digit c) [
  | true ↦ digits (n * 10 + (c - 48)) true s
  | false ↦ elim (c == 95 && open_digit) [ true ↦ digits n false s | false ↦ none ]
]

-- `-n`
abbrev pub negate : ℕ → ℤ
negate n = sub_ℕ 0 n

abbrev pub signed : (ℕ → ℤ) → Option ℕ → Option ℤ
signed f none = none
signed f (some n) = some (f n)

-- `int(raw)` for ASCII digits, given that white space has been stripped.
unfoldable pub parse_int : Text → Option ℤ
unfolding digits
parse_int [] = none
parse_int (c ∷ s) =
    if c == 45
    then signed negate (digits 0 false s)
    else if c == 43
    then signed pos (digits 0 false s)
    else signed pos (digits 0 false (c ∷ s))

unfoldable pub int_or : Text → Text → Option ℤ → Result ℤ
int_or name raw none = raised (config_error (not_an_integer name raw))
int_or name raw (some n) = ok n

unfoldable pub int_of : Text → ℤ → Text → Result ℤ
unfolding parse_int int_or
int_of name default [] = ok default
int_of name default (c ∷ raw) = int_or name (c ∷ raw) (parse_int (c ∷ raw))

unfoldable pub env_int : Env → Text → ℤ → Result ℤ
unfolding strip int_of
env_int env name default = int_of name default (strip (get_or (env name) []))
