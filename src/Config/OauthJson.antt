-- ===== src/Config/OauthJson.antt =====
-- mailtransporter/config.py: the JSON text of `GmailSettings.from_env`, its two layouts and its keys.
use mail_transporter.Base.{
  ℕ, Bool, true, false, not, ◌++◌, Option, none, some, List, [], ◌∷◌, Text, text, text_eq, leb,
  ◌==◌, Raised, Result, ok, raised, other, Exec, if◌then◌else◌,
}
use mail_transporter.Secrets.Redaction.{register_secret}
use mail_transporter.Secrets.Env.{Registry}

-- What `json.loads` returns. Of an array only the length matters, of the other values the truth.
mutual
  pub data Json : Type 0 where
    string : Text → Json
    object : Fields → Json
    array : ℕ → Json
    scalar : Bool → Json

  -- The items of a dict.
  pub data Fields : Type 0 where
    no_fields : Fields
    field : Text → Json → Fields → Fields

abbrev pub get : Text → Fields → Option Json
get key no_fields = none
get key (field name value fields) =
    let rest = get key fields in if text_eq name key then some value else rest

abbrev pub size : Fields → ℕ
size no_fields = 0
size (field name value fields) = ℕ.suc (size fields)

abbrev pub drop_key : Text → Fields → Fields
drop_key key no_fields = no_fields
drop_key key (field name value fields) =
    let rest = drop_key key fields in if text_eq name key then rest else field name value rest

-- `{**below, **above}`, as far as `get` sees it.
abbrev pub over : Fields → Fields → Fields
over no_fields below = below
over (field name value above) below = field name value (over above below)

-- `not value`
abbrev pub is_falsy : Option Json → Bool
is_falsy none = true
is_falsy (some (string [])) = true
is_falsy (some (string (_ ∷ _))) = false
is_falsy (some (object no_fields)) = true
is_falsy (some (object (field _ _ _))) = false
is_falsy (some (array n)) = n == 0
is_falsy (some (scalar b)) = not b

unfoldable pub type_error : Raised
unfolding text
type_error = other (text "TypeError")

-- `register_secret(value)` for a value of the JSON text: `len` and `set.add` want the right types.
unfoldable pub register_json : Json → Exec Registry (Unit {0})
unfolding register_secret type_error
register_json (string value) values = (ok tt, register_secret (some value) values)
register_json (object fields) values =
    (if leb 6 (size fields) then raised type_error else ok tt, values)
register_json (array n) values = (if leb 6 n then raised type_error else ok tt, values)
register_json (scalar b) values = (raised type_error, values)

unfoldable pub required_keys : List Text
unfolding text
required_keys = text "client_id" ∷ text "client_secret" ∷ text "refresh_token" ∷ []

-- `', '.join(names)`
abbrev pub joined : List Text → Text
joined [] = []
joined (name ∷ []) = name
joined (name ∷ next ∷ names) = name ++ (44 ∷ 32 ∷ joined (next ∷ names))

unfoldable pub missing_keys : List Text → Text
unfolding text
missing_keys names = text "GMAIL_OAUTH_JSON is missing keys: " ++ joined names

unfoldable pub invalid_json : Text
unfolding text
invalid_json = text "GMAIL_OAUTH_JSON is not valid JSON"

-- The flat layout, and that with "installed".
unfoldable pub flattened : Fields → Option Json → Result Fields
unfolding text type_error
flattened oauth none = ok oauth
flattened oauth (some (object installed)) = ok (over (drop_key (text "installed") oauth) installed)
flattened oauth (some _) = raised type_error

unfoldable pub flat_fields : Json → Result Fields
unfolding text flattened type_error
flat_fields (object oauth) = flattened oauth (get (text "installed") oauth)
flat_fields _ = raised type_error

-- `data[key]`
abbrev pub item : Option Json → Result Json
item none = raised (other [])
item (some value) = ok value
