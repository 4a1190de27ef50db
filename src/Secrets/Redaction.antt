-- ===== src/Secrets/Redaction.antt =====
-- mailtransporter/secrets.py: `register_secret` and `redact`. The set is a list without repetition.
use mail_transporter.Base.{
  ℕ, zero, suc, ◌-◌, ◌++◌, true, false, Option, none, some, List, [], ◌∷◌, Text, text_mem,
  starts_with, length, leb, if◌then◌else◌,
}

-- `MASK`
abbrev pub mask : Text
mask = 42 ∷ 42 ∷ 42 ∷ []

-- `set.add`
unfoldable pub add_value : Text → List Text → List Text
unfolding text_mem
add_value value values = if text_mem value values then values else value ∷ values

-- `register_secret`; `None` and short values are ignored.
unfoldable pub register_secret : Option Text → List Text → List Text
unfolding add_value
register_secret none values = values
register_secret (some value) values =
    if leb 6 (length value) then add_value value values else values

-- `text.replace(value, MASK)` for a value that is not empty, from left to right without overlap.
-- `skip` characters belong to the occurrence that was last replaced.
unfoldable pub replace_from : Text → ℕ → Text → Text
unfolding starts_with
replace_from value skip [] = []
replace_from value (suc skip) (c ∷ s) = replace_from value skip s
replace_from value zero (c ∷ s) = elim (starts_with value (c ∷ s)) [
  | true ↦ mask ++ replace_from value (length value - 1) s
  | false ↦ c ∷ replace_from value zero s
]

unfoldable pub replace : Text → Text → Text
unfolding replace_from
replace value s = replace_from value zero s

-- `sorted(_SECRET_VALUES, key=len, reverse=True)`
unfoldable pub insert_longest : Text → List Text → List Text
insert_longest value [] = value ∷ []
insert_longest value (v ∷ values) =
    let rest = insert_longest value values in
    if leb (length v) (length value) then value ∷ v ∷ values else v ∷ rest

unfoldable pub longest_first : List Text → List Text
unfolding insert_longest
longest_first [] = []
longest_first (value ∷ values) = insert_longest value (longest_first values)

unfoldable pub replace_all : List Text → Text → Text
unfolding replace
replace_all [] s = s
replace_all (value ∷ values) s = replace_all values (replace value s)

unfoldable pub redact : List Text → Text → Text
unfolding longest_first replace_all
redact values s = replace_all (longest_first values) s
