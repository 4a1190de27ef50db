-- ===== src/Server/Invoker.antt =====
-- mailtransporter/server.py: `verify_invoker`. The check of a token is google.oauth2's, a parameter
-- over the state of the world, given the token and the audience.
use mail_transporter.Base.{
  ℕ, zero, suc, Bool, true, false, ◌&&◌, Option, none, some, [], ◌∷◌, Text, text, text_eq,
  starts_with, length, Result, ok, raised, Exec, if◌then◌else◌,
}

-- What the token says: whether `email_verified` is true, and `email`.
pub record Claims : Type 0 where
  pub email_verified : Bool
  pub email : Option Text

unfoldable pub bearer : Text
unfolding text
bearer = text "Bearer "

-- `header[len("Bearer "):]`
abbrev pub drop : ℕ → Text → Text
drop zero s = s
drop (suc n) [] = []
drop (suc n) (c ∷ s) = drop n s

unfoldable pub is_email : Text → Option Text → Bool
unfolding text_eq
is_email allowed none = false
is_email allowed (some email) = text_eq email allowed

-- The outcome of the check; every exception is a denial.
unfoldable pub is_invoker : Text → Result Claims → Bool
unfolding is_email
is_invoker allowed (raised e) = false
is_invoker allowed (ok claims) = claims.email_verified && is_email allowed claims.email

module _ {S : Type 0} (verify : Text → Text → Exec S Claims) where
  unfoldable pub verify_token : Text → Text → Text → S → Bool × S
  unfolding is_invoker
  verify_token token allowed audience s =
      (is_invoker allowed (verify token audience s).0, (verify token audience s).1)

  unfoldable pub verify_header : Option Text → Text → Text → S → Bool × S
  unfolding bearer starts_with
  verify_header none allowed audience s = (false, s)
  verify_header (some header) allowed audience s =
      if starts_with bearer header
      then verify_token (drop (length bearer) header) allowed audience s
      else (false, s)

  -- The invoker `allowed` is configured.
  unfoldable pub verify_audience : Option Text → Text → Option Text → S → Bool × S
  verify_audience header allowed none s = (false, s)
  verify_audience header allowed (some []) s = (false, s)
  verify_audience header allowed (some (c ∷ audience)) s =
      verify_header header allowed (c ∷ audience) s

  unfoldable pub verify_invoker : Option Text → Text → Option Text → S → Bool × S
  verify_invoker header [] audience s = (true, s)
  verify_invoker header (c ∷ allowed) audience s = verify_audience header (c ∷ allowed) audience s
