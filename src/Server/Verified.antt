-- ===== src/Server/Verified.antt =====
-- mailtransporter/server.py: what `verify_invoker` requires of a call.
use mail_transporter.Base.{
  ℕ, Bool, true, false, ◌≡◌, refl, ap, Option, none, some, [], ◌∷◌, ◌++◌, Text, text_eq→eq,
  starts_with, length, Result, ok, raised, Exec, arith,
}
use mail_transporter.Server.Invoker.{
  Claims, bearer, drop, is_email, is_invoker, verify_token, verify_header, verify_audience,
  verify_invoker,
}

prefix-drop : (p s : Text) → starts_with p s ≡ true → s ≡ p ++ drop (length p) s
unfolding starts_with
prefix-drop [] s h = refl
prefix-drop (c ∷ p) [] h = cc
prefix-drop (c ∷ p) (d ∷ s) h = ground (arith, prefix-drop p s)

is_email-eq :
    (allowed : Text) (email : Option Text) → is_email allowed email ≡ true → email ≡ some allowed
unfolding is_email
is_email-eq allowed none h = cc
is_email-eq allowed (some email) h = rw (text_eq→eq email allowed h) refl

-- The token was accepted for the audience, and names the invoker.
abbrev pub IsVerified :
    {S : Type 0} → (Text → Text → Exec S Claims) → Option Text → Text → Option Text → S → Type 0
IsVerified verify header allowed audience s =
    (token : Text) × (url : Text) × (claims : Claims) × (header ≡ some (bearer ++ token))
    × (audience ≡ some url)
    × ((verify token url s).0 ≡ ok claims)
    × (claims.email_verified ≡ true)
    × (claims.email ≡ some allowed)

is_invoker-ok :
    (allowed : Text) (outcome : Result Claims)
    → is_invoker allowed outcome ≡ true
    → (claims : Claims) × (outcome ≡ ok claims)
      × (claims.email_verified ≡ true)
      × (claims.email ≡ some allowed)
unfolding is_invoker
is_invoker-ok allowed (raised e) h = cc
is_invoker-ok allowed (ok claims) h =
    (claims, refl, ground arith, is_email-eq allowed claims.email (ground arith))

module _ {S : Type 0} (verify : Text → Text → Exec S Claims) where
  prefix-IsVerified :
      (b : Bool) (header allowed url : Text) (s : S)
      → starts_with bearer header ≡ b
      → (verify_header verify (some header) allowed url s).0 ≡ true
      → IsVerified verify (some header) allowed (some url) s
  unfolding verify_header verify_token
  prefix-IsVerified false header allowed url s e h = absurd (ground arith)
  prefix-IsVerified true header allowed url s e h =
      let token = drop (length bearer) header in
      let (claims, accepted, verified, named) =
        is_invoker-ok allowed (verify token url s).0 (ground arith) in
      (
        token,
        url,
        claims,
        ap (λ (x : Text). some x) (prefix-drop bearer header e),
        refl,
        accepted,
        verified,
        named,
      )

  header-IsVerified :
      (header : Option Text) (allowed url : Text) (s : S)
      → (verify_header verify header allowed url s).0 ≡ true
      → IsVerified verify header allowed (some url) s
  unfolding verify_header
  header-IsVerified none allowed url s h = cc
  header-IsVerified (some header) allowed url s h =
      prefix-IsVerified (starts_with bearer header) header allowed url s refl h

  -- If an invoker is configured and the call is let in, then its header is `Bearer` with a token that
  -- was accepted for the configured audience, which is not missing, and whose verified address is
  -- that invoker.
  pub verify_invoker-IsVerified :
      (header : Option Text) (c : ℕ) (allowed : Text) (audience : Option Text) (s : S)
      → (verify_invoker verify header (c ∷ allowed) audience s).0 ≡ true
      → IsVerified verify header (c ∷ allowed) audience s
  unfolding verify_invoker verify_audience
  verify_invoker-IsVerified header c allowed none s h = cc
  verify_invoker-IsVerified header c allowed (some []) s h = cc
  verify_invoker-IsVerified header c allowed (some (d ∷ url)) s h =
      header-IsVerified header (c ∷ allowed) (d ∷ url) s h
