-- ===== src/Config/Loading.antt =====
-- mailtransporter/config.py: calls that load secrets into the registry, and what holds after them.
use mail_transporter.Base.{
  Bool, true, false, ◌||◌, ◌≡◌, refl, inl, inr, some, [], ◌∷◌, Text, text_eq, text_eq→eq, text_mem,
  length, leb, In, Result, ok, raised, Exec, continue, arith, ◌>>=◌, if◌then◌else◌,
}
use mail_transporter.Secrets.Redaction.{register_secret, add_value}
use mail_transporter.Secrets.Env.{Registry, registered}
use mail_transporter.Config.OauthJson.{Json, string}
use mail_transporter.Config.Settings.{given}

-- A text long enough to count as a secret is in the registry.
abbrev pub Known : Text → Registry → Type 0
Known v values = leb 6 (length v) ≡ true → In v values

abbrev pub KnownJson : Json → Registry → Type 0
KnownJson (string v) values = Known v values
KnownJson _ values = Unit

abbrev pub Grows : Registry → Registry → Type 0
Grows before after = (v : Text) → In v before → In v after

mem-In : (v : Text) (values : Registry) → text_mem v values ≡ true → In v values
unfolding text_mem
mem-In v [] h = cc
mem-In v (w ∷ values) h = by_first (text_eq v w) refl (mem-In v values) h
  where
    by_first :
        (b : Bool)
        → text_eq v w ≡ b
        → (text_mem v values ≡ true → In v values)
        → (b || text_mem v values) ≡ true
        → In v (w ∷ values)
    by_first true e rest h = inl (text_eq→eq v w e)
    by_first false e rest h = inr (rest h)

add_value-In :
    (b : Bool) (v : Text) (values : Registry)
    → text_mem v values ≡ b
    → In v (if b then values else v ∷ values)
add_value-In true v values e = mem-In v values e
add_value-In false v values e = inl refl

pub register_secret-Known :
    (v : Text) (values : Registry) → Known v (register_secret (some v) values)
unfolding register_secret add_value
register_secret-Known v values long = rw long (add_value-In (text_mem v values) v values refl)

if-In : (b : Bool) (v : Text) (s t : Registry) → In v s → In v t → In v (if b then s else t)
if-In true v s t h k = h
if-In false v s t h k = k

pub register_secret-Grows :
    (w : Text) (values : Registry) → Grows values (register_secret (some w) values)
unfolding register_secret add_value
register_secret-Grows w values v h =
    if-In (leb 6 (length w)) v _ values (if-In (text_mem w values) v values (w ∷ values) h (inr h))
      h

-- What holds of the value and the registry if the call returns.
abbrev pub After : {A : Type 0} → (A → Registry → Type 0) → Result A × Registry → Type 0
After P (ok a, values) = P a values
After P (raised e, values) = Unit

pub after_ok :
    {A : Type 0} (P : A → Registry → Type 0) (x : Result A × Registry) (a : A)
    → After P x
    → x.0 ≡ ok a
    → P a x.1
after_ok {A = A} P (ok b, values) a h e = same b a h (ground arith)
  where
    same : (b a : A) → P b values → b ≡ a → P a values
    same b a h e = rw (← e) h
after_ok {A = A} P (raised x, values) a h e = cc

module _ {A B : Type 0} where
  pub bind-After :
      (Q : A → Registry → Type 0) (P : B → Registry → Type 0) (m : Exec Registry A)
      (f : A → Exec Registry B) (values : Registry)
      → After Q (m values)
      → ((a : A) (later : Registry) → Q a later → After P (f a later))
      → After P ((m >>= f) values)
  bind-After Q P m f values h k = by_outcome (m values) h
    where
      by_outcome : (x : Result A × Registry) → After Q x → After P (continue f x.0 x.1)
      by_outcome (ok a, later) h = k a later h
      by_outcome (raised e, later) h = tt

  pub given-After :
      (P : B → Registry → Type 0) (outcome : Result A) (f : A → Exec Registry B) (values : Registry)
      → ((a : A) → After P (f a values))
      → After P ((given outcome >>= f) values)
  given-After P (ok a) f values k = k a
  given-After P (raised e) f values k = tt

abbrev pub Loads : Registry → Text → Registry → Type 0
Loads before v after = Known v after × Grows before after

pub registered-After : (v : Text) (values : Registry) → After (Loads values) (registered v values)
unfolding registered
registered-After v values = (register_secret-Known v values, register_secret-Grows v values)
