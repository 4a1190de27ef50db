-- ===== src/Config/Validity.antt =====
-- mailtransporter/config.py: what `keywords_from_env` lets through.
use mail_transporter.Base.{
  ℕ, ◌<◌, ◌≡◌, ◌≢◌, refl, sym, ap, ◌∙◌, ◌⊎◌, inl, inr, Bool, true, false, not, ◌||◌, List, [], ◌∷◌,
  In, any, contains, leb, is_ascii, length, Text, lower, strip, text_eq, text_mem, text, Result, ok,
  raised, ◌==◌, ==_iff, arith,
}
use mail_transporter.Secrets.Env.{Env, get_or}
use mail_transporter.Config.Keywords.{
  special, reserved_keywords, is_empty, is_malformed, is_taken, check_keyword, keyword_from_env,
  Keywords, ◌then_try◌, check_pair, distinct, quarantine_keywords_from_env, check_three,
  keywords_from_env, default_inserted, default_failed, default_unverified, quarantine_hint,
  inserted_hint,
}

-- RFC 3501 keeps these out of an atom: the space, the parentheses, the backslash, the brace, the
-- quote, the wildcards and the closing bracket.
abbrev pub IsSpecial : ℕ → Type 0
IsSpecial c =
    (c ≡ 32)
    ⊎ (c ≡ 40)
    ⊎ (c ≡ 41)
    ⊎ (c ≡ 92)
    ⊎ (c ≡ 123)
    ⊎ (c ≡ 34)
    ⊎ (c ≡ 37)
    ⊎ (c ≡ 42)
    ⊎ (c ≡ 93)

-- The keywords that mail clients set, in lower case.
unfoldable pub set_by_clients : List Text
unfolding text
set_by_clients =
    text "junk"
    ∷ text "$junk"
    ∷ text "nonjunk"
    ∷ text "$notjunk"
    ∷ text "forwarded"
    ∷ text "$forwarded"
    ∷ text "redirected"
    ∷ text "$mdnsent"
    ∷ text "$phishing"
    ∷ text "$important"
    ∷ text "$label1"
    ∷ text "$label2"
    ∷ text "$label3"
    ∷ text "$label4"
    ∷ text "$label5"
    ∷ text "$mailflagbit0"
    ∷ text "$mailflagbit1"
    ∷ text "$mailflagbit2"
    ∷ []

-- Not empty, and each character is ASCII and not special; and no mail client sets it.
abbrev pub IsUsable : Text → Type 0
IsUsable keyword =
    (keyword ≢ [])
    × ((c : ℕ) → In c keyword → (c < 128) × (IsSpecial c → ⊥))
    × ((t : Text) → In t set_by_clients → lower keyword ≢ t)

-- Different names whatever the case of their letters.
abbrev pub Differ : Text → Text → Type 0
Differ s t = text_eq (lower s) (lower t) ≡ false

or-false : (a b : Bool) → (a || b) ≡ false → (a ≡ false) × (b ≡ false)
or-false true b h = cc
or-false false b h = (refl, h)

double_negative : (a : Bool) → not (not a) ≡ false → a ≡ false
double_negative true h = cc
double_negative false h = refl

any-false :
    {A : Type 0} (p : A → Bool) (xs : List A) (x : A) → any p xs ≡ false → In x xs → p x ≡ false
any-false p [] x h i = absurd i
any-false p (y ∷ xs) x h (inl e) = ap p e ∙ (or-false (p y) (any p xs) h).0
any-false p (y ∷ xs) x h (inr i) = any-false p xs x (or-false (p y) (any p xs) h).1 i

special-In : (c : ℕ) → IsSpecial c → In c special
special-In c h = ground arith

none_unreserved : any (λ t. not (text_mem t reserved_keywords)) set_by_clients ≡ false
unfolding set_by_clients reserved_keywords text text_mem text_eq
none_unreserved = refl

double_negation : (a : Bool) → not a ≡ false → a ≡ true
double_negation true h = refl
double_negation false h = cc

no_both : (b : Bool) → b ≡ true → b ≡ false → ⊥
no_both true h k = cc
no_both false h k = cc

accepted-IsUsable :
    (keyword : Text) → is_malformed keyword ≡ false → is_taken keyword ≡ false → IsUsable keyword
unfolding is_malformed is_taken is_ascii
accepted-IsUsable keyword h k =
    let (filled, rest) = or-false (is_empty keyword) _ h in
    let (plain, ascii) = or-false (any (λ c. contains c keyword) special) _ rest in
    let small = double_negative (any (λ c. leb 128 c) keyword) ascii in
    let (free, slash) = or-false (text_mem (lower keyword) reserved_keywords) _ k in
    (
      λ e. no_both true refl (ap is_empty (sym e) ∙ filled),
      λ c i. (
        below c (any-false (λ (x : ℕ). leb 128 x) keyword c small i),
        λ s.
            let apart =
              any-false (λ (x : ℕ). x == c) keyword c
                (any-false (λ (x : ℕ). contains x keyword) special c plain (special-In c s)) i in
            no_both (c == c) ((==_iff c c).1 refl) apart,
      ),
      λ t i e.
          no_both (text_mem (lower keyword) reserved_keywords)
            (ap (λ (x : Text). text_mem x reserved_keywords) e
              ∙ double_negation _ (any-false _ set_by_clients t none_unreserved i))
            free,
    )
  where
    below : (c : ℕ) → leb 128 c ≡ false → c < 128
    below c h = ground arith

same-IsUsable : (s t : Text) → s ≡ t → IsUsable t → IsUsable s
same-IsUsable s t e h = rw e h

same-Differ :
    (s t s' t' : Text) → s ≡ s' → t ≡ t' → text_eq (lower s') (lower t') ≡ false → Differ s t
same-Differ s t s' t' e f h = rw (e, f) h

check_by-IsUsable :
    (name default hint keyword k : Text) (malformed taken : Bool)
    → is_malformed keyword ≡ malformed
    → is_taken keyword ≡ taken
    → check_keyword name default hint keyword ≡ ok k
    → IsUsable k
unfolding check_keyword
check_by-IsUsable name default hint keyword k true taken e f h = cc
check_by-IsUsable name default hint keyword k false true e f h = cc
check_by-IsUsable name default hint keyword k false false e f h =
    let same : keyword ≡ k = ground arith in rw (← same) (accepted-IsUsable keyword e f)

check_keyword-ok :
    (name default hint keyword k : Text)
    → check_keyword name default hint keyword ≡ ok k
    → IsUsable k
check_keyword-ok name default hint keyword k h =
    check_by-IsUsable name default hint keyword k (is_malformed keyword) (is_taken keyword) refl
      refl h

three :
    (a b c : Text)
    → (length (distinct (a ∷ b ∷ c ∷ [])) == 3) ≡ true
    → (text_eq a b ≡ false) × (text_eq b c ≡ false) × (text_eq a c ≡ false)
unfolding distinct text_mem
three a b c h = ground arith

then_try-ok :
    {A B : Type 0} (r : Result A) (f : A → Result B) (b : B)
    → (r then_try f) ≡ ok b
    → (a : A) × (r ≡ ok a) × (f a ≡ ok b)
then_try-ok (ok a) f b h = (a, refl, h)
then_try-ok (raised e) f b h = cc

keyword_from_env-ok :
    (env : Env) (name default hint k : Text)
    → keyword_from_env env name default hint ≡ ok k
    → IsUsable k
unfolding keyword_from_env
keyword_from_env-ok env name default hint k h =
    check_keyword-ok name default hint (strip (get_or (env name) default)) k h

-- What `check_pair` accepts it returns.
check_pair-ok :
    (failed unverified : Text) (pair : Text × Text)
    → check_pair failed unverified ≡ ok pair
    → (pair.0 ≡ failed) × (pair.1 ≡ unverified)
unfolding check_pair
check_pair-ok failed unverified pair h = ground arith

pair-ok :
    (env : Env) (pair : Text × Text)
    → quarantine_keywords_from_env env ≡ ok pair
    → IsUsable pair.0 × IsUsable pair.1
unfolding quarantine_keywords_from_env
pair-ok env pair h =
    let (failed, first, next) =
      then_try-ok (keyword_from_env env (text "FAILED_KEYWORD") default_failed quarantine_hint) _
        pair h in
    let (unverified, second, last) =
      then_try-ok
        (keyword_from_env env (text "UNVERIFIED_KEYWORD") default_unverified quarantine_hint) _ pair
        next in
    let same = check_pair-ok failed unverified pair last in
    let usable = keyword_from_env-ok env _ _ _ failed first in
    let usable_too = keyword_from_env-ok env _ _ _ unverified second in
    (same-IsUsable pair.0 failed same.0 usable, same-IsUsable pair.1 unverified same.1 usable_too)

-- The three names are returned when they differ.
check_three-ok :
    (inserted : Text) (pair : Text × Text) (k : Keywords)
    → check_three inserted pair ≡ ok k
    → (k.inserted ≡ inserted)
      × (k.failed ≡ pair.0)
      × (k.unverified ≡ pair.1)
      × ((length (distinct (lower inserted ∷ lower pair.0 ∷ lower pair.1 ∷ [])) == 3) ≡ true)
unfolding check_three
check_three-ok inserted (failed, unverified) k h = ground arith

-- When the settings are accepted, each of the three keywords is a text of ASCII characters, not
-- empty and without the nine special ones, that is none of the eighteen that mail clients set, up to
-- case; and no two of the three are equal up to case.
pub keywords_from_env-IsUsable :
    (env : Env) (k : Keywords)
    → keywords_from_env env ≡ ok k
    → (IsUsable k.inserted × IsUsable k.failed × IsUsable k.unverified)
      × (Differ k.inserted k.failed × Differ k.failed k.unverified × Differ k.inserted k.unverified)
unfolding keywords_from_env
keywords_from_env-IsUsable env k h =
    let (inserted, first, next) =
      then_try-ok (keyword_from_env env (text "INSERTED_KEYWORD") default_inserted inserted_hint) _
        k h in
    let (pair, second, last) = then_try-ok (quarantine_keywords_from_env env) _ k next in
    let same = check_three-ok inserted pair k last in
    let usable = keyword_from_env-ok env _ _ _ inserted first in
    let usable_too = pair-ok env pair second in
    let apart = three (lower inserted) (lower pair.0) (lower pair.1) same.3 in
    (
      (
        same-IsUsable k.inserted inserted same.0 usable,
        same-IsUsable k.failed pair.0 same.1 usable_too.0,
        same-IsUsable k.unverified pair.1 same.2 usable_too.1,
      ),
      (
        same-Differ k.inserted k.failed inserted pair.0 same.0 same.1 apart.0,
        same-Differ k.failed k.unverified pair.0 pair.1 same.1 same.2 apart.1,
        same-Differ k.inserted k.unverified inserted pair.1 same.0 same.2 apart.2,
      ),
    )
