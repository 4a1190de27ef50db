-- ===== src/Secrets/Sealed.antt =====
-- No registered secret survives `redact`.
use mail_transporter.Base.{
  ℕ, zero, suc, ◌-◌, ◌≡◌, refl, inl, inr, Bool, true, false, not, List, [], ◌∷◌, ◌++◌, Text,
  starts_with, occurs, length, take, In, any, ◌==◌, Bool-cases, arith,
}
use mail_transporter.Secrets.Redaction.{
  mask, replace_from, replace, insert_longest, longest_first, replace_all, redact,
}

-- Without the character of the mask.
abbrev pub is_starless : Text → Bool
is_starless s = not (any (λ c. c == 42) s)

-- A secret that the registry can hold: at least one character, and no asterisk.
abbrev pub IsPlain : Text → Type 0
IsPlain [] = ⊥
IsPlain (c ∷ s) = is_starless (c ∷ s) ≡ true

-- A starless prefix of the output stands in the input.
prefix-replace :
    (value w s : Text)
    → is_starless w ≡ true
    → starts_with w (replace_from value zero s) ≡ true
    → starts_with w s ≡ true
unfolding starts_with replace_from
prefix-replace value [] s p h = refl
prefix-replace value (a ∷ w) [] p h = h
prefix-replace value (a ∷ w) (c ∷ s) p h = ground (arith, prefix-replace value w s)

starts-mask : (w s : Text) → IsPlain w → starts_with w (42 ∷ s) ≡ false
unfolding starts_with
starts-mask [] s p = absurd p
starts-mask (a ∷ w) s p = ground arith

plain_starless : (w : Text) → IsPlain w → is_starless w ≡ true
plain_starless [] p = absurd p
plain_starless (a ∷ w) p = p

occurs-mask : (w s : Text) → IsPlain w → occurs w (mask ++ s) ≡ occurs w s
unfolding occurs
occurs-mask w s p =
    rw (starts-mask w (42 ∷ 42 ∷ s) p, starts-mask w (42 ∷ s) p, starts-mask w s p) refl

-- Replacing a value brings in no plain text that was not there.
occurs-replace :
    (value w s : Text) (skip : ℕ)
    → IsPlain w
    → occurs w (replace_from value skip s) ≡ true
    → occurs w s ≡ true
unfolding replace_from occurs
occurs-replace value w [] skip p h = h
occurs-replace value w (c ∷ s) (suc skip) p h = ground (arith, occurs-replace value w s skip p h)
occurs-replace value w (c ∷ s) zero p h = elim (Bool-cases (starts_with value (c ∷ s))) [
  | inl here ↦
      let masked = occurs-mask w (replace_from value (length value - 1) s) p in
      ground (arith, masked, occurs-replace value w s (length value - 1) p)
  | inr away ↦
      ground (
        arith,
        prefix-replace value w (c ∷ s) (plain_starless w p),
        occurs-replace value w s zero p,
      )
]

-- A plain value does not occur once it has been replaced.
replace-removes :
    (value s : Text) (skip : ℕ) → IsPlain value → occurs value (replace_from value skip s) ≡ false
unfolding replace_from occurs
replace-removes [] [] skip p = absurd p
replace-removes (v ∷ value) [] skip p = unfold starts_with in refl
replace-removes value (c ∷ s) (suc skip) p = replace-removes value s skip p
replace-removes value (c ∷ s) zero p = elim (Bool-cases (starts_with value (c ∷ s))) [
  | inl here ↦
      let masked = occurs-mask value (replace_from value (length value - 1) s) p in
      ground (arith, masked, replace-removes value s (length value - 1) p)
  | inr away ↦ ground (
    arith,
    prefix-replace value value (c ∷ s) (plain_starless value p),
    replace-removes value s zero p,
  )
]

occurs-replace_all :
    (values : List Text) (w s : Text)
    → IsPlain w
    → occurs w (replace_all values s) ≡ true
    → occurs w s ≡ true
unfolding replace_all
occurs-replace_all [] w s p h = h
occurs-replace_all (value ∷ values) w s p h =
    occurs-replace value w s zero p (occurs-replace_all values w (replace value s) p h)

replace_all-removes :
    (values : List Text) (w s : Text)
    → IsPlain w
    → In w values
    → occurs w (replace_all values s) ≡ true
    → ⊥
unfolding replace_all
replace_all-removes [] w s p i h = i
replace_all-removes (value ∷ values) w s p (inl e) h =
    let survived = occurs-replace_all values w (replace value s) p h in
    let gone : occurs w (replace value s) ≡ false = rw (← e) (replace-removes w s zero p) in cc
replace_all-removes (value ∷ values) w s p (inr i) h =
    replace_all-removes values w (replace value s) p i h

In-insert_longest :
    (w value : Text) (values : List Text)
    → In w (value ∷ values)
    → In w (insert_longest value values)
unfolding insert_longest
In-insert_longest w value [] h = h
In-insert_longest w value (v ∷ values) h = ground (arith, In-insert_longest w value values)

In-longest_first : (w : Text) (values : List Text) → In w values → In w (longest_first values)
unfolding longest_first
In-longest_first w [] h = h
In-longest_first w (value ∷ values) (inl e) =
    In-insert_longest w value (longest_first values) (inl e)
In-longest_first w (value ∷ values) (inr i) =
    In-insert_longest w value (longest_first values) (inr (In-longest_first w values i))

starts-take : (w s : Text) (n : ℕ) → starts_with w (take n s) ≡ true → starts_with w s ≡ true
unfolding starts_with
starts-take [] s n h = refl
starts-take (a ∷ w) [] zero h = h
starts-take (a ∷ w) [] (suc n) h = h
starts-take (a ∷ w) (c ∷ s) zero h = cc
starts-take (a ∷ w) (c ∷ s) (suc n) h = ground (arith, starts-take w s n)

occurs-take : (w s : Text) (n : ℕ) → IsPlain w → occurs w (take n s) ≡ true → occurs w s ≡ true
unfolding occurs
occurs-take w [] zero p h = h
occurs-take w [] (suc n) p h = h
occurs-take [] (c ∷ s) zero p h = absurd p
occurs-take (a ∷ w) (c ∷ s) zero p h = unfold starts_with in cc
occurs-take w (c ∷ s) (suc n) p h =
    ground (arith, starts-take w (c ∷ s) (suc n), occurs-take w s n p)

-- A registered secret that is not empty and holds no asterisk does not occur in the redacted text,
-- nor in any beginning of it.
pub redact-seals :
    (values : List Text) (w s : Text) (n : ℕ)
    → IsPlain w
    → In w values
    → (occurs w (redact values s) ≡ false) × (occurs w (take n (redact values s)) ≡ false)
unfolding redact
redact-seals values w s n p i =
    let whole = sealed (occurs w (redact values s)) refl in
    (whole, sealed_part (occurs w (take n (redact values s))) refl)
  where
    sealed : (b : Bool) → occurs w (redact values s) ≡ b → b ≡ false
    sealed true e =
        absurd (replace_all-removes (longest_first values) w s p (In-longest_first w values i) e)
    sealed false e = refl

    sealed_part : (b : Bool) → occurs w (take n (redact values s)) ≡ b → b ≡ false
    sealed_part true e = absurd (
        replace_all-removes (longest_first values) w s p (In-longest_first w values i)
          (occurs-take w (redact values s) n p e))
    sealed_part false e = refl
