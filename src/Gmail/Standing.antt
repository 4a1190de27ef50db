-- ===== src/Gmail/Standing.antt =====
-- gmail_client.py: what the cache of label ids knows about the labels of the mailbox.
use mail_transporter.Base.{
  Bool, true, false, ◌++◌, ◌≡◌, refl, sym, ap, ◌∙◌, Option, none, some, List, [], ◌∷◌, Text,
  text_eq, text_eq→eq, first, All, All-imp, arith, if◌then◌else◌,
}
use mail_transporter.Gmail.Api.{Label}
use mail_transporter.Gmail.Client.{same_name, cached}

-- The label that a name stands for.
abbrev pub label_of : Text → List Label → Option Label
label_of name labels = first (same_name name) labels

-- Every name in the cache stands for the label of the cached id.
abbrev pub Stands : List Label → Text × Text → Type 0
Stands labels (name, id) = (label : Label) × (label_of name labels ≡ some label) × (label.id ≡ id)

abbrev pub Knows : List (Text × Text) → List Label → Type 0
Knows cache labels = All (Stands labels) cache

first-append :
    (p : Label → Bool) (xs ys : List Label) (x : Label)
    → first p xs ≡ some x
    → first p (xs ++ ys) ≡ some x
first-append p [] ys x h = cc
first-append p (a ∷ xs) ys x h = by_test (p a) h (first-append p xs ys x)
  where
    by_test :
        (b : Bool)
        → (if b then some a else first p xs) ≡ some x
        → (first p xs ≡ some x → first p (xs ++ ys) ≡ some x)
        → (if b then some a else first p (xs ++ ys)) ≡ some x
    by_test true e k = e
    by_test false e k = k e

pub first-created :
    (p : Label → Bool) (xs : List Label) (x : Label)
    → first p xs ≡ none
    → p x ≡ true
    → first p (xs ++ (x ∷ [])) ≡ some x
first-created p [] x h t = rw t refl
first-created p (a ∷ xs) x h t = by_test (p a) h (λ e. first-created p xs x e t)
  where
    by_test :
        (b : Bool)
        → (if b then some a else first p xs) ≡ none
        → (first p xs ≡ none → first p (xs ++ (x ∷ [])) ≡ some x)
        → (if b then some a else first p (xs ++ (x ∷ []))) ≡ some x
    by_test true e k = cc
    by_test false e k = k e

Stands-append :
    (xs ys : List Label) (entry : Text × Text) → Stands xs entry → Stands (xs ++ ys) entry
Stands-append xs ys (name, id) (label, there, same) =
    (label, first-append (same_name name) xs ys label there, same)

pub Knows-append :
    (cache : List (Text × Text)) (xs ys : List Label) → Knows cache xs → Knows cache (xs ++ ys)
Knows-append cache xs ys knows =
    All-imp (Stands xs) (Stands (xs ++ ys)) cache (Stands-append xs ys) knows

pub cached-Stands :
    (cache : List (Text × Text)) (labels : List Label) (name id : Text)
    → Knows cache labels
    → cached name cache ≡ some id
    → Stands labels (name, id)
unfolding cached
cached-Stands [] labels name id knows e = cc
cached-Stands ((key, i) ∷ cache) labels name id knows e =
    by_test (text_eq key name) refl e (cached-Stands cache labels name id knows.1)
  where
    same_id : (label : Label) → label.id ≡ i → some i ≡ some id → label.id ≡ id
    same_id label p q = let r : i ≡ id = ground arith in p ∙ r

    by_test :
        (b : Bool)
        → text_eq key name ≡ b
        → (if b then some i else cached name cache) ≡ some id
        → (cached name cache ≡ some id → Stands labels (name, id))
        → Stands labels (name, id)
    by_test true same h rest =
        let (label, there, its) = knows.0 in
        (
          label,
          ap (λ (n : Text). label_of n labels) (sym (text_eq→eq key name same)) ∙ there,
          same_id label its h,
        )
    by_test false same h rest = rest h
