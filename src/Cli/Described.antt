-- ===== src/Cli/Described.antt =====
-- mailtransporter/cli.py: what the entry says that `_collect` makes of a message.
use mail_transporter.Base.{
  ℕ, Bool, true, false, ◌||◌, ◌≡◌, refl, sym, ap, ◌↔◌, ◌⊎◌, inl, inr, Option, none, some, List, [],
  ◌∷◌, Text, text_eq, Dict, In, if◌then◌else◌, arith,
}
use mail_transporter.Imap.Keywords.{carries}
use mail_transporter.Imap.Headers.{Headers}
use mail_transporter.Config.Keywords.{Keywords}
use mail_transporter.Cli.Entries.{
  Entry, quarantine_keyword, is_in_gmail, entry_of, push, entries_of,
}

pub Entry-ext :
    (e f : Entry)
    → e.uid ≡ f.uid
    → e.keyword ≡ f.keyword
    → e.in_gmail ≡ f.in_gmail
    → e.headers ≡ f.headers
    → e ≡ f
Entry-ext e f p q r s = λ i. record { uid = p i; keyword = q i; in_gmail = r i; headers = s i }

-- The keyword that sets a message with these flags aside. That of the failed messages goes first.
abbrev pub IsSetAside : Keywords → List Text → Text → Type 0
IsSetAside keywords flags k =
    (carries keywords.failed flags ≡ true) × (k ≡ keywords.failed)
    ⊎ (carries keywords.failed flags ≡ false)
      × (carries keywords.unverified flags ≡ true)
      × (k ≡ keywords.unverified)

-- What an entry says of a message with these flags.
abbrev pub Describes : Keywords → ℕ → List Text → Option Headers → Entry → Type 0
Describes keywords uid flags headers e =
    (e.uid ≡ uid)
    × IsSetAside keywords flags e.keyword
    × (e.in_gmail ≡ (text_eq e.keyword keywords.unverified || carries keywords.inserted flags))
    × (e.headers ≡ headers)

module _ (keywords : Keywords) where
  module _ (uid : ℕ) (flags : List Text) where
    abbrev built : Text → Entry
    built k = record {
      uid = uid;
      keyword = k;
      in_gmail = text_eq k keywords.unverified || carries keywords.inserted flags;
      headers = none;
    }

    built-Describes :
        (k : Text) (e : Entry)
        → IsSetAside keywords flags k
        → some (built k) ≡ some e
        → Describes keywords uid flags none e
    built-Describes k e aside h =
        let same : built k ≡ e = ground arith in rw (← same) (refl, aside, refl, refl)

    -- The two keywords are tried one after the other.
    chosen-Describes :
        (is_failed is_unverified : Bool) (e : Entry)
        → carries keywords.failed flags ≡ is_failed
        → carries keywords.unverified flags ≡ is_unverified
        → entry_of keywords uid flags (
            if is_failed
            then some keywords.failed
            else if is_unverified
            then some keywords.unverified
            else none)
          ≡ some e
        → Describes keywords uid flags none e
    unfolding entry_of is_in_gmail carries
    chosen-Describes true u e p q h = built-Describes keywords.failed e (inl (p, refl)) h
    chosen-Describes false true e p q h = built-Describes keywords.unverified e (inr (p, q, refl)) h
    chosen-Describes false false e p q h = cc

    described_by :
        (e : Entry)
        → Describes keywords uid flags none e
        → entry_of keywords uid flags (quarantine_keyword keywords flags) ≡ some e
    unfolding entry_of is_in_gmail carries quarantine_keyword
    described_by e (same_uid, inl (p, k), g, h) = rw p (
        ap some
          (Entry-ext (built keywords.failed) e (sym same_uid) (sym k) (rw (g, k) refl) (sym h)))
    described_by e (same_uid, inr (p, q, k), g, h) =
        rw (p, q)
          (ap some (
            Entry-ext (built keywords.unverified) e (sym same_uid) (sym k) (rw (g, k) refl)
              (sym h)))

    entry_of_iff :
        (e : Entry)
        → (entry_of keywords uid flags (quarantine_keyword keywords flags) ≡ some e)
          ↔ Describes keywords uid flags none e
    unfolding quarantine_keyword carries
    entry_of_iff e = (chosen-Describes _ _ e refl refl, described_by e)

  In-push :
      (o : Option Entry) (e : Entry) (es : List Entry) → In e (push o es) ↔ ((o ≡ some e) ⊎ In e es)
  In-push none e es = (inr, λ h. elim h [ inl p ↦ cc | inr i ↦ i ])
  In-push (some a) e es = (
    λ h. elim h [ inl p ↦ inl (ap some (sym p)) | inr i ↦ inr i ],
    λ h. elim h [ inl p ↦ inl (ground arith) | inr i ↦ inr i ],
  )

  abbrev pub Listed : Dict (List Text) → Entry → Type 0
  Listed d e =
      (uid : ℕ) × (flags : List Text) × In (uid, flags) d × Describes keywords uid flags none e

  pub In-entries_of : (d : Dict (List Text)) (e : Entry) → In e (entries_of keywords d) ↔ Listed d e
  unfolding entries_of
  In-entries_of [] e = (λ h. absurd h, λ (uid, flags, i, p). i)
  In-entries_of ((uid, flags) ∷ d) e =
      let here = entry_of keywords uid flags (quarantine_keyword keywords flags) in
      let split = In-push here e (entries_of keywords d) in
      let rest = In-entries_of d e in
      (
        λ h. elim (split.0 h) [
          | inl p ↦ (uid, flags, inl refl, (entry_of_iff uid flags e).0 p)
          | inr i ↦ later (rest.0 i)
        ],
        λ (u, f, i, p). split.1 (elim i [
          | inl q ↦ inl (
              rw (← ap (λ (x : ℕ × List Text). x.0) q, ← ap (λ (x : ℕ × List Text). x.1) q)
                ((entry_of_iff u f e).1 p))
          | inr j ↦ inr (rest.1 (u, f, j, p))
        ]),
      )
    where
      later : Listed d e → Listed ((uid, flags) ∷ d) e
      later (u, f, i, p) = (u, f, inr i, p)
