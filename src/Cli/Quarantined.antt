-- ===== src/Cli/Quarantined.antt =====
-- mailtransporter/cli.py: which messages `_collect` lists.
use mail_transporter.Base.{
  ℕ, ◌≡◌, refl, ap, ◌∙◌, ◌↔◌, inl, inr, none, List, [], ◌∷◌, map, Text, Dict, In, sorted,
  insert_sorted, lookup, ok, arith,
}
use mail_transporter.Imap.Client.{ImapClient, Box, Account}
use mail_transporter.Imap.Queries.{inbox_flags}
use mail_transporter.Imap.Headers.{EmailPackage, Headers, fetch_headers}
use mail_transporter.Imap.Listing.{IsSorted, sorted-IsSorted}
use mail_transporter.Config.Keywords.{Keywords}
use mail_transporter.Cli.Entries.{
  Entry, entries_of, uid_of, with_headers, place, sorted_by_uid, completed, collect,
}
use mail_transporter.Cli.Described.{Describes, Entry-ext, In-entries_of}

In-place : (e a : Entry) (es : List Entry) → In e (place a es) ↔ In e (a ∷ es)
unfolding place
In-place e a [] = (λ h. h, λ h. h)
In-place e a (x ∷ es) = ground (arith, In-place e a es)

In-sorted_by_uid : (e : Entry) (es : List Entry) → In e (sorted_by_uid es) ↔ In e es
unfolding sorted_by_uid
In-sorted_by_uid e [] = (λ h. h, λ h. h)
In-sorted_by_uid e (x ∷ es) = ground (arith, In-place e x (sorted_by_uid es), In-sorted_by_uid e es)

uids-place :
    (a : Entry) (es : List Entry) → map uid_of (place a es) ≡ insert_sorted a.uid (map uid_of es)
unfolding place
uids-place a [] = refl
uids-place a (x ∷ es) = ground (arith, uids-place a es)

uids-sorted_by_uid : (es : List Entry) → map uid_of (sorted_by_uid es) ≡ sorted (map uid_of es)
unfolding sorted_by_uid sorted
uids-sorted_by_uid [] = refl
uids-sorted_by_uid (x ∷ es) =
    uids-place x (sorted_by_uid es) ∙ ap (insert_sorted x.uid) (uids-sorted_by_uid es)

In-with_headers :
    (headers : Dict Headers) (e : Entry) (es : List Entry)
    → In e (map (with_headers headers) es) ↔ ((a : Entry) × In a es × (e ≡ with_headers headers a))
In-with_headers headers e [] = (λ h. absurd h, λ (a, i, p). i)
In-with_headers headers e (x ∷ es) = (
  λ h. elim h [ inl p ↦ (x, inl refl, p) | inr i ↦ later ((In-with_headers headers e es).0 i) ],
  λ (a, i, p). elim i [
    | inl q ↦ inl (p ∙ ap (with_headers headers) q)
    | inr j ↦ inr ((In-with_headers headers e es).1 (a, j, p))
  ],
)
  where
    later :
        (a : Entry) × In a es × (e ≡ with_headers headers a)
        → (a : Entry) × In a (x ∷ es) × (e ≡ with_headers headers a)
    later (a, i, p) = (a, inr i, p)

-- A message of the INBOX that one of the two keywords sets aside, with what is told about it.
abbrev pub IsQuarantined : Keywords → Dict (List Text) → Dict Headers → Entry → Type 0
IsQuarantined keywords d headers e =
    (flags : List Text) × In (e.uid, flags) d
    × Describes keywords e.uid flags (lookup e.uid headers) e

at_uid :
    (d : Dict (List Text)) (u v : ℕ) (flags : List Text) → u ≡ v → In (v, flags) d → In (u, flags) d
at_uid d u v flags e i = rw e i

IsQuarantined-iff :
    (keywords : Keywords) (d : Dict (List Text)) (headers : Dict Headers) (e : Entry)
    → ((a : Entry) × In a (entries_of keywords d) × (e ≡ with_headers headers a))
      ↔ IsQuarantined keywords d headers e
IsQuarantined-iff keywords d headers e = (found, listed)
  where
    found :
        (a : Entry) × In a (entries_of keywords d) × (e ≡ with_headers headers a)
        → IsQuarantined keywords d headers e
    found (a, i, p) =
        let (uid, flags, j, told) = (In-entries_of keywords d a).0 i in
        let (same_uid, aside, g, h) = told in
        rw p (flags, at_uid d a.uid uid flags same_uid j, (refl, aside, g, refl))

    listed :
        IsQuarantined keywords d headers e
        → (a : Entry) × In a (entries_of keywords d) × (e ≡ with_headers headers a)
    listed (flags, j, told) =
        let (same_uid, aside, g, h) = told in
        (
          record e { headers = none },
          (In-entries_of keywords d (record e { headers = none })).1
              (e.uid, flags, j, (refl, aside, g, refl)),
          Entry-ext e (with_headers headers (record e { headers = none })) refl refl refl h,
        )

module _ {W : Type 0} (email : EmailPackage) (imap : ImapClient W) (account : Account)
    (b : Box W) where
  -- If the flags of the INBOX and the headers of the messages set aside can be read, then `_collect`
  -- returns, in ascending order of the UIDs, exactly one kind of entries: those of the messages
  -- whose flags carry the keyword of the failed messages or, failing that, that of the unverified
  -- ones. An entry names that keyword, holds the headers read for its UID, and says that Gmail has
  -- the message exactly if its keyword is that of the unverified messages or the flags carry the
  -- inserted keyword.
  pub collect-IsQuarantined :
      (keywords : Keywords) (d : Dict (List Text)) (headers : Dict Headers)
      → (inbox_flags imap account b).0 ≡ ok d
      → (fetch_headers email imap account
          (map uid_of (entries_of keywords d))
          (inbox_flags imap account b).1).0
        ≡ ok headers
      → (entries : List Entry) × ((collect email imap account keywords b).0 ≡ ok entries)
        × IsSorted (map uid_of entries)
        × ((e : Entry) → In e entries ↔ IsQuarantined keywords d headers e)
  unfolding collect completed
  collect-IsQuarantined keywords d headers read parsed =
      let rows = map (with_headers headers) (entries_of keywords d) in
      (
        sorted_by_uid rows,
        rw (read, parsed) refl,
        rw (uids-sorted_by_uid rows) (sorted-IsSorted (map uid_of rows)),
        λ e. (
          λ h. (IsQuarantined-iff keywords d headers e).0 (
              (In-with_headers headers e (entries_of keywords d)).0
                ((In-sorted_by_uid e rows).0 h)),
          λ q. (In-sorted_by_uid e rows).1 (
              (In-with_headers headers e (entries_of keywords d)).1
                ((IsQuarantined-iff keywords d headers e).1 q)),
        ),
      )
