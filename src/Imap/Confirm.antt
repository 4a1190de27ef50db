-- ===== src/Imap/Confirm.antt =====
-- `add_keyword` and `remove_keyword` succeed only on the server's word.
use mail_transporter.Base.{
  ℕ, true, false, ◌≡◌, ◌⊎◌, inl, inr, none, some, Option-cases, List, [], ◌∷◌, Text, text, Dict,
  lookup, Raised, Result, ok, raised, Result-cases, Bool-cases, is_ascii, arith,
}
use mail_transporter.Imap.Client.{ImapClient, Item, Box}
use mail_transporter.Imap.Queries.{flags_of}
use mail_transporter.Imap.Keywords.{carries, or_empty, add_keyword, remove_keyword}

module _ {W : Type 0} (imap : ImapClient W) (uid : ℕ) (keyword : Text) (b : Box W) where
  -- The server's reply to the STORE, or to a FETCH right after it.
  abbrev stored : Result (Dict (List Text)) × W
  stored = imap.add_flags (uid ∷ []) (keyword ∷ []) b.world

  abbrev shown : Result (Dict Item) × W
  shown = imap.fetch (uid ∷ []) (text "FLAGS" ∷ []) stored.1

  -- The session is open, and the reply to the STORE shows the keyword, or it does not and the
  -- flags that are fetched next show it.
  abbrev pub IsConfirmed : Type 0
  IsConfirmed =
      (b.is_open ≡ true)
      × ((reply : Dict (List Text)) × (stored.0 ≡ ok reply)
          × ((carries keyword (or_empty (lookup uid reply)) ≡ true)
              ⊎ ((carries keyword (or_empty (lookup uid reply)) ≡ false)
                  × ((found : Dict Item) × (shown.0 ≡ ok found)
                      × (carries keyword (flags_of (lookup uid found)) ≡ true)))))

  -- If `add_keyword` returns, then the session is open, and the server's reply to the STORE shows
  -- the keyword, or the flags that are fetched next show it.
  pub add_keyword-IsConfirmed : (add_keyword imap uid keyword b).0 ≡ ok tt → IsConfirmed
  unfolding add_keyword carries
  add_keyword-IsConfirmed h = elim (Result-cases stored.0) [
    | inl (reply, stores) ↦ elim (Bool-cases (carries keyword (or_empty (lookup uid reply)))) [
      | inl there ↦ (ground arith, (reply, stores, inl there))
      | inr absent ↦ elim (Result-cases shown.0) [
        | inl (found, shows) ↦
            (ground arith, (reply, stores, inr (absent, (found, shows, ground arith))))
        | inr (e, fails) ↦ absurd (ground arith)
      ]
    ]
    | inr (e, fails) ↦ absurd (ground arith)
  ]

  -- If the session is open, the keyword is ASCII, and the server shows it in its reply to the STORE
  -- or in the flags that are fetched next, then `add_keyword` returns.
  pub add_keyword-of_IsConfirmed :
      is_ascii keyword ≡ true → IsConfirmed → (add_keyword imap uid keyword b).0 ≡ ok tt
  unfolding add_keyword carries
  add_keyword-of_IsConfirmed ascii (opened, (reply, stores, inl there)) = ground arith
  add_keyword-of_IsConfirmed ascii (opened, (reply, stores, inr (absent, (found, shows, there)))) =
      ground arith

  -- The same for `STORE -FLAGS`.
  abbrev unstored : Result (Dict (List Text)) × W
  unstored = imap.remove_flags (uid ∷ []) (keyword ∷ []) b.world

  abbrev shown_after : Result (Dict Item) × W
  shown_after = imap.fetch (uid ∷ []) (text "FLAGS" ∷ []) unstored.1

  -- The reply to the STORE shows flags without the keyword, or the flags fetched next lack it.
  abbrev pub IsCleared : Type 0
  IsCleared =
      (b.is_open ≡ true)
      × ((reply : Dict (List Text)) × (unstored.0 ≡ ok reply)
          × (((flags : List Text) × (lookup uid reply ≡ some flags)
                × (carries keyword flags ≡ false))
              ⊎ ((found : Dict Item) × (shown_after.0 ≡ ok found)
                  × (carries keyword (flags_of (lookup uid found)) ≡ false))))

  -- The flags were asked for again, since the reply left them out or shows the keyword.
  cleared_by_fetch :
      (reply : Dict (List Text))
      → unstored.0 ≡ ok reply
      → (lookup uid reply ≡ none)
        ⊎ ((flags : List Text) × (lookup uid reply ≡ some flags) × (carries keyword flags ≡ true))
      → (remove_keyword imap uid keyword b).0 ≡ ok tt
      → (found : Dict Item) × (shown_after.0 ≡ ok found)
        × (carries keyword (flags_of (lookup uid found)) ≡ false)
  unfolding remove_keyword carries
  cleared_by_fetch reply stores why h = elim (Result-cases shown_after.0) [
    | inl (found, shows) ↦ (found, shows, ground arith)
    | inr (e, fails) ↦ absurd (ground arith)
  ]

  stored_away :
      (e : Raised) → unstored.0 ≡ raised e → (remove_keyword imap uid keyword b).0 ≡ ok tt → ⊥
  unfolding remove_keyword
  stored_away e fails h = ground arith

  cleared_open : (remove_keyword imap uid keyword b).0 ≡ ok tt → b.is_open ≡ true
  unfolding remove_keyword
  cleared_open h = ground arith

  -- If `remove_keyword` returns, then the session is open, and the server's reply to the STORE
  -- shows flags of the message without the keyword, or the flags that are fetched next lack it.
  pub remove_keyword-IsCleared : (remove_keyword imap uid keyword b).0 ≡ ok tt → IsCleared
  remove_keyword-IsCleared h = elim (Result-cases unstored.0) [
    | inr (e, fails) ↦ absurd (stored_away e fails h)
    | inl (reply, stores) ↦ elim (Option-cases (lookup uid reply)) [
      | inl missing ↦
          (cleared_open h, (reply, stores, inr (cleared_by_fetch reply stores (inl missing) h)))
      | inr (flags, found) ↦ elim (Bool-cases (carries keyword flags)) [
        | inl there ↦ (
          cleared_open h,
          (reply, stores, inr (cleared_by_fetch reply stores (inr (flags, found, there)) h)),
        )
        | inr absent ↦ (cleared_open h, (reply, stores, inl (flags, found, absent)))
      ]
    ]
  ]
