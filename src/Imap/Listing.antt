-- ===== src/Imap/Listing.antt =====
-- What `list_inbox_uids` and `search_keyword` return.
use mail_transporter.Base.{
  ℕ, ◌≤◌, Bool, true, false, not, ◌≡◌, refl, ap, ◌↔◌, ◌⊎◌, inl, inr, none, some, List, [], ◌∷◌,
  Text, Dict, In, All, sorted, insert_sorted, contains, lookup, insert, lookup-insert, ==_iff, ◌==◌,
  ◌||◌, Raised, ok, raised, if◌then◌else◌, arith,
}
use mail_transporter.Imap.Client.{ImapClient, Item, Box, Account, remote, matches}
use mail_transporter.Imap.Queries.{
  criteria, flags_of, flags_by_uid, inbox_round, inbox_flags, search_keyword, listed, list_by,
  uids_where,
}

-- A UID with flags that pass the test.
abbrev pub Passes : (List Text → Bool) → Dict (List Text) → ℕ → Type 0
Passes test d uid = (flags : List Text) × In (uid, flags) d × (test flags ≡ true)

module _ (test : List Text → Bool) where
  later-Passes :
      (e : ℕ × List Text) (d : Dict (List Text)) (uid : ℕ)
      → Passes test d uid
      → Passes test (e ∷ d) uid
  later-Passes e d uid (flags, i, t) = (flags, inr i, t)

  sound_step :
      (b : Bool) (j : ℕ) (flags : List Text) (d : Dict (List Text)) (uid : ℕ) (rest : List ℕ)
      → test flags ≡ b
      → (In uid rest → Passes test d uid)
      → In uid (if b then j ∷ rest else rest)
      → Passes test ((j, flags) ∷ d) uid
  sound_step true j flags d uid rest t ih (inl e) = (flags, inl (ap (λ (u : ℕ). (u, flags)) e), t)
  sound_step true j flags d uid rest t ih (inr k) = later-Passes (j, flags) d uid (ih k)
  sound_step false j flags d uid rest t ih k = later-Passes (j, flags) d uid (ih k)

  uids_where_sound :
      (d : Dict (List Text)) (uid : ℕ) → In uid (uids_where test d) → Passes test d uid
  unfolding uids_where
  uids_where_sound [] uid h = absurd h
  uids_where_sound ((j, flags) ∷ d) uid h =
      sound_step (test flags) j flags d uid (uids_where test d) refl (uids_where_sound d uid) h

  complete_step :
      (b : Bool) (j uid : ℕ) (rest : List ℕ)
      → (b ≡ true) × (uid ≡ j) ⊎ In uid rest
      → In uid (if b then j ∷ rest else rest)
  complete_step true j uid rest (inl h) = inl h.1
  complete_step true j uid rest (inr k) = inr k
  complete_step false j uid rest (inl h) = cc
  complete_step false j uid rest (inr k) = k

  uids_where_complete :
      (d : Dict (List Text)) (uid : ℕ) (flags : List Text)
      → In (uid, flags) d
      → test flags ≡ true
      → In uid (uids_where test d)
  unfolding uids_where
  uids_where_complete [] uid flags h t = absurd h
  uids_where_complete ((j, g) ∷ d) uid flags (inl e) t =
      complete_step (test g) j uid (uids_where test d)
        (inl (rw (← ap (λ (p : ℕ × List Text). p.1) e) t, ap (λ (p : ℕ × List Text). p.0) e))
  uids_where_complete ((j, g) ∷ d) uid flags (inr i) t =
      complete_step (test g) j uid (uids_where test d) (inr (uids_where_complete d uid flags i t))

  uids_where_iff : (d : Dict (List Text)) (uid : ℕ) → In uid (uids_where test d) ↔ Passes test d uid
  uids_where_iff d uid =
      (uids_where_sound d uid, λ (flags, i, t). uids_where_complete d uid flags i t)

-- Ascending order.
abbrev pub IsSorted : List ℕ → Type 0
IsSorted [] = Unit
IsSorted (x ∷ xs) = All (λ y. x ≤ y) xs × IsSorted xs

insert_sorted-All :
    (x a : ℕ) (xs : List ℕ) → x ≤ a → All (λ y. x ≤ y) xs → All (λ y. x ≤ y) (insert_sorted a xs)
insert_sorted-All x a [] h k = (h, tt)
insert_sorted-All x a (y ∷ ys) h k = ground (arith, insert_sorted-All x a ys h k.1)

All-le_trans : (x a : ℕ) (xs : List ℕ) → a ≤ x → All (λ y. x ≤ y) xs → All (λ y. a ≤ y) xs
All-le_trans x a [] h k = tt
All-le_trans x a (y ∷ ys) h k = (omega arith, All-le_trans x a ys h k.1)

insert_sorted-IsSorted : (a : ℕ) (xs : List ℕ) → IsSorted xs → IsSorted (insert_sorted a xs)
insert_sorted-IsSorted a [] h = (tt, tt)
insert_sorted-IsSorted a (x ∷ xs) h =
    ground (arith, insert_sorted-IsSorted a xs h.1, insert_sorted-All x a xs, All-le_trans x a xs)

pub sorted-IsSorted : (xs : List ℕ) → IsSorted (sorted xs)
unfolding sorted
sorted-IsSorted [] = tt
sorted-IsSorted (x ∷ xs) = insert_sorted-IsSorted x (sorted xs) (sorted-IsSorted xs)

In-insert_sorted : (u a : ℕ) (xs : List ℕ) → In u (insert_sorted a xs) ↔ In u (a ∷ xs)
In-insert_sorted u a [] = (λ h. h, λ h. h)
In-insert_sorted u a (x ∷ xs) = ground (arith, In-insert_sorted u a xs)

In-sorted : (u : ℕ) (xs : List ℕ) → In u (sorted xs) ↔ In u xs
unfolding sorted
In-sorted u [] = (λ h. h, λ h. h)
In-sorted u (x ∷ xs) = ground (arith, In-insert_sorted u x (sorted xs), In-sorted u xs)

lookup-flags_by_uid :
    (fetched : Dict Item) (uids : List ℕ) (d : Dict (List Text)) (u : ℕ)
    → lookup u (flags_by_uid fetched uids d)
      ≡ (if contains u uids then some (flags_of (lookup u fetched)) else lookup u d)
unfolding flags_by_uid
lookup-flags_by_uid fetched [] d u = refl
lookup-flags_by_uid fetched (uid ∷ uids) d u =
    rw (lookup-flags_by_uid fetched uids (insert uid (flags_of (lookup uid fetched)) d) u)
      (flag_step (contains u uids) (uid == u) refl)
  where
    flag_step :
        (later here : Bool)
        → (uid == u) ≡ here
        → (if later
            then some (flags_of (lookup u fetched))
            else lookup u (insert uid (flags_of (lookup uid fetched)) d))
          ≡ (if here || later then some (flags_of (lookup u fetched)) else lookup u d)
    flag_step true true e = refl
    flag_step true false e = refl
    flag_step false true e =
        rw (lookup-insert u uid (flags_of (lookup uid fetched)) d)
          (rw e (ap (λ (n : ℕ). some (flags_of (lookup n fetched))) ((==_iff uid u).0 e)))
    flag_step false false e = rw (lookup-insert u uid (flags_of (lookup uid fetched)) d) (rw e refl)

module _ {W : Type 0} (imap : ImapClient W) (account : Account) (b : Box W) where
  -- If the server answers the search with the exclusions, then the listing returns exactly the UIDs
  -- of its answer, in ascending order.
  pub list_by-searched :
      (keywords : List Text) (found : List ℕ)
      → (remote (imap.search (criteria keywords)) b).0 ≡ ok found
      → (uids : List ℕ) × ((list_by imap account keywords b).0 ≡ ok uids)
        × IsSorted uids
        × ((u : ℕ) → In u uids ↔ In u found)
  unfolding list_by listed
  list_by-searched keywords found answered =
      (sorted found, rw answered refl, sorted-IsSorted found, λ u. In-sorted u found)

  -- If the search with at least one excluded keyword raises, and the flags of the INBOX can be read
  -- after it, then the listing returns a UID exactly if some flags read for it carry none of the
  -- keywords.
  pub list_by-filtered :
      (k : Text) (keywords : List Text) (e : Raised) (d : Dict (List Text))
      → (remote (imap.search (criteria (k ∷ keywords))) b).0 ≡ raised e
      → (inbox_flags imap account (remote (imap.search (criteria (k ∷ keywords))) b).1).0 ≡ ok d
      → (uids : List ℕ) × ((list_by imap account (k ∷ keywords) b).0 ≡ ok uids)
        × ((u : ℕ) → In u uids ↔ Passes (λ flags. not (matches flags (k ∷ keywords))) d u)
  unfolding list_by listed
  list_by-filtered k keywords e d refused plain = (
    uids_where (λ flags. not (matches flags (k ∷ keywords))) d,
    rw (refused, plain) refl,
    uids_where_iff _ d,
  )

  -- If the flags of the INBOX can be read, then `search_keyword` returns a UID exactly if some
  -- flags read for it carry the keyword.
  search_keyword_iff :
      (keyword : Text) (d : Dict (List Text))
      → (inbox_flags imap account b).0 ≡ ok d
      → (uids : List ℕ) × ((search_keyword imap account keyword b).0 ≡ ok uids)
        × ((u : ℕ) → In u uids ↔ Passes (λ flags. matches flags (keyword ∷ [])) d u)
  unfolding search_keyword
  search_keyword_iff keyword d plain =
      (uids_where (λ flags. matches flags (keyword ∷ [])) d, rw plain refl, uids_where_iff _ d)

  -- If the plain search and the fetch of the flags succeed, then `inbox_flags` holds each UID that
  -- was found with the flags fetched for it, if any, and no other UID.
  inbox_flags-lookup :
      (found : List ℕ) (fetched : Dict Item)
      → (inbox_round imap account b).0 ≡ ok (found, fetched)
      → (d : Dict (List Text)) × ((inbox_flags imap account b).0 ≡ ok d)
        × ((u : ℕ)
            → lookup u d ≡ (if contains u found then some (flags_of (lookup u fetched)) else none))
  unfolding inbox_flags
  inbox_flags-lookup found fetched answered =
      (flags_by_uid fetched found [], rw answered refl, λ u. lookup-flags_by_uid fetched found [] u)
