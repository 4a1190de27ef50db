-- ===== src/Imap/Queue.antt =====
-- The forwarding queue: the messages of the INBOX that the listing of imap_client.py returns, over a
-- server that keeps the flags of each message. What `add_keyword`, `remove_keyword` and the listing
-- do is described by their effect on the queue alone.
pub mod Adding
pub mod Removing
pub mod Listing
pub mod Marked
pub mod Requeued
use mail_transporter.Base.{
  ℕ, Bool, true, false, not, ◌&&◌, ◌||◌, ◌≡◌, ◌≢◌, ◌↔◌, ◌⊎◌, Option, none, some, List, [], ◌∷◌,
  Text, text, text_eq, lower, In, Dict, lookup, Result, ok, if◌then◌else◌,
}
use mail_transporter.Imap.Client.{ImapClient, Item, Box, matches}
use mail_transporter.Imap.Keywords.{carries}

unfoldable pub deleted_flag : Text
unfolding text
deleted_flag = text "\\Deleted"

-- The flags of the messages in the INBOX.
abbrev pub Flags : Type 0
Flags = ℕ → Option (List Text)

-- A message in the queue: it is there, not deleted, and carries none of the keywords.
abbrev pub Queued : List Text → Flags → ℕ → Type 0
Queued keywords flags u =
    (fs : List Text) × (flags u ≡ some fs)
    × (carries deleted_flag fs ≡ false)
    × (matches fs keywords ≡ false)

-- `STORE +FLAGS` for one message and one keyword: the message has the keyword besides the flags it
-- had, the others keep theirs, and the reply shows the new flags of the message if it shows any.
abbrev pub Added : ℕ → Text → Flags → List Text → Result (Dict (List Text)) → Flags → Type 0
Added u k before fs outcome after =
    (reply : Dict (List Text)) × (outcome ≡ ok reply)
    × ((gs : List Text) × (after u ≡ some gs)
        × ((lookup u reply ≡ none) ⊎ (lookup u reply ≡ some gs))
        × ((t : Text) → carries t gs ≡ (carries t fs || text_eq (lower t) (lower k))))
    × ((v : ℕ) → v ≢ u → after v ≡ before v)

-- `STORE -FLAGS`
abbrev pub Removed : ℕ → Text → Flags → List Text → Result (Dict (List Text)) → Flags → Type 0
Removed u k before fs outcome after =
    (reply : Dict (List Text)) × (outcome ≡ ok reply)
    × ((gs : List Text) × (after u ≡ some gs)
        × ((lookup u reply ≡ none) ⊎ (lookup u reply ≡ some gs))
        × ((t : Text) → carries t gs ≡ (carries t fs && not (text_eq (lower t) (lower k)))))
    × ((v : ℕ) → v ≢ u → after v ≡ before v)

-- What is read next of the criteria of a SEARCH: a search key, or the flag that KEYWORD or
-- UNKEYWORD names. The Boolean says whether it stands under an odd number of NOTs.
pub data Expected : Type 0 where
  key a_flag : Bool → Expected

abbrev pub also : Bool → Option Bool → Option Bool
also b none = none
also b (some c) = some (b && c)

abbrev pub negate_if : Bool → Bool → Bool
negate_if true b = not b
negate_if false b = b

-- RFC 3501, 6.4.4: whether the criteria select a message with these flags, of the search keys that
-- are about flags: all the keys have to match.
unfoldable pub selects : Expected → List Text → List Text → Option Bool
unfolding text text_eq
selects (key negated) [] fs = if negated then none else some true
selects (a_flag negated) [] fs = none
selects (a_flag negated) (k ∷ rest) fs =
    also (negate_if negated (carries k fs)) (selects (key false) rest fs)
selects (key negated) (word ∷ rest) fs =
    let under_not = selects (key (not negated)) rest fs in
    let with_flag = selects (a_flag negated) rest fs in
    let without_flag = selects (a_flag (not negated)) rest fs in
    let others = selects (key false) rest fs in
    if text_eq word (text "NOT")
    then under_not
    else if text_eq word (text "KEYWORD")
    then with_flag
    else if text_eq word (text "UNKEYWORD")
    then without_flag
    else if text_eq word (text "DELETED")
    then also (negate_if negated (carries deleted_flag fs)) others
    else if text_eq word (text "UNDELETED")
    then also (negate_if (not negated) (carries deleted_flag fs)) others
    else if text_eq word (text "ALL")
    then also (negate_if negated true) others
    else none

-- A server that answers as RFC 3501 describes it, as far as the flags go: it finds the messages that
-- the criteria of a SEARCH select.
pub record IsFlagStore {W : Type 0} (imap : ImapClient W) (flags : W → Flags) : Type 0 where
  pub adds :
      (u : ℕ) (k : Text) (w : W) (fs : List Text)
      → flags w u ≡ some fs
      → Added u k
          (flags w)
          fs
          (imap.add_flags (u ∷ []) (k ∷ []) w).0
          (flags (imap.add_flags (u ∷ []) (k ∷ []) w).1)
  pub removes :
      (u : ℕ) (k : Text) (w : W) (fs : List Text)
      → flags w u ≡ some fs
      → Removed u k
          (flags w)
          fs
          (imap.remove_flags (u ∷ []) (k ∷ []) w).0
          (flags (imap.remove_flags (u ∷ []) (k ∷ []) w).1)
  pub fetches :
      (u : ℕ) (w : W) (fs : List Text)
      → flags w u ≡ some fs
      → (items : Dict Item) × ((imap.fetch (u ∷ []) (text "FLAGS" ∷ []) w).0 ≡ ok items)
        × ((item : Item) × (lookup u items ≡ some item) × (item.flags ≡ some fs))
        × ((v : ℕ) → flags (imap.fetch (u ∷ []) (text "FLAGS" ∷ []) w).1 v ≡ flags w v)
  pub searches :
      (criteria : List Text) (w : W)
      → ((fs : List Text) → (b : Bool) × (selects (key false) criteria fs ≡ some b))
      → (found : List ℕ) × ((imap.search criteria w).0 ≡ ok found)
        × ((v : ℕ)
            → In v found ↔ (
                (fs : List Text) × (flags w v ≡ some fs)
                × (selects (key false) criteria fs ≡ some true)))
        × ((v : ℕ) → flags (imap.search criteria w).1 v ≡ flags w v)

module _ {W : Type 0} (flags : W → Flags) where
  -- The call returned, with the session open; the message carries what `shows` says, and the other
  -- messages have the flags they had.
  abbrev pub LeavesFlags : ℕ → (Text → Bool) → Flags → Result (Unit {0}) → Box W → Type 0
  LeavesFlags uid shows before outcome b =
      (outcome ≡ ok tt)
      × (b.is_open ≡ true)
      × ((gs : List Text) × (flags b.world uid ≡ some gs) × ((t : Text) → carries t gs ≡ shows t))
      × ((v : ℕ) → v ≢ uid → flags b.world v ≡ before v)

  pub same_box :
      (uid : ℕ) (shows : Text → Bool) (before : Flags) (outcome : Result (Unit {0})) (b b' : Box W)
      → b ≡ b'
      → LeavesFlags uid shows before outcome b'
      → LeavesFlags uid shows before outcome b
  same_box uid shows before outcome b b' e h = rw e h
