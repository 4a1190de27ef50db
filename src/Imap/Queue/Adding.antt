-- ===== src/Imap/Queue/Adding.antt =====
-- imap_client.py: what `add_keyword` does over a server that keeps flags.
use mail_transporter.Base.{
  ℕ, Bool, true, false, ◌||◌, ◌≡◌, ◌≢◌, refl, ◌∙◌, ◌⊎◌, inl, inr, none, some, List, [], ◌∷◌, Text,
  text, text_eq, text_eq_refl, text_mem, lower, Dict, lookup, Result, ok, is_ascii,
}
use mail_transporter.Imap.Client.{ImapClient, Item, Box}
use mail_transporter.Imap.Queries.{flags_of, listed}
use mail_transporter.Imap.Keywords.{carries, or_empty, add_keyword}
use mail_transporter.Imap.Confirm.{add_keyword-of_IsConfirmed}
use mail_transporter.Imap.Queue.{Flags, IsFlagStore, LeavesFlags, same_box}

carries-none : (k : Text) → carries k [] ≡ false
unfolding carries text_mem
carries-none k = refl

module _ {W : Type 0} (imap : ImapClient W) (uid : ℕ) (k : Text) (b : Box W)
    (opened : b.is_open ≡ true) (ascii : is_ascii k ≡ true) (reply : Dict (List Text))
    (stores : (imap.add_flags (uid ∷ []) (k ∷ []) b.world).0 ≡ ok reply) where
  abbrev stored : W
  stored = (imap.add_flags (uid ∷ []) (k ∷ []) b.world).1

  abbrev shown : Result (Dict Item) × W
  shown = imap.fetch (uid ∷ []) (text "FLAGS" ∷ []) stored

  -- The reply shows the keyword: no other call is made.
  end_in_reply :
      carries k (or_empty (lookup uid reply)) ≡ true
      → (add_keyword imap uid k b).1 ≡ record b { world = stored }
  unfolding add_keyword
  end_in_reply there = rw (opened, ascii, stores, there) refl

  end_in_fetch :
      (found : Dict Item)
      → carries k (or_empty (lookup uid reply)) ≡ false
      → shown.0 ≡ ok found
      → (add_keyword imap uid k b).1 ≡ record b { world = shown.1 }
  unfolding add_keyword
  end_in_fetch found absent shows = rw (opened, ascii, stores, absent, shows) refl

module _ {W : Type 0} (imap : ImapClient W) (flags : W → Flags)
    (store : IsFlagStore imap flags) where
  abbrev pub with_keyword : Text → List Text → Text → Bool
  with_keyword k fs t = carries t fs || text_eq (lower t) (lower k)

  or_true : (x y : Bool) → y ≡ true → (x || y) ≡ true
  or_true true y h = refl
  or_true false y h = h

  module _ (uid : ℕ) (k : Text) (b : Box W) (fs : List Text) (opened : b.is_open ≡ true)
      (ascii : is_ascii k ≡ true) (there : flags b.world uid ≡ some fs) where
    -- The reply shows the new flags, or the flags are fetched next.
    by_reply :
        (reply : Dict (List Text)) (gs : List Text)
        → (imap.add_flags (uid ∷ []) (k ∷ []) b.world).0 ≡ ok reply
        → flags (imap.add_flags (uid ∷ []) (k ∷ []) b.world).1 uid ≡ some gs
        → (lookup uid reply ≡ none) ⊎ (lookup uid reply ≡ some gs)
        → ((t : Text) → carries t gs ≡ (carries t fs || text_eq (lower t) (lower k)))
        → ((v : ℕ)
            → v ≢ uid
            → flags (imap.add_flags (uid ∷ []) (k ∷ []) b.world).1 v ≡ flags b.world v)
        → LeavesFlags flags uid
            (with_keyword k fs)
            (flags b.world)
            (add_keyword imap uid k b).0
            (add_keyword imap uid k b).1
    by_reply reply gs stores has (inr at) told others =
        let shown : carries k (or_empty (lookup uid reply)) ≡ true =
          rw at (told k ∙ or_true (carries k fs) _ (text_eq_refl (lower k))) in
        same_box flags uid (with_keyword k fs) _ _ _ _
          (end_in_reply imap uid k b opened ascii reply stores shown)
          (
            add_keyword-of_IsConfirmed imap uid k b ascii (opened, (reply, stores, inl shown)),
            opened,
            (gs, has, told),
            others,
          )
    by_reply reply gs stores has (inl at) told others =
        let absent : carries k (or_empty (lookup uid reply)) ≡ false = rw at (carries-none k) in
        let (items, asked, known, same) =
          store.fetches uid (imap.add_flags (uid ∷ []) (k ∷ []) b.world).1 gs has in
        let (item, listed, shown) = known in
        let carried : carries k (flags_of (lookup uid items)) ≡ true =
          rw (listed, shown) (told k ∙ or_true (carries k fs) _ (text_eq_refl (lower k))) in
        same_box flags uid (with_keyword k fs) _ _ _ _
          (end_in_fetch imap uid k b opened ascii reply stores items absent asked)
          (
            add_keyword-of_IsConfirmed imap uid k b ascii
                (opened, (reply, stores, inr (absent, (items, asked, carried)))),
            opened,
            (gs, same uid ∙ has, told),
            λ v other. same v ∙ others v other,
          )

    pub add_keyword-LeavesFlags :
        LeavesFlags flags uid
          (with_keyword k fs)
          (flags b.world)
          (add_keyword imap uid k b).0
          (add_keyword imap uid k b).1
    add_keyword-LeavesFlags =
        let (reply, stores, new, others) = store.adds uid k b.world fs there in
        let (gs, has, shows, told) = new in by_reply reply gs stores has shows told others
