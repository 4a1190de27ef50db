-- ===== src/Imap/Queue/Removing.antt =====
-- imap_client.py: what `remove_keyword` does over a server that keeps flags.
use mail_transporter.Base.{
  ℕ, Bool, true, false, not, ◌&&◌, ◌≡◌, ◌≢◌, refl, ◌∙◌, ◌⊎◌, inl, inr, none, some, List, [], ◌∷◌,
  Text, text, text_eq, text_eq_refl, lower, Dict, lookup, Result, ok, is_ascii,
}
use mail_transporter.Imap.Client.{ImapClient, Item, Box}
use mail_transporter.Imap.Queries.{flags_of}
use mail_transporter.Imap.Keywords.{carries, remove_keyword}
use mail_transporter.Imap.Queue.{Flags, IsFlagStore, LeavesFlags, same_box}

module _ {W : Type 0} (imap : ImapClient W) (uid : ℕ) (k : Text) (b : Box W)
    (opened : b.is_open ≡ true) (ascii : is_ascii k ≡ true) (reply : Dict (List Text))
    (stores : (imap.remove_flags (uid ∷ []) (k ∷ []) b.world).0 ≡ ok reply) where
  abbrev stored : W
  stored = (imap.remove_flags (uid ∷ []) (k ∷ []) b.world).1

  abbrev shown : Result (Dict Item) × W
  shown = imap.fetch (uid ∷ []) (text "FLAGS" ∷ []) stored

  -- The reply shows flags without the keyword: no other call is made.
  cleared_in_reply :
      (gs : List Text)
      → lookup uid reply ≡ some gs
      → carries k gs ≡ false
      → ((remove_keyword imap uid k b).0 ≡ ok tt)
        × ((remove_keyword imap uid k b).1 ≡ record b { world = stored })
  unfolding remove_keyword
  cleared_in_reply gs at absent = (
    rw (opened, ascii, stores, at, absent, absent) refl,
    rw (opened, ascii, stores, at, absent) refl,
  )

  cleared_in_fetch :
      (found : Dict Item)
      → lookup uid reply ≡ none
      → shown.0 ≡ ok found
      → carries k (flags_of (lookup uid found)) ≡ false
      → ((remove_keyword imap uid k b).0 ≡ ok tt)
        × ((remove_keyword imap uid k b).1 ≡ record b { world = shown.1 })
  unfolding remove_keyword
  cleared_in_fetch found silent shows absent = (
    rw (opened, ascii, stores, silent, shows, absent) refl,
    rw (opened, ascii, stores, silent, shows) refl,
  )

module _ {W : Type 0} (imap : ImapClient W) (flags : W → Flags)
    (store : IsFlagStore imap flags) where
  abbrev without_keyword : Text → List Text → Text → Bool
  without_keyword k fs t = carries t fs && not (text_eq (lower t) (lower k))

  gone_itself : (x y : Bool) → y ≡ true → (x && not y) ≡ false
  gone_itself true true h = refl
  gone_itself false y h = refl
  gone_itself true false h = cc

  module _ (uid : ℕ) (k : Text) (b : Box W) (fs : List Text) (opened : b.is_open ≡ true)
      (ascii : is_ascii k ≡ true) (there : flags b.world uid ≡ some fs) where
    by_reply :
        (reply : Dict (List Text)) (gs : List Text)
        → (imap.remove_flags (uid ∷ []) (k ∷ []) b.world).0 ≡ ok reply
        → flags (imap.remove_flags (uid ∷ []) (k ∷ []) b.world).1 uid ≡ some gs
        → (lookup uid reply ≡ none) ⊎ (lookup uid reply ≡ some gs)
        → ((t : Text) → carries t gs ≡ without_keyword k fs t)
        → ((v : ℕ)
            → v ≢ uid
            → flags (imap.remove_flags (uid ∷ []) (k ∷ []) b.world).1 v ≡ flags b.world v)
        → LeavesFlags flags uid
            (without_keyword k fs)
            (flags b.world)
            (remove_keyword imap uid k b).0
            (remove_keyword imap uid k b).1
    by_reply reply gs stores has (inr at) told others =
        let absent : carries k gs ≡ false =
          told k ∙ gone_itself (carries k fs) _ (text_eq_refl (lower k)) in
        let (returns, ends) =
          cleared_in_reply imap uid k b opened ascii reply stores gs at absent in
        same_box flags uid (without_keyword k fs) _ _ _ _ ends
          (returns, opened, (gs, has, told), others)
    by_reply reply gs stores has (inl at) told others =
        let (items, asked, known, same) =
          store.fetches uid (imap.remove_flags (uid ∷ []) (k ∷ []) b.world).1 gs has in
        let (item, listed, shows) = known in
        let absent : carries k (flags_of (lookup uid items)) ≡ false =
          rw (listed, shows) (told k ∙ gone_itself (carries k fs) _ (text_eq_refl (lower k))) in
        let (returns, ends) =
          cleared_in_fetch imap uid k b opened ascii reply stores items at asked absent in
        same_box flags uid (without_keyword k fs) _ _ _ _ ends
          (returns, opened, (gs, same uid ∙ has, told), λ v other. same v ∙ others v other)

    pub remove_keyword-LeavesFlags :
        LeavesFlags flags uid
          (without_keyword k fs)
          (flags b.world)
          (remove_keyword imap uid k b).0
          (remove_keyword imap uid k b).1
    remove_keyword-LeavesFlags =
        let (reply, stores, new, others) = store.removes uid k b.world fs there in
        let (gs, has, shows, told) = new in by_reply reply gs stores has shows told others
