-- ===== src/Imap/Queue/Requeued.antt =====
-- A message whose quarantine keyword is cleared again is back in the queue.
use mail_transporter.Base.{
  ℕ, Bool, true, false, not, ◌&&◌, ◌||◌, ◌≡◌, ◌≢◌, refl, sym, ap, ◌∙◌, ◌↔◌, inl, inr, some, List,
  [], ◌∷◌, Text, text_eq, text_eq→eq, text_mem, lower, map, In, ok, is_ascii, Bool-cases, ◌==◌,
  ==_iff, arith,
}
use mail_transporter.Imap.Client.{ImapClient, Box, Account, matches}
use mail_transporter.Imap.Queries.{list_by}
use mail_transporter.Imap.Keywords.{carries, add_keyword, remove_keyword}
use mail_transporter.Imap.Listing.{IsSorted}
use mail_transporter.Imap.Queue.{deleted_flag, Flags, Queued, IsFlagStore}
use mail_transporter.Imap.Queue.Adding.{add_keyword-LeavesFlags}
use mail_transporter.Imap.Queue.Removing.{remove_keyword-LeavesFlags}
use mail_transporter.Imap.Queue.Listing.{list_by-Queued}
use mail_transporter.Imap.Queue.Marked.{IsAmong, Queued-same}

true-false : true ≡ false → ⊥
true-false h = cc

-- Adding a keyword that was not there and removing it again changes nothing that can be asked for.
undone : (c d : Bool) → (d ≡ true → c ≡ false) → ((c || d) && not d) ≡ c
undone true true h = absurd (true-false (h refl))
undone true false h = refl
undone false true h = refl
undone false false h = refl

-- What the flags say of a keyword depends on it up to case.
carries_alike :
    (t k : Text) (fs : List Text) → text_eq (lower t) (lower k) ≡ true → carries t fs ≡ carries k fs
unfolding carries
carries_alike t k fs h =
    ap (λ (x : Text). text_mem x (map lower fs)) (text_eq→eq (lower t) (lower k) h)

free_step :
    (b c d rest rest' : Bool)
    → (b ≡ true → c ≡ d)
    → (b || rest) ≡ true
    → (c || rest') ≡ false
    → (rest ≡ true → rest' ≡ false → d ≡ false)
    → d ≡ false
free_step true true d rest rest' e h f k = cc
free_step true false d rest rest' e h f k = sym (e refl)
free_step false true d rest rest' e h f k = cc
free_step false false d rest rest' e h f k = k h f

free_of :
    (keywords : List Text) (k : Text) (fs : List Text)
    → IsAmong k keywords
    → matches fs keywords ≡ false
    → carries k fs ≡ false
unfolding matches carries
free_of [] k fs among free = cc
free_of (x ∷ keywords) k fs among free =
    free_step (text_eq (lower x) (lower k)) (carries x fs) (carries k fs) _ _ (carries_alike x k fs)
      among free (free_of keywords k fs)

matches_alike :
    (keywords : List Text) (fs gs : List Text)
    → ((t : Text) → carries t gs ≡ carries t fs)
    → matches gs keywords ≡ matches fs keywords
unfolding matches carries
matches_alike [] fs gs told = refl
matches_alike (x ∷ keywords) fs gs told = λ i. told x i || matches_alike keywords fs gs told i

-- Flags that cannot be told apart by keywords stand for the same queue.
Queued-alike :
    (keywords : List Text) (before after : Flags) (v : ℕ) (fs gs : List Text)
    → before v ≡ some fs
    → after v ≡ some gs
    → ((t : Text) → carries t gs ≡ carries t fs)
    → Queued keywords before v
    → Queued keywords after v
Queued-alike keywords before after v fs gs had has told (hs, at, kept, free) =
    let same : hs ≡ fs = ground arith in
    (
      gs,
      has,
      told deleted_flag ∙ ap (carries deleted_flag) (sym same) ∙ kept,
      matches_alike keywords fs gs told
          ∙ ap (λ (x : List Text). matches x keywords) (sym same)
          ∙ free,
    )

restored_iff :
    (keywords : List Text) (uid : ℕ) (fs gs : List Text) (before after : Flags)
    → before uid ≡ some fs
    → after uid ≡ some gs
    → ((t : Text) → carries t gs ≡ carries t fs)
    → ((v : ℕ) → v ≢ uid → after v ≡ before v)
    → (v : ℕ) → Queued keywords after v ↔ Queued keywords before v
restored_iff keywords uid fs gs before after had has told others v = elim (Bool-cases (v == uid)) [
  | inl here ↦
      let same : uid ≡ v = sym ((==_iff v uid).0 here) in
      let had_it = ap before (sym same) ∙ had in
      let has_it = ap after (sym same) ∙ has in
      (
        Queued-alike keywords after before v gs fs has_it had_it (λ t. sym (told t)),
        Queued-alike keywords before after v fs gs had_it has_it told,
      )
  | inr elsewhere ↦
      let other : v ≢ uid = λ e. false_true ((sym elsewhere) ∙ (==_iff v uid).1 e) in
      (
        Queued-same keywords after before v (sym (others v other)),
        Queued-same keywords before after v (others v other),
      )
]
  where
    false_true : false ≡ true → ⊥
    false_true h = cc

module _ {W : Type 0} (imap : ImapClient W) (flags : W → Flags)
    (store : IsFlagStore imap flags) where
  -- Over a server that keeps flags, in an open session: when a message of the queue has been given
  -- one of the ASCII keywords that the listing excludes, `remove_keyword` of that keyword returns,
  -- and the listing that follows returns the queue as it was before both, in ascending order.
  pub remove_keyword-requeues :
      (account : Account) (keywords : List Text) (uid : ℕ) (k : Text) (b : Box W)
      → b.is_open ≡ true
      → is_ascii k ≡ true
      → IsAmong k keywords
      → Queued keywords (flags b.world) uid
      → ((remove_keyword imap uid k (add_keyword imap uid k b).1).0 ≡ ok tt)
        × ((uids : List ℕ) × ((list_by imap account keywords
                (remove_keyword imap uid k (add_keyword imap uid k b).1).1).0
              ≡ ok uids)
            × IsSorted uids
            × ((v : ℕ) → In v uids ↔ Queued keywords (flags b.world) v))
  remove_keyword-requeues account keywords uid k b opened ascii among (fs, there, kept, free) =
      let (marked, still, new, others) =
        add_keyword-LeavesFlags imap flags store uid k b fs opened ascii there in
      let (gs, has, told) = new in
      let (returns, open_still, last, others') =
        remove_keyword-LeavesFlags imap flags store uid k (add_keyword imap uid k b).1 gs still
          ascii has in
      let (hs, has', told') = last in
      let restored : (t : Text) → carries t hs ≡ carries t fs = λ t.
        told' t
        ∙ ap (λ (c : Bool). c && not (text_eq (lower t) (lower k))) (told t)
        ∙ undone (carries t fs) (text_eq (lower t) (lower k))
            (λ e. carries_alike t k fs e ∙ free_of keywords k fs among free) in
      let (uids, lists, ordered, all) =
        list_by-Queued imap flags store account keywords
          (remove_keyword imap uid k (add_keyword imap uid k b).1).1 open_still in
      let exact =
        restored_iff keywords uid fs hs (flags b.world) _ there has' restored
          (λ v other. others' v other ∙ others v other) in
      (
        returns,
        (
          uids,
          lists,
          ordered,
          λ v. (λ i. (exact v).0 ((all v).0 i), λ q. (all v).1 ((exact v).1 q)),
        ),
      )
