-- ===== src/Imap/Queue/Marked.antt =====
-- A message that gets a quarantine keyword leaves the queue, and no other message does.
use mail_transporter.Base.{
  ℕ, Bool, true, false, ◌||◌, ◌≡◌, ◌≢◌, refl, sym, ap, ◌∙◌, ◌↔◌, some, List, [], ◌∷◌, Text, text_eq,
  lower, any, In, ok, is_ascii, arith,
}
use mail_transporter.Imap.Client.{ImapClient, Box, Account, matches}
use mail_transporter.Imap.Queries.{list_by}
use mail_transporter.Imap.Keywords.{carries, add_keyword}
use mail_transporter.Imap.Listing.{IsSorted}
use mail_transporter.Imap.Queue.{Flags, Queued, IsFlagStore}
use mail_transporter.Imap.Queue.Adding.{add_keyword-LeavesFlags}
use mail_transporter.Imap.Queue.Listing.{list_by-Queued}

-- Among the keywords stands this one, in whatever case.
abbrev pub IsAmong : Text → List Text → Type 0
IsAmong k keywords = any (λ x. text_eq (lower x) (lower k)) keywords ≡ true

pub Queued-same :
    (keywords : List Text) (before after : Flags) (v : ℕ)
    → after v ≡ before v
    → Queued keywords before v
    → Queued keywords after v
Queued-same keywords before after v e (fs, has, kept, free) = (fs, e ∙ has, kept, free)

Queued-at :
    (keywords : List Text) (after : Flags) (v u : ℕ)
    → v ≡ u
    → Queued keywords after v
    → Queued keywords after u
Queued-at keywords after v u e q = rw (← e) q

or_step :
    (c d b rest rest' : Bool)
    → c ≡ (d || b)
    → (b || rest) ≡ true
    → (rest ≡ true → rest' ≡ true)
    → (c || rest') ≡ true
or_step true d b rest rest' e h k = refl
or_step false true b rest rest' e h k = cc
or_step false false true rest rest' e h k = cc
or_step false false false rest rest' e h k = k h

any-told :
    (keywords : List Text) (k : Text) (fs gs : List Text)
    → ((t : Text) → carries t gs ≡ (carries t fs || text_eq (lower t) (lower k)))
    → IsAmong k keywords
    → matches gs keywords ≡ true
unfolding matches carries
any-told [] k fs gs told among = cc
any-told (x ∷ keywords) k fs gs told among =
    or_step (carries x gs) (carries x fs) (text_eq (lower x) (lower k)) _ _ (told x) among
      (any-told keywords k fs gs told)

not-Queued :
    (keywords : List Text) (after : Flags) (uid : ℕ) (gs : List Text)
    → after uid ≡ some gs
    → matches gs keywords ≡ true
    → Queued keywords after uid
    → ⊥
not-Queued keywords after uid gs has caught (fs, at, kept, free) =
    let same : fs ≡ gs = ground arith in
    clash (matches fs keywords) (ap (λ (x : List Text). matches x keywords) same ∙ caught) free
  where
    clash : (b : Bool) → b ≡ true → b ≡ false → ⊥
    clash true p q = cc
    clash false p q = cc

-- What the mark does to the queue.
dequeued_iff :
    (keywords : List Text) (k : Text) (uid : ℕ) (fs : List Text) (before after : Flags)
    → IsAmong k keywords
    → (gs : List Text) × (after uid ≡ some gs)
      × ((t : Text) → carries t gs ≡ (carries t fs || text_eq (lower t) (lower k)))
    → ((v : ℕ) → v ≢ uid → after v ≡ before v)
    → (v : ℕ) → Queued keywords after v ↔ (Queued keywords before v × (v ≢ uid))
dequeued_iff keywords k uid fs before after among (gs, has, told) others v = (
  λ q.
      let other : v ≢ uid = λ e.
        not-Queued keywords after uid gs has (any-told keywords k fs gs told among)
          (Queued-at keywords after v uid e q) in
      (Queued-same keywords after before v (sym (others v other)) q, other),
  λ (q, other). Queued-same keywords before after v (others v other) q,
)

module _ {W : Type 0} (imap : ImapClient W) (flags : W → Flags)
    (store : IsFlagStore imap flags) where
  -- Over a server that keeps flags, in an open session: once `add_keyword` has given a message of
  -- the INBOX one of the ASCII keywords that the listing excludes, it returns, and the listing
  -- that follows returns the messages that were in the queue before, in ascending order, without
  -- this one.
  pub add_keyword-dequeues :
      (account : Account) (keywords : List Text) (uid : ℕ) (k : Text) (b : Box W) (fs : List Text)
      → b.is_open ≡ true
      → is_ascii k ≡ true
      → IsAmong k keywords
      → flags b.world uid ≡ some fs
      → ((add_keyword imap uid k b).0 ≡ ok tt)
        × ((uids : List ℕ) × ((list_by imap account keywords (add_keyword imap uid k b).1).0
              ≡ ok uids)
            × IsSorted uids
            × ((v : ℕ) → In v uids ↔ (Queued keywords (flags b.world) v × (v ≢ uid))))
  add_keyword-dequeues account keywords uid k b fs opened ascii among there =
      let (returns, still, new, others) =
        add_keyword-LeavesFlags imap flags store uid k b fs opened ascii there in
      let (uids, lists, ordered, all) =
        list_by-Queued imap flags store account keywords (add_keyword imap uid k b).1 still in
      let exact = dequeued_iff keywords k uid fs (flags b.world) _ among new others in
      (
        returns,
        (
          uids,
          lists,
          ordered,
          λ v. (λ i. (exact v).0 ((all v).0 i), λ q. (all v).1 ((exact v).1 q)),
        ),
      )
