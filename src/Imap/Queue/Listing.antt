-- ===== src/Imap/Queue/Listing.antt =====
-- imap_client.py: what the listing of the INBOX returns over a server that keeps flags.
use mail_transporter.Base.{
  ℕ, Bool, true, false, not, ◌&&◌, ◌||◌, some, [], ◌∷◌, text, text_eq, ◌≡◌, refl, sym, ap, ◌∙◌, ◌↔◌,
  List, Text, In, Result, ok, Exec,
}
use mail_transporter.Imap.Client.{ImapClient, Box, Account, remote, client, direct, matches}
use mail_transporter.Imap.Queries.{criteria, exclude, list_by}
use mail_transporter.Imap.Listing.{IsSorted, list_by-searched}
use mail_transporter.Imap.Queue.{deleted_flag, Flags, Queued, key, also, selects, IsFlagStore}
use mail_transporter.Imap.Keywords.{carries}

both_not : (a b : Bool) → (not a && not b) ≡ not (a || b)
both_not true b = refl
both_not false b = refl

neither : (a b : Bool) → some (not a && not b) ≡ some true → (a ≡ false) × (b ≡ false)
neither true b h = cc
neither false true h = cc
neither false false h = (refl, refl)

neither_so : (a b : Bool) → a ≡ false → b ≡ false → some (not a && not b) ≡ some true
neither_so a b p q = rw (p, q) refl

-- The criteria that exclude the keywords select a message that carries none of them,
exclude-selects :
    (keywords fs : List Text)
    → selects (key false) (exclude keywords) fs ≡ some (not (matches fs keywords))
unfolding exclude selects matches carries text text_eq
exclude-selects [] fs = refl
exclude-selects (k ∷ keywords) fs =
    ap (also (not (carries k fs))) (exclude-selects keywords fs)
    ∙ ap some (both_not (carries k fs) (matches fs keywords))

-- and those of the listing besides that it is not deleted.
criteria-selects :
    (keywords fs : List Text)
    → selects (key false) (criteria keywords) fs
      ≡ some (not (carries deleted_flag fs) && not (matches fs keywords))
unfolding criteria selects deleted_flag text text_eq
criteria-selects keywords fs =
    ap (also (not (carries deleted_flag fs))) (exclude-selects keywords fs)

Queued-iff :
    (keywords : List Text) (flags : Flags) (v : ℕ)
    → ((fs : List Text) × (flags v ≡ some fs)
        × (selects (key false) (criteria keywords) fs ≡ some true))
      ↔ Queued keywords flags v
Queued-iff keywords flags v = (
  λ (fs, has, chosen).
      let (kept, free) =
        neither (carries deleted_flag fs) (matches fs keywords)
          (sym (criteria-selects keywords fs) ∙ chosen) in
      (fs, has, kept, free),
  λ (fs, has, kept, free). (fs, has, criteria-selects keywords fs ∙ neither_so _ _ kept free),
)

module _ {W : Type 0} (imap : ImapClient W) (flags : W → Flags)
    (store : IsFlagStore imap flags) where
  remote_open : {A : Type 0} (m : Exec W A) (b : Box W) → b.is_open ≡ true → remote m b ≡ direct m b
  unfolding remote client
  remote_open m b opened = rw opened refl

  -- If the session is open, then the listing without these keywords returns the queue, in ascending
  -- order, and leaves the flags as they were.
  pub list_by-Queued :
      (account : Account) (keywords : List Text) (b : Box W)
      → b.is_open ≡ true
      → (uids : List ℕ) × ((list_by imap account keywords b).0 ≡ ok uids)
        × IsSorted uids
        × ((v : ℕ) → In v uids ↔ Queued keywords (flags b.world) v)
  list_by-Queued account keywords b opened =
      let (found, answered, exact, same) =
        store.searches (criteria keywords) b.world (λ fs. (_, criteria-selects keywords fs)) in
      let (uids, lists, ordered, all) = list_by-searched imap account b keywords found (
        ap (λ (x : Result (List ℕ) × Box W). x.0)
          (remote_open (imap.search (criteria keywords)) b opened)
        ∙ answered) in
      (
        uids,
        lists,
        ordered,
        λ v.
            let right = Queued-iff keywords (flags b.world) v in
            (λ i. right.0 ((exact v).0 ((all v).0 i)), λ q. (all v).1 ((exact v).1 (right.1 q))),
      )
