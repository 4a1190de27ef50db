-- ===== src/Tests/Queues.antt =====
-- The forwarding queue at the server of one message.
use mail_transporter.Base.{
  ℕ, ◌≡◌, ◌≢◌, ◌↔◌, refl, true, List, [], ◌∷◌, text_eq, text_mem, lower, lower_char, is_ascii, In,
  ok,
}
use mail_transporter.Imap.Client.{Box, matches}
use mail_transporter.Imap.Queries.{list_by}
use mail_transporter.Imap.Keywords.{add_keyword, remove_keyword, carries}
use mail_transporter.Imap.Listing.{IsSorted}
use mail_transporter.Imap.Queue.{Queued, deleted_flag}
use mail_transporter.Imap.Queue.Marked.{add_keyword-dequeues}
use mail_transporter.Imap.Queue.Requeued.{remove_keyword-requeues}
use mail_transporter.Tests.Server.{account, box, failed_flag}
use mail_transporter.Tests.Store.{Only, flags_in, only, only-IsFlagStore}

abbrev session : Box Only
session = box true []

add_keyword-dequeues_example :
    ((add_keyword only 7 failed_flag session).0 ≡ ok tt)
    × ((uids : List ℕ) × ((list_by only account
            (failed_flag ∷ [])
            (add_keyword only 7 failed_flag session).1).0
          ≡ ok uids)
        × IsSorted uids
        × ((v : ℕ) → In v uids ↔ (Queued (failed_flag ∷ []) (flags_in []) v × (v ≢ 7))))
unfolding is_ascii text_eq lower lower_char
add_keyword-dequeues_example =
    add_keyword-dequeues only flags_in only-IsFlagStore account (failed_flag ∷ []) 7 failed_flag
      session [] refl refl refl refl

remove_keyword-requeues_example :
    ((remove_keyword only 7 failed_flag (add_keyword only 7 failed_flag session).1).0 ≡ ok tt)
    × ((uids : List ℕ) × ((list_by only account
            (failed_flag ∷ [])
            (remove_keyword only 7 failed_flag (add_keyword only 7 failed_flag session).1).1).0
          ≡ ok uids)
        × IsSorted uids
        × ((v : ℕ) → In v uids ↔ Queued (failed_flag ∷ []) (flags_in []) v))
unfolding is_ascii text_eq lower lower_char matches carries deleted_flag text_mem
remove_keyword-requeues_example =
    remove_keyword-requeues only flags_in only-IsFlagStore account (failed_flag ∷ []) 7 failed_flag
      session refl refl refl ([], refl, refl, refl)
