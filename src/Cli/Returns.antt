-- ===== src/Cli/Returns.antt =====
-- mailtransporter/cli.py: what escapes the maintenance commands.
use mail_transporter.Base.{
  ℕ, Bool, true, false, ◌≡◌, List, [], ◌∷◌, Text, map, length, sorted, contains, lookup, Dict, ok,
  pure, text_mem, lower, if◌then◌else◌, arith,
}
use mail_transporter.Forwarder.Errors.{Raises}
use mail_transporter.Imap.Client.{ImapClient, Box, Account}
use mail_transporter.Imap.Keywords.{or_empty}
use mail_transporter.Imap.Headers.{EmailPackage}
use mail_transporter.Imap.Errors.Reading.{
  inbox_flags-Raises, search_keyword-Raises, fetch_headers-Raises,
}
use mail_transporter.Imap.Errors.Writing.{add_keyword-Raises, remove_keyword-Raises}
use mail_transporter.Imap.Errors.Session.{require_keywords-Raises}
use mail_transporter.Config.Keywords.{Keywords}
use mail_transporter.Cli.{
  Console, print, on_session, RetryArgs, clear_one, clear_each, retry_all, retry_session,
  retry_opened, mark_one, mark_each, mark_session, cmd_mark_failed, cleared_line, marked_line,
}
use mail_transporter.Cli.Entries.{Entry, uid_of, entries_of, completed, collect}
use mail_transporter.Cli.Listing.{
  print_entries, print_each, total_line, show_entries, list_session, list_opened,
}
use mail_transporter.Cli.Reported.{
  IsReported, Reports, mailbox-Reported, continue-Reports, continue-Reported, if-Reported,
  within-Reported, within-Reports,
}

module _ {W : Type 0} where
  print_each-Reported :
      (entries : List Entry) (c : Console W) → Raises IsReported (print_each entries c).0
  unfolding print_each
  print_each-Reported [] c = tt
  print_each-Reported (entry ∷ entries) c = print_each-Reported entries _

  show_entries-Reports :
      (as_json : Bool) (entries : List Entry) (c : Console W)
      → Reports (show_entries as_json entries c).0
  unfolding show_entries print_entries
  show_entries-Reports true entries c = omega arith
  show_entries-Reports false [] c = omega arith
  show_entries-Reports false (entry ∷ entries) c =
      continue-Reports (λ (_ : Unit {0}). pure 0) _ _
        (continue-Reported (λ (_ : Unit {0}). print (total_line (length (entry ∷ entries)))) _ _
          (print_each-Reported (entry ∷ entries) c) (λ _ c'. tt))
        (λ _ c'. omega arith)

  module _ (imap : ImapClient W) (account : Account)
      (capable : (name : Text) (w : W)
        → (there : Bool) × ((imap.has_capability name w).0 ≡ ok there)) where
    module _ (email : EmailPackage) where
      completed-Reported :
          (entries : List Entry) (b : Box W)
          → Raises IsReported (completed email imap account entries b).0
      unfolding completed
      completed-Reported entries b =
          continue-Reported _ _ _
            (mailbox-Reported _ (fetch_headers-Raises imap account email (map uid_of entries) b))
            (λ headers b'. tt)

      collect-Reported :
          (keywords : Keywords) (b : Box W)
          → Raises IsReported (collect email imap account keywords b).0
      unfolding collect
      collect-Reported keywords b =
          continue-Reported (λ flags. completed email imap account (entries_of keywords flags)) _ _
            (mailbox-Reported _ (inbox_flags-Raises imap account b))
            (λ flags b'. completed-Reported (entries_of keywords flags) b')

      pub list_opened-Reports :
          (as_json : Bool) (keywords : Keywords) (c : Console W)
          → Reports (list_opened email imap account as_json keywords c).0
      unfolding list_opened list_session
      list_opened-Reports as_json keywords c =
          continue-Reports (show_entries as_json) _ _
            (within-Reported imap account capable (on_session (collect email imap account keywords))
              c (λ c'. collect-Reported keywords c'.box))
            (λ entries c'. show_entries-Reports as_json entries c')

    clear_one-Reported :
        (keyword : Text) (uid : ℕ) (c : Console W)
        → Raises IsReported (clear_one imap account keyword uid c).0
    unfolding clear_one
    clear_one-Reported keyword uid c =
        continue-Reported (λ (_ : Unit {0}). print (cleared_line uid keyword)) _ _
          (mailbox-Reported _ (remove_keyword-Raises imap account uid keyword c.box)) (λ _ c'. tt)

    clear_each-Reported :
        (keyword : Text) (carrying uids : List ℕ) (c : Console W)
        → Raises IsReported (clear_each imap account keyword carrying uids c).0
    unfolding clear_each
    clear_each-Reported keyword carrying [] c = tt
    clear_each-Reported keyword carrying (uid ∷ uids) c =
        continue-Reported (λ (_ : Unit {0}). clear_each imap account keyword carrying uids) _ _
          (if-Reported (contains uid carrying) _ _ c (clear_one-Reported keyword uid c) tt)
          (λ _ c'. clear_each-Reported keyword carrying uids c')

    retry_all-Reports :
        (keyword : Text) (carrying uids : List ℕ) (c : Console W)
        → Reports (retry_all imap account keyword carrying uids c).0
    unfolding retry_all
    retry_all-Reports keyword carrying [] c = omega arith
    retry_all-Reports keyword carrying (uid ∷ uids) c =
        continue-Reports (λ (_ : Unit {0}). pure 0) _ _
          (clear_each-Reported keyword carrying (uid ∷ uids) c) (λ _ c'. omega arith)

    retry_session-Reports :
        (args : RetryArgs) (keyword : Text) (c : Console W)
        → Reports (retry_session imap account args keyword c).0
    unfolding retry_session
    retry_session-Reports args keyword c =
        continue-Reports
          (λ carrying.
            retry_all imap account keyword carrying
              (if args.every then sorted carrying else args.uids))
          _ _ (mailbox-Reported _ (search_keyword-Raises imap account keyword c.box))
          (λ carrying c'. retry_all-Reports keyword carrying _ c')

    pub retry_opened-Reports :
        (args : RetryArgs) (keywords : Keywords) (c : Console W)
        → Reports (retry_opened imap account args (ok keywords) c).0
    unfolding retry_opened
    retry_opened-Reports args keywords c =
        within-Reports imap account capable
          (retry_session imap account args
            (if args.unverified then keywords.unverified else keywords.failed))
          c (λ c'. retry_session-Reports args _ c')

    mark_one-Reported :
        (keywords : Keywords) (flags : Dict (List Text)) (uid : ℕ) (c : Console W)
        → Raises IsReported (mark_one imap account keywords flags uid c).0
    unfolding mark_one
    mark_one-Reported keywords flags uid c =
        if-Reported (text_mem (lower keywords.inserted) (map lower (or_empty (lookup uid flags)))) _
          _ c tt
          (continue-Reported (λ (_ : Unit {0}). pure false) _ _
            (continue-Reported (λ (_ : Unit {0}). print (marked_line uid keywords.failed)) _ _
              (mailbox-Reported _ (add_keyword-Raises imap account uid keywords.failed c.box))
              (λ _ c'. tt))
            (λ _ c'. tt))

    mark_each-Reported :
        (keywords : Keywords) (flags : Dict (List Text)) (refused : Bool) (uids : List ℕ)
        (c : Console W)
        → Raises IsReported (mark_each imap account keywords flags refused uids c).0
    unfolding mark_each
    mark_each-Reported keywords flags refused [] c = tt
    mark_each-Reported keywords flags refused (uid ∷ uids) c =
        continue-Reported
          (λ now_refused.
            mark_each imap account keywords flags (if now_refused then true else refused) uids)
          _ _ (mark_one-Reported keywords flags uid c)
          (λ now_refused c'. mark_each-Reported keywords flags _ uids c')

    refusal-Reports : (refused : Bool) → Reports (ok (if refused then 1 else 0))
    refusal-Reports true = omega arith
    refusal-Reports false = omega arith

    mark_session-Reports :
        (keywords : Keywords) (uids : List ℕ) (c : Console W)
        → Reports (mark_session imap account keywords uids c).0
    unfolding mark_session
    mark_session-Reports keywords uids c =
        continue-Reports _ _ _ (mailbox-Reported _ (require_keywords-Raises imap account c.box))
          (λ _ c'.
            continue-Reports _ _ _ (mailbox-Reported _ (inbox_flags-Raises imap account c'.box))
              (λ flags c''.
                continue-Reports (λ refused. pure (if refused then 1 else 0)) _ _
                  (mark_each-Reported keywords flags false uids c'')
                  (λ refused _. refusal-Reports refused)))

    pub cmd_mark_failed-Reports :
        (uids : List ℕ) (keywords : Keywords) (c : Console W)
        → Reports (cmd_mark_failed imap account uids (ok keywords) c).0
    unfolding cmd_mark_failed
    cmd_mark_failed-Reports uids keywords c =
        within-Reports imap account capable (mark_session imap account keywords uids) c
          (λ c'. mark_session-Reports keywords uids c')
