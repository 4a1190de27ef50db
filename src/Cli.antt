-- ===== src/Cli.antt =====
-- mailtransporter/cli.py: `_cmd_retry`, `_cmd_mark_failed`, and the handler of `main`. The session is
-- that of imap_client.py; `opened` is the outcome of `_mailbox`, which reads the settings.
pub mod Retry
pub mod Marked
pub mod Entries
pub mod Listing
pub mod Commands
pub mod Reported
pub mod Returns
pub mod Main
pub mod Sync
pub mod Described
pub mod Quarantined
pub mod ReadOnly
pub mod Agreement
use mail_transporter.Base.{
  ℕ, zero, suc, Bool, true, false, not, ◌&&◌, ◌++◌, Option, none, some, List, [], ◌∷◌, map, Text,
  text, text_mem, lower, show_nat, contains, sorted, Dict, lookup, Raised, Result, ok, raised,
  mailbox_error, message_gone, config_error, Exec, pure, raise, continue, attempt, ◌>>=◌, ◌>>◌,
  if◌then◌else◌,
}
use mail_transporter.Imap.Client.{ImapClient, Box, Account}
use mail_transporter.Imap.Session.{connect, close, require_keywords}
use mail_transporter.Imap.Queries.{inbox_flags, search_keyword}
use mail_transporter.Imap.Keywords.{add_keyword, remove_keyword, or_empty}
use mail_transporter.Config.Keywords.{Keywords}

-- A line printed to stdout or to stderr.
pub data Line : Type 0 where
  out err : Text → Line

-- The session, and what has been printed, the latest line first.
pub record Console (W : Type 0) : Type 0 where
  pub box : Box W
  pub printed : List Line

abbrev pub print : {W : Type 0} → Line → Exec (Console W) (Unit {0})
print line c = (ok tt, record c { printed = line ∷ c.printed })

abbrev pub on_session : {W A : Type 0} → Exec (Box W) A → Exec (Console W) A
on_session m c = ((m c.box).0, record c { box = (m c.box).1 })

pub record RetryArgs : Type 0 where
  pub uids : List ℕ
  pub every : Bool
  pub unverified : Bool
  pub yes : Bool

-- `f"uid={uid} …"`
unfoldable pub about : ℕ → Text → Text
unfolding text show_nat
about uid rest = text "uid=" ++ (show_nat uid ++ (text " " ++ rest))

unfoldable pub skipped_line : ℕ → Text → Line
unfolding text about
skipped_line uid keyword = err (about uid (text "does not carry " ++ (keyword ++ text "; skipped")))

unfoldable pub cleared_line : ℕ → Text → Line
unfolding text about
cleared_line uid keyword =
    out (about uid (keyword ++ text " cleared; it will be picked up by the next run"))

unfoldable pub refused_line : ℕ → Text → Line
unfolding text about
refused_line uid keyword = err (
    about uid
      (text "already carries " ++ (keyword ++ text " (Gmail has it); not marking it as failed")))

unfoldable pub marked_line : ℕ → Text → Line
unfolding text about
marked_line uid keyword =
    out (about uid (text "marked " ++ (keyword ++ text "; it will be skipped from now on")))

unfoldable pub nothing_line : Text → Line
unfolding text
nothing_line keyword = out (text "No message carries " ++ (keyword ++ text "."))

unfoldable pub unconfirmed_line : Line
unfolding text
unconfirmed_line = err (
    text "Messages carrying the unverified keyword were already accepted by Gmail; re-queuing "
    ++ text "them inserts a duplicate. Pass --yes to confirm.")

module _ {W : Type 0} (imap : ImapClient W) (account : Account) where
  -- `with mailbox:`
  unfoldable pub leave : {A : Type 0} → Result A → Exec (Console W) A
  leave outcome c = (outcome, record c { box = close imap account c.box })

  unfoldable pub within : {A : Type 0} → Exec (Console W) A → Exec (Console W) A
  unfolding leave
  within body = on_session (connect imap account) >> attempt body leave

  unfoldable pub clear_one : Text → ℕ → Exec (Console W) (Unit {0})
  clear_one keyword uid =
      on_session (remove_keyword imap uid keyword) >> print (cleared_line uid keyword)

  -- The `for` loop of `_cmd_retry`.
  unfoldable pub clear_each : Text → List ℕ → List ℕ → Exec (Console W) (Unit {0})
  unfolding clear_one
  clear_each keyword carrying [] = pure tt
  clear_each keyword carrying (uid ∷ uids) =
      (if contains uid carrying then clear_one keyword uid else print (skipped_line uid keyword))
      >> clear_each keyword carrying uids

  unfoldable pub retry_all : Text → List ℕ → List ℕ → Exec (Console W) ℕ
  retry_all keyword carrying [] = print (nothing_line keyword) >> pure 0
  retry_all keyword carrying (uid ∷ uids) = clear_each keyword carrying (uid ∷ uids) >> pure 0

  unfoldable pub retry_session : RetryArgs → Text → Exec (Console W) ℕ
  retry_session args keyword = on_session (search_keyword imap account keyword) >>= λ carrying.
      retry_all keyword carrying (if args.every then sorted carrying else args.uids)

  unfoldable pub retry_opened : RetryArgs → Result Keywords → Exec (Console W) ℕ
  retry_opened args (raised e) = raise e
  retry_opened args (ok keywords) =
      within (retry_session args (if args.unverified then keywords.unverified else keywords.failed))

  -- `_cmd_retry`
  unfoldable pub cmd_retry : RetryArgs → Result Keywords → Exec (Console W) ℕ
  cmd_retry args opened =
      if args.unverified && not args.yes
      then print unconfirmed_line >> pure 2
      else retry_opened args opened

  -- The body of the `for` loop of `_cmd_mark_failed`; the result says whether it set `refused`.
  unfoldable pub mark_one : Keywords → Dict (List Text) → ℕ → Exec (Console W) Bool
  unfolding text_mem lower
  mark_one keywords flags uid =
      if text_mem (lower keywords.inserted) (map lower (or_empty (lookup uid flags)))
      then print (refused_line uid keywords.inserted) >> pure true
      else on_session (add_keyword imap uid keywords.failed)
        >> print (marked_line uid keywords.failed)
        >> pure false

  unfoldable pub mark_each : Keywords → Dict (List Text) → Bool → List ℕ → Exec (Console W) Bool
  mark_each keywords flags refused [] = pure refused
  mark_each keywords flags refused (uid ∷ uids) = mark_one keywords flags uid >>= λ now_refused.
      mark_each keywords flags (if now_refused then true else refused) uids

  unfoldable pub mark_session : Keywords → List ℕ → Exec (Console W) ℕ
  mark_session keywords uids = do
    on_session (require_keywords imap account)
    flags ← on_session (inbox_flags imap account)
    refused ← mark_each keywords flags false uids
    pure (if refused then 1 else 0)

  -- `_cmd_mark_failed`
  unfoldable pub cmd_mark_failed : List ℕ → Result Keywords → Exec (Console W) ℕ
  unfolding mark_session
  cmd_mark_failed uids (raised e) = raise e
  cmd_mark_failed uids (ok keywords) = within (mark_session keywords uids)

unfoldable pub error_line : Text → Line
unfolding text
error_line e = err (text "error: " ++ e)

-- The `except` clause of `main`.
unfoldable pub handled : {W : Type 0} → Result ℕ → Exec (Console W) ℕ
unfolding error_line
handled (raised (mailbox_error e)) = print (error_line e) >> pure 1
handled (raised (message_gone e)) = print (error_line e) >> pure 1
handled (raised (config_error e)) = print (error_line e) >> pure 1
handled outcome = λ c. (outcome, c)
