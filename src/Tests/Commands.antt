-- ===== src/Tests/Commands.antt =====
-- cli.py at the server in memory.
use mail_transporter.Base.{
  refl, false, [], ◌∷◌, text, text_eq, text_mem, lower, lower_char, is_ascii, sorted, All,
  normalise, rewrap, ok,
}
use mail_transporter.Imap.Client.{remote, client, matches}
use mail_transporter.Imap.Session.{open_session, connect, adopt}
use mail_transporter.Imap.Queries.{
  criteria, exclude, inbox_round, fetch_flags, inbox_flags, flags_by_uid, search_keyword,
  uids_where,
}
use mail_transporter.Imap.Keywords.{
  remove_keyword, removed, recheck, cleared, encoded, asked_again, carries,
}
use mail_transporter.Imap.Moves.{Logged, logged}
use mail_transporter.Config.Keywords.{Keywords}
use mail_transporter.Cli.{
  Console, RetryArgs, within, leave, clear_one, clear_each, retry_all, retry_session, retry_opened,
  cmd_retry, mark_each,
}
use mail_transporter.Cli.Retry.{Retried, cmd_retry-reports}
use mail_transporter.Cli.Marked.{IsFair, mark_each-IsFair}
use mail_transporter.Tests.Server.{Server, server, account, inbox, box, failed_flag}

abbrev keywords : Keywords
keywords = record { inserted = 36 ∷ 105 ∷ []; failed = failed_flag; unverified = 36 ∷ 117 ∷ [] }

abbrev console : {W : Type 0} → W → Console W
console world = record { box = box false world; printed = [] }

abbrev args : RetryArgs
args = record { uids = 4 ∷ 7 ∷ []; every = false; unverified = false; yes = false }

cmd_retry-reports_example :
    Retried server account failed_flag
      (4 ∷ [])
      (4 ∷ 7 ∷ [])
      (search_keyword server account failed_flag (connect server account (box false inbox)).1).1
      []
      (cmd_retry server account args (ok keywords) (console inbox)).1
unfolding cmd_retry retry_opened within leave retry_session retry_all clear_each clear_one connect
    open_session adopt search_keyword uids_where inbox_flags inbox_round fetch_flags flags_by_uid
    criteria exclude remote client matches remove_keyword removed recheck cleared encoded
    asked_again carries sorted normalise rewrap text text_eq text_mem lower lower_char is_ascii
    server inbox
cmd_retry-reports_example =
    cmd_retry-reports server account args keywords (4 ∷ []) (console inbox) 0 refl refl refl refl

abbrev unsaid : Console (Logged Server)
unsaid = console (record { world = inbox; commands = [] })

mark_each-IsFair_example :
    All
      (IsFair keywords ((7, []) ∷ []))
      (mark_each
        (logged server)
        account
        keywords
        ((7, []) ∷ [])
        false
        (7 ∷ [])
        unsaid).1.box.world.commands
mark_each-IsFair_example =
    mark_each-IsFair server account keywords ((7, []) ∷ []) false (7 ∷ []) unsaid tt
