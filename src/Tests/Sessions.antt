-- ===== src/Tests/Sessions.antt =====
-- imap_client.py at the server in memory.
use mail_transporter.Base.{
  ◌≡◌, refl, true, false, [], ◌∷◌, Text, text, is_ascii, text_mem, text_eq, lower, lower_char,
  normalise, rewrap, raised, other,
}
use mail_transporter.Imap.Client.{Box, client, remote, rewrap_other}
use mail_transporter.Imap.Session.{open_session, connect}
use mail_transporter.Imap.Keywords.{
  add_keyword, added, checked, confirmed, encoded, asked_again, carries,
}
use mail_transporter.Imap.Folders.{move_to_folder, move_body, ensure_folder, with_move}
use mail_transporter.Imap.Port.{icloud_mailbox}
use mail_transporter.Imap.Errors.Methods.{icloud_mailbox-Raises, connect-capability_raises}
use mail_transporter.Imap.Confirm.{IsConfirmed, add_keyword-IsConfirmed}
use mail_transporter.Imap.Moves.{
  Logged, logged, IsOrderly, IsMoved, move_to_folder-IsOrderly, move_to_folder-IsMoved,
}
use mail_transporter.Forwarder.Errors.{MailboxRaises}
use mail_transporter.Tests.Server.{
  Server, server, server-SendsBodies, dropping, account, inbox, box,
}

icloud_mailbox-Raises_example : MailboxRaises (icloud_mailbox server account)
unfolding server
icloud_mailbox-Raises_example =
    icloud_mailbox-Raises server account (λ name w. (true, refl)) server-SendsBodies

abbrev keyword : Text
keyword = 36 ∷ 88 ∷ []

connect-capability_raises_example :
    ((connect dropping account (box false inbox)).0 ≡ raised (other []))
    × ((connect dropping account (box false inbox)).1.is_open ≡ true)
unfolding dropping server open_session
connect-capability_raises_example =
    connect-capability_raises dropping account (box false inbox)
      (record { uidvalidity = 1; permanent_flags = text "\\*" ∷ [] }) (other []) refl refl

add_keyword-IsConfirmed_example : IsConfirmed server 7 keyword (box true inbox)
unfolding add_keyword added checked confirmed encoded is_ascii text_mem text_eq lower lower_char
    server inbox carries asked_again remote client normalise rewrap text
add_keyword-IsConfirmed_example = add_keyword-IsConfirmed server 7 keyword (box true inbox) refl

abbrev unmoved : Box (Logged Server)
unmoved = box true (record { world = inbox; commands = [] })

move_to_folder-IsOrderly_example :
    IsOrderly 7 keyword (move_to_folder (logged server) 7 keyword unmoved).1.world.commands
move_to_folder-IsOrderly_example = move_to_folder-IsOrderly 7 keyword server unmoved tt

move_to_folder-IsMoved_example :
    IsMoved 7 keyword (move_to_folder (logged server) 7 keyword unmoved).1.world.commands
unfolding move_to_folder move_body ensure_folder with_move rewrap_other client remote server text
move_to_folder-IsMoved_example = move_to_folder-IsMoved 7 keyword server unmoved tt refl
