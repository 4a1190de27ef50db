-- ===== src/Imap/Port.antt =====
-- `ICloudMailbox` as the mailbox of the sync loop.
use mail_transporter.Base.{some}
use mail_transporter.Ports.{Mailbox}
use mail_transporter.Imap.Client.{ImapClient, Box, Account}
use mail_transporter.Imap.Session.{connect, close, require_keywords}
use mail_transporter.Imap.Queries.{list_inbox_uids, fetch_message}
use mail_transporter.Imap.Keywords.{add_keyword}
use mail_transporter.Imap.Folders.{move_to_trash, move_to_folder}

abbrev pub icloud_mailbox : {W : Type 0} → ImapClient W → Account → Mailbox (Box W)
icloud_mailbox imap account = record {
  connect = connect imap account;
  close = close imap account;
  require_keywords = require_keywords imap account;
  list_inbox_uids = λ keywords. list_inbox_uids imap account (some keywords);
  fetch_message = fetch_message imap account;
  add_keyword = add_keyword imap;
  move_to_trash = move_to_trash imap;
  move_to_folder = move_to_folder imap;
}
