-- ===== src/Tests/Fakes.antt =====
-- A mailbox, a Gmail account and a clock in memory, as `FakeMailbox` and `FakeGmail` of
-- tests/conftest.py. Gmail refuses an empty message for good.
use mail_transporter.Base.{
  ℕ, ◌+◌, not, Option, none, some, List, [], ◌∷◌, map, Text, text, first, keep, Result, ok, raised,
  message_gone, gmail_error, permanent, ◌==◌, if◌then◌else◌,
}
use mail_transporter.Message.{FetchedMessage}
use mail_transporter.Ports.{Mailbox, Gmail, Ports}
use mail_transporter.Imap.Client.{matches}
use mail_transporter.Forwarder.Errors.{IsDeclared, Raises, IsMailboxError, IsGmailError}

pub record Account : Type 0 where
  pub inbox : List FetchedMessage
  pub sent : List Text
  pub trash : List ℕ
  pub ticks : ℕ

abbrev found_or_gone : Option FetchedMessage → Result FetchedMessage
found_or_gone none = raised (message_gone [])
found_or_gone (some m) = ok m

abbrev flag_up : ℕ → Text → FetchedMessage → FetchedMessage
flag_up uid keyword m = if m.uid == uid then record m { flags = keyword ∷ m.flags } else m

abbrev remove : ℕ → Account → Account
remove uid a = record a { inbox = keep (λ m. not (m.uid == uid)) a.inbox }

abbrev accept : Text → Account → Result Text × Account
accept [] a = (
  raised (gmail_error (record { kind = permanent; message = text "empty"; status = some 400 })),
  a,
)
accept (c ∷ raw) a = (ok (text "id"), record a { sent = (c ∷ raw) ∷ a.sent })

abbrev fake_mailbox : Mailbox Account
fake_mailbox = record {
  connect = λ a. (ok tt, a);
  close = λ a. a;
  require_keywords = λ a. (ok tt, a);
  list_inbox_uids =
      λ keywords a. (ok (map (λ m. m.uid) (keep (λ m. not (matches m.flags keywords)) a.inbox)), a);
  fetch_message = λ uid a. (found_or_gone (first (λ m. m.uid == uid) a.inbox), a);
  add_keyword = λ uid keyword a. (ok tt, record a { inbox = map (flag_up uid keyword) a.inbox });
  move_to_trash = λ uid a. (ok tt, record (remove uid a) { trash = uid ∷ a.trash });
  move_to_folder = λ uid folder a. (ok tt, remove uid a);
}

abbrev fake_gmail : Gmail Account
fake_gmail = record {
  build = λ a. (ok tt, a);
  ensure_label = λ name a. (ok name, a);
  insert_raw = λ raw labels. accept raw;
}

abbrev pub fake : Ports Account
fake = record {
  mailbox = fake_mailbox;
  gmail = fake_gmail;
  clock = λ a. (a.ticks, record a { ticks = a.ticks + 1000 });
}

found-Raises : (o : Option FetchedMessage) → Raises IsMailboxError (found_or_gone o)
found-Raises none = tt
found-Raises (some m) = tt

accept-Raises : (raw : Text) (a : Account) → Raises IsGmailError (accept raw a).0
accept-Raises [] a = tt
accept-Raises (c ∷ raw) a = tt

pub fake-IsDeclared : IsDeclared fake
fake-IsDeclared = record {
  of_mailbox = record {
    connect = λ a. tt;
    require_keywords = λ a. tt;
    list_inbox_uids = λ keywords a. tt;
    fetch_message = λ uid a. found-Raises (first (λ m. m.uid == uid) a.inbox);
    add_keyword = λ uid keyword a. tt;
    move_to_trash = λ uid a. tt;
    move_to_folder = λ uid folder a. tt;
  };
  of_gmail = record {
    build = λ a. tt;
    ensure_label = λ name a. tt;
    insert_raw = λ raw labels a. accept-Raises raw a;
  };
}

abbrev message : ℕ → Text → List Text → FetchedMessage
message uid raw flags = record { uid = uid; raw = raw; flags = flags }

-- One new message, one that an earlier run inserted, and an empty one.
unfoldable pub three_messages : Account
unfolding text
three_messages = record {
  inbox =
      message 1 (text "one") []
      ∷ message 2 (text "two") (text "$gmailinserted" ∷ [])
      ∷ message 3 [] []
      ∷ [];
  sent = [];
  trash = [];
  ticks = 0;
}
