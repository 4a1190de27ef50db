-- ===== src/Runtime.antt =====
-- mailtransporter/runtime.py: `build_mailbox` and `build_forwarder`, the collaborators of a
-- `Forwarder` put together from the two clients, which share the world.
pub mod Returns
pub mod Wiring
use mail_transporter.Base.{ℕ, Bool, false, none, List, [], Text, Result, Exec}
use mail_transporter.Ports.{Mailbox, Gmail, Ports}
use mail_transporter.Imap.Client.{ImapClient, Box, Account}
use mail_transporter.Imap.Port.{icloud_mailbox}
use mail_transporter.Gmail.Api.{Api}
use mail_transporter.Gmail.Client.{Session, gmail_client}
use mail_transporter.Forwarder.State.{ForwarderOptions, quarantine_keywords}

-- The session object, whose state holds the world, and the labels that the Gmail client has cached.
pub record Live (W : Type 0) : Type 0 where
  pub box : Box W
  pub label_cache : List (Text × Text)

-- `ICloudMailbox(…)`
abbrev pub new_box : {W : Type 0} → W → Box W
new_box world = record {
  world = world;
  is_open = false;
  trash_name = none;
  uidvalidity = 0;
  supports_idle = false;
  supports_keywords = false;
}

abbrev pub on_box : {W A : Type 0} → Exec (Box W) A → Exec (Live W) A
on_box m l = ((m l.box).0, record l { box = (m l.box).1 })

abbrev pub session_of : {W : Type 0} → Live W → Session W
session_of l = record { world = l.box.world; label_cache = l.label_cache }

abbrev pub on_gmail : {W A : Type 0} → Exec (Session W) A → Exec (Live W) A
on_gmail m l =
    let (outcome, s) = m (session_of l) in
    (outcome, record { box = record l.box { world = s.world }; label_cache = s.label_cache })

-- `build_mailbox(settings)`: the session may write, and knows the quarantine keywords.
abbrev pub built_account : ForwarderOptions → Account
built_account options = record { readonly = false; skip_keywords = quarantine_keywords options }

module _ {W : Type 0} (imap : ImapClient W) (api : Api W) (options : ForwarderOptions) where
  -- `mailbox_factory()`: each run has a new session.
  abbrev live_mailbox : Mailbox (Live W)
  live_mailbox =
      let mailbox = icloud_mailbox imap (built_account options) in
      record {
        connect = λ l. on_box mailbox.connect (record l { box = new_box l.box.world });
        close = λ l. record l { box = mailbox.close l.box };
        require_keywords = on_box mailbox.require_keywords;
        list_inbox_uids = λ keywords. on_box (mailbox.list_inbox_uids keywords);
        fetch_message = λ uid. on_box (mailbox.fetch_message uid);
        add_keyword = λ uid keyword. on_box (mailbox.add_keyword uid keyword);
        move_to_trash = λ uid. on_box (mailbox.move_to_trash uid);
        move_to_folder = λ uid folder. on_box (mailbox.move_to_folder uid folder);
      }

  -- `gmail_factory()`
  abbrev live_gmail : Gmail (Live W)
  live_gmail =
      let gmail = gmail_client api in
      record {
        build = on_gmail gmail.build;
        ensure_label = λ name. on_gmail (gmail.ensure_label name);
        insert_raw = λ raw labels. on_gmail (gmail.insert_raw raw labels);
      }

  -- `build_forwarder`, with the clock of the world.
  abbrev pub live_ports : (W → ℕ × W) → Ports (Live W)
  live_ports clock = record {
    mailbox = live_mailbox;
    gmail = live_gmail;
    clock = λ l.
        let (now, world) = clock l.box.world in
        (now, record l { box = record l.box { world = world } });
  }
