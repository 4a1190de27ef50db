-- ===== src/Forwarder/Trace.antt =====
-- The calls that a run makes, as a history. `traced` wraps the collaborators of a `Forwarder`, and
-- leaves them and their outcomes as they are.
use mail_transporter.Base.{ℕ, List, ◌∷◌, Text, Result, Exec}
use mail_transporter.Message.{FetchedMessage}
use mail_transporter.Ports.{Mailbox, Gmail, Ports}

-- A call with its outcome.
pub data Event : Type 0 where
  fetch_done : ℕ → Result FetchedMessage → Event
  insert_done : Text → List Text → Result Text → Event
  mark_done : ℕ → Text → Result (Unit {0}) → Event
  trash_done : ℕ → Result (Unit {0}) → Event
  move_done : ℕ → Text → Result (Unit {0}) → Event

-- The latest event stands first.
pub record Traced (S : Type 0) : Type 0 where
  pub world : S
  pub trace : List Event

abbrev pub silent : {S A : Type 0} → Exec S A → Exec (Traced S) A
silent m t = ((m t.world).0, record t { world = (m t.world).1 })

abbrev pub noted : {S A : Type 0} → (Result A → Event) → Exec S A → Exec (Traced S) A
noted note m t =
    ((m t.world).0, record { world = (m t.world).1; trace = note (m t.world).0 ∷ t.trace })

module _ {S : Type 0} (ports : Ports S) where
  open ports use {mailbox, gmail, clock}

  abbrev traced_mailbox : Mailbox (Traced S)
  traced_mailbox = record {
    connect = silent mailbox.connect;
    close = λ t. record t { world = mailbox.close t.world };
    require_keywords = silent mailbox.require_keywords;
    list_inbox_uids = λ keywords. silent (mailbox.list_inbox_uids keywords);
    fetch_message = λ uid. noted (fetch_done uid) (mailbox.fetch_message uid);
    add_keyword = λ uid keyword. noted (mark_done uid keyword) (mailbox.add_keyword uid keyword);
    move_to_trash = λ uid. noted (trash_done uid) (mailbox.move_to_trash uid);
    move_to_folder = λ uid folder. noted (move_done uid folder) (mailbox.move_to_folder uid folder);
  }

  abbrev traced_gmail : Gmail (Traced S)
  traced_gmail = record {
    build = silent gmail.build;
    ensure_label = λ name. silent (gmail.ensure_label name);
    insert_raw = λ raw labels. noted (insert_done raw labels) (gmail.insert_raw raw labels);
  }

  abbrev pub traced : Ports (Traced S)
  traced = record {
    mailbox = traced_mailbox;
    gmail = traced_gmail;
    clock = λ t. ((clock t.world).0, record t { world = (clock t.world).1 });
  }
