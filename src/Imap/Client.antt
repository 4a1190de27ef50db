-- ===== src/Imap/Client.antt =====
-- The state of an `ICloudMailbox`, over the `IMAPClient` of the imapclient package, which is a
-- parameter: each of its methods is a call over the state of the world, and may raise anything.
-- Flags, folder names and capabilities are the decoded texts.
use mail_transporter.Base.{
  ℕ, Bool, Option, List, Text, text, text_mem, lower, map, Dict, any, Raised, Result, ok, raised,
  mailbox_error, message_gone, Exec, ◌>>◌, message_of, if◌then◌else◌,
}

-- What `select_folder` reports.
pub record SelectInfo : Type 0 where
  pub uidvalidity : ℕ
  pub permanent_flags : List Text

-- The response to a FETCH, for one UID: `FLAGS` and `BODY[]` if they were sent, where the inner
-- `none` of the body is the `None` that stands for NIL, and what was sent under other names, in its
-- order.
pub record Item : Type 0 where
  pub flags : Option (List Text)
  pub body : Option (Option Text)
  pub sections : List (Text × Text)

pub record ImapClient (W : Type 0) : Type 0 where
  -- the constructor, with host, port, TLS and timeout
  pub create : Exec W (Unit {0})
  pub login : Exec W (Unit {0})
  pub select_inbox : Bool → Exec W SelectInfo
  pub logout : Exec W (Unit {0})
  pub shutdown : Exec W (Unit {0})
  pub has_capability : Text → Exec W Bool
  pub search : List Text → Exec W (List ℕ)
  pub fetch : List ℕ → List Text → Exec W (Dict Item)
  pub add_flags : List ℕ → List Text → Exec W (Dict (List Text))
  pub remove_flags : List ℕ → List Text → Exec W (Dict (List Text))
  -- `find_special_folder(imapclient.TRASH)`
  pub find_trash : Exec W (Option Text)
  pub folder_exists : Text → Exec W Bool
  pub create_folder : Text → Exec W (Unit {0})
  pub move : List ℕ → Text → Exec W (Unit {0})
  pub copy : List ℕ → Text → Exec W (Unit {0})
  pub uid_expunge : List ℕ → Exec W (Unit {0})
  pub idle : Exec W (Unit {0})
  -- the number of untagged responses
  pub idle_check : ℕ → Exec W ℕ
  pub idle_done : Exec W (Unit {0})
  pub noop : Exec W (Unit {0})

-- The attributes of the object that change. `is_open` says that `_client` is not `None`.
pub record Box (W : Type 0) : Type 0 where
  pub world : W
  pub is_open : Bool
  pub trash_name : Option Text
  pub uidvalidity : ℕ
  pub supports_idle : Bool
  pub supports_keywords : Bool

-- The attributes that `__init__` fixes.
pub record Account : Type 0 where
  pub readonly : Bool
  pub skip_keywords : List Text

-- A call of a client that is at hand.
abbrev pub direct : {W A : Type 0} → Exec W A → Exec (Box W) A
direct m b = ((m b.world).0, record b { world = (m b.world).1 })

unfoldable pub not_connected : Raised
unfolding text
not_connected = mailbox_error (text "IMAP session is not connected")

-- The property `client`.
unfoldable pub client : {W : Type 0} → Exec (Box W) (Unit {0})
client b = (if b.is_open then ok tt else raised not_connected, b)

-- A call through the property.
unfoldable pub remote : {W A : Type 0} → Exec W A → Exec (Box W) A
unfolding client
remote m = do client; direct m

-- `except MailboxError: raise`, then `except Exception`
module _ {S A : Type 0} where
  unfoldable pub rewrap_other : (Text → Text) → Result A → Exec S A
  rewrap_other f (ok a) s = (ok a, s)
  rewrap_other f (raised (mailbox_error t)) s = (raised (mailbox_error t), s)
  rewrap_other f (raised (message_gone t)) s = (raised (message_gone t), s)
  rewrap_other f (raised e) s = (raised (mailbox_error (f (message_of e))), s)

-- `_matches`
unfoldable pub matches : List Text → List Text → Bool
unfolding text_mem lower
matches flags keywords = any (λ keyword. text_mem (lower keyword) (map lower flags)) keywords
