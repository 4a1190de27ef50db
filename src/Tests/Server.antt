-- ===== src/Tests/Server.antt =====
-- An IMAP server in memory that refuses a SEARCH by keyword.
use mail_transporter.Base.{
  ℕ, ◌++◌, Bool, true, false, Option, none, some, List, [], ◌∷◌, map, Text, text, text_eq, Dict,
  lookup, insert, length, ltb, Result, ok, raised, other, if◌then◌else◌, arith,
}
use mail_transporter.Imap.Client.{ImapClient, Item, Box, Account}
use mail_transporter.Imap.Errors.Reading.{SentAt, SendsBodies}

pub record Server : Type 0 where
  pub flags : Dict (List Text)

abbrev uid_of : ℕ × List Text → ℕ
uid_of (uid, _) = uid

-- "BODY[HEADER" with "Subject: x"
abbrev pub header_section : List (Text × Text)
header_section =
    (
      66 ∷ 79 ∷ 68 ∷ 89 ∷ 91 ∷ 72 ∷ 69 ∷ 65 ∷ 68 ∷ 69 ∷ 82 ∷ [],
      83 ∷ 117 ∷ 98 ∷ 106 ∷ 101 ∷ 99 ∷ 116 ∷ 58 ∷ 32 ∷ 120 ∷ [],
    )
    ∷ []

abbrev item : ℕ × List Text → ℕ × Item
item (uid, flags) =
    (uid, record { flags = some flags; body = some (some (120 ∷ [])); sections = header_section })

abbrev known : Option (List Text) → List Text
known none = []
known (some flags) = flags

abbrev change : (List Text → List Text) → List ℕ → Server → Result (Dict (List Text)) × Server
change f [] w = (ok [], w)
change f (uid ∷ _) w =
    let flags = f (known (lookup uid w.flags)) in
    (ok ((uid, flags) ∷ []), record w { flags = insert uid flags w.flags })

unfoldable pub server : ImapClient Server
unfolding text text_eq
server = record {
  create = λ w. (ok tt, w);
  login = λ w. (ok tt, w);
  select_inbox =
      λ readonly w. (ok (record { uidvalidity = 1; permanent_flags = text "\\*" ∷ [] }), w);
  logout = λ w. (ok tt, w);
  shutdown = λ w. (ok tt, w);
  has_capability = λ name w. (ok true, w);
  search = λ criteria w.
      (if ltb 2 (length criteria) then raised (other []) else ok (map uid_of w.flags), w);
  fetch = λ uids parts w. (ok (map item w.flags), w);
  add_flags = λ uids atoms. change (λ flags. atoms ++ flags) uids;
  remove_flags = λ uids atoms. change (λ flags. []) uids;
  find_trash = λ w. (ok none, w);
  folder_exists = λ name w. (ok false, w);
  create_folder = λ name w. (ok tt, w);
  move = λ uids folder w. (ok tt, w);
  copy = λ uids folder w. (ok tt, w);
  uid_expunge = λ uids w. (ok tt, w);
  idle = λ w. (ok tt, w);
  idle_check = λ timeout w. (ok 0, w);
  idle_done = λ w. (ok tt, w);
  noop = λ w. (ok tt, w);
}

items-Sent : (d : Dict (List Text)) (uid : ℕ) → SentAt (lookup uid (map item d))
items-Sent [] uid = tt
items-Sent ((v, flags) ∷ d) uid = ground (arith, items-Sent d uid)

pub server-SendsBodies : SendsBodies server
unfolding server
server-SendsBodies uids names w = items-Sent w.flags

-- A server that loses the connection when it is asked for its capabilities.
unfoldable pub dropping : ImapClient Server
unfolding server
dropping = record server { has_capability = λ name w. (raised (other []), w) }

abbrev pub account : Account
account = record { readonly = false; skip_keywords = [] }

-- "$f"
abbrev pub failed_flag : Text
failed_flag = 36 ∷ 102 ∷ []

unfoldable pub inbox : Server
inbox = record { flags = (7, []) ∷ (4, failed_flag ∷ []) ∷ [] }

abbrev pub box : {W : Type 0} → Bool → W → Box W
box is_open w = record {
  world = w;
  is_open = is_open;
  trash_name = none;
  uidvalidity = 0;
  supports_idle = false;
  supports_keywords = true;
}
