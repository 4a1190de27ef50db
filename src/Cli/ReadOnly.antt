-- ===== src/Cli/ReadOnly.antt =====
-- mailtransporter/cli.py: `_cmd_list` changes nothing in the mailbox.
use mail_transporter.Base.{
  ℕ, Bool, true, false, List, [], ◌∷◌, map, Text, text, Result, ok, raised, Exec, continue, attempt,
  pure, normalise, ◌≡◌, refl, sorted, ◌>>◌, length, if◌then◌else◌,
}
use mail_transporter.Base.Keeps.{Keeps, bind-Keeps, normalise-Keeps}
use mail_transporter.Imap.Client.{ImapClient, SelectInfo, Box, Account, direct, client, remote}
use mail_transporter.Imap.Session.{
  connect, open_session, adopt, close, after_logout, connect_failed,
}
use mail_transporter.Imap.Queries.{inbox_flags, inbox_round, fetch_flags, search_failed, criteria}
use mail_transporter.Imap.Headers.{EmailPackage, fetch_headers, header_fetch_failed, header_fields}
use mail_transporter.Secrets.Env.{Registry}
use mail_transporter.Config.Keywords.{Keywords, keywords_from_env}
use mail_transporter.Config.Settings.{ICloudSettings, icloud_from_env}
use mail_transporter.Runtime.Wiring.{Services}
use mail_transporter.Cli.{Console, print, on_session, leave, within}
use mail_transporter.Cli.Entries.{Entry, uid_of, entries_of, completed, collect}
use mail_transporter.Cli.Listing.{
  print_entry, print_each, print_entries, show_entries, list_session, list_opened, total_line,
}
use mail_transporter.Cli.Commands.{Shell, Opened, on_console, mailbox, list_with, list_command}

-- `P` survives every call of the client that only reads, and the login and logout.
pub record Reads {W : Type 0} (P : W → Type 0) (imap : ImapClient W) : Type 0 where
  pub create : (w : W) → P w → P (imap.create w).1
  pub login : (w : W) → P w → P (imap.login w).1
  -- `select_folder("INBOX", readonly=True)`
  pub select_inbox : (w : W) → P w → P (imap.select_inbox true w).1
  pub logout : (w : W) → P w → P (imap.logout w).1
  pub shutdown : (w : W) → P w → P (imap.shutdown w).1
  pub has_capability : (name : Text) (w : W) → P w → P (imap.has_capability name w).1
  pub search : (criteria : List Text) (w : W) → P w → P (imap.search criteria w).1
  pub fetch : (uids : List ℕ) (keys : List Text) (w : W) → P w → P (imap.fetch uids keys w).1

module _ {W : Type 0} (P : W → Type 0) (imap : ImapClient W) (reads : Reads P imap)
    (account : Account) where
  abbrev InBox : Box W → Type 0
  InBox b = P b.world

  abbrev InConsole : Console W → Type 0
  InConsole c = P c.box.world

  remote-Keeps : {A : Type 0} (m : Exec W A) → ((w : W) → P w → P (m w).1) → Keeps InBox (remote m)
  unfolding remote client
  remote-Keeps m h =
      bind-Keeps InBox client (λ (_ : Unit {0}). direct m) (λ b i. i) (λ a b i. h b.world i)

  fetch_flags-Keeps : (uids : List ℕ) → Keeps InBox (fetch_flags imap account uids)
  unfolding fetch_flags
  fetch_flags-Keeps [] = λ b h. h
  fetch_flags-Keeps (uid ∷ uids) = remote-Keeps _ (reads.fetch (uid ∷ uids) _)

  inbox_flags-Keeps : Keeps InBox (inbox_flags imap account)
  unfolding inbox_flags inbox_round
  inbox_flags-Keeps =
      bind-Keeps InBox (normalise search_failed (inbox_round imap account)) _
        (normalise-Keeps InBox search_failed (inbox_round imap account) (
          bind-Keeps InBox (remote (imap.search (criteria []))) _
            (remote-Keeps (imap.search (criteria [])) (reads.search (criteria [])))
            (λ found.
              bind-Keeps InBox (fetch_flags imap account (sorted found)) _
                (fetch_flags-Keeps (sorted found)) (λ fetched b h. h))))
        (λ found b h. h)

  fetch_headers-Keeps :
      (email : EmailPackage) (uids : List ℕ) → Keeps InBox (fetch_headers email imap account uids)
  unfolding fetch_headers
  fetch_headers-Keeps email [] = λ b h. h
  fetch_headers-Keeps email (uid ∷ uids) =
      let asks = remote (imap.fetch (uid ∷ uids) (header_fields ∷ [])) in
      bind-Keeps InBox (normalise header_fetch_failed asks) _
        (normalise-Keeps InBox header_fetch_failed asks (
          remote-Keeps (imap.fetch (uid ∷ uids) (header_fields ∷ []))
            (reads.fetch (uid ∷ uids) (header_fields ∷ []))))
        (λ fetched b h. h)

  collect-Keeps :
      (email : EmailPackage) (keywords : Keywords)
      → Keeps InBox (collect email imap account keywords)
  unfolding collect completed
  collect-Keeps email keywords =
      bind-Keeps InBox (inbox_flags imap account) _ inbox_flags-Keeps (λ flags.
        bind-Keeps InBox (fetch_headers email imap account (map uid_of (entries_of keywords flags)))
          _ (fetch_headers-Keeps email (map uid_of (entries_of keywords flags))) (λ headers b h. h))

  on_session-Keeps :
      {A : Type 0} (m : Exec (Box W) A) → Keeps InBox m → Keeps InConsole (on_session m)
  on_session-Keeps m h c i = h c.box i

  after_logout-Keeps :
      (outcome : Result (Unit {0})) (b : Box W)
      → P b.world
      → P (after_logout imap account outcome b).world
  unfolding after_logout
  after_logout-Keeps (ok _) b h = h
  after_logout-Keeps (raised e) b h = reads.shutdown b.world h

  if-world : (c : Bool) (b b' : Box W) → P b.world → P b'.world → P (if c then b else b').world
  if-world true b b' h k = h
  if-world false b b' h k = k

  close-Keeps : (b : Box W) → P b.world → P (close imap account b).world
  unfolding close
  close-Keeps b h = if-world b.is_open _ _ (after_logout-Keeps _ _ (reads.logout b.world h)) h

  print_each-same :
      (entries : List Entry) (c : Console W) → InConsole c → InConsole (print_each entries c).1
  unfolding print_each
  print_each-same [] c h = h
  print_each-same (entry ∷ entries) c h = print_each-same entries (print_entry entry c).1 h

  show_entries-Keeps :
      (as_json : Bool) (entries : List Entry) → Keeps InConsole (show_entries as_json entries)
  unfolding show_entries print_entries
  show_entries-Keeps true entries c h = h
  show_entries-Keeps false [] c h = h
  show_entries-Keeps false (entry ∷ entries) c h =
      bind-Keeps InConsole
        (print_each (entry ∷ entries) >> print (total_line (length (entry ∷ entries))))
        (λ (_ : Unit {0}). pure 0)
        (bind-Keeps InConsole (print_each (entry ∷ entries))
          (λ (_ : Unit {0}). print (total_line (length (entry ∷ entries))))
          (print_each-same (entry ∷ entries)) (λ _ c i. i))
        (λ _ c i. i) c h

  adopt-Keeps : (info : SelectInfo) → Keeps InBox (adopt imap account info)
  unfolding adopt
  adopt-Keeps info b h =
      bind-Keeps InBox (direct (imap.has_capability (text "IDLE"))) _
        (λ b' i. reads.has_capability (text "IDLE") b'.world i) (λ idle b' i. i) _ h

  module _ (readonly : account.readonly ≡ true) where
    open_session-Keeps : Keeps InBox (open_session imap account)
    unfolding open_session
    open_session-Keeps =
        bind-Keeps InBox (direct imap.create) _ (λ b h. reads.create b.world h)
          (λ _.
            bind-Keeps InBox (direct imap.login) _ (λ b h. reads.login b.world h)
              (λ _ b h. rw readonly (reads.select_inbox b.world h)))

    connect-Keeps : Keeps InBox (connect imap account)
    unfolding connect adopt
    connect-Keeps =
        bind-Keeps InBox (normalise connect_failed (open_session imap account)) _
          (normalise-Keeps InBox connect_failed (open_session imap account) open_session-Keeps)
          adopt-Keeps

    list_session-Keeps :
        (email : EmailPackage) (keywords : Keywords)
        → Keeps InConsole (list_session email imap account keywords)
    unfolding list_session within leave
    list_session-Keeps email keywords =
        let body = on_session (collect email imap account keywords) in
        bind-Keeps InConsole (on_session (connect imap account))
          (λ (_ : Unit {0}). attempt body (leave imap account))
          (on_session-Keeps (connect imap account) connect-Keeps)
          (λ _ c h. close-Keeps (body c).1.box (collect-Keeps email keywords c.box h))

    list_opened-Keeps :
        (email : EmailPackage) (as_json : Bool) (keywords : Keywords)
        → Keeps InConsole (list_opened email imap account as_json keywords)
    unfolding list_opened
    list_opened-Keeps email as_json keywords =
        bind-Keeps InConsole (list_session email imap account keywords) (show_entries as_json)
          (list_session-Keeps email keywords) (show_entries-Keeps as_json)

module _ {W : Type 0} (services : Services W) (email : EmailPackage) where
  -- The account is that which was asked for, if `_mailbox` returns.
  abbrev IsMode : Bool → Result Opened → Type 0
  IsMode readonly (ok m) = m.account.readonly ≡ readonly
  IsMode readonly (raised e) = Unit

  continue-IsMode :
      {A : Type 0} (readonly : Bool) (f : A → Exec Registry Opened) (outcome : Result A)
      (values : Registry)
      → ((a : A) (later : Registry) → IsMode readonly (f a later).0)
      → IsMode readonly (continue f outcome values).0
  continue-IsMode readonly f (ok a) values k = k a values
  continue-IsMode readonly f (raised e) values k = tt

  mailbox-IsMode :
      (readonly : Bool) (values : Registry)
      → IsMode readonly (mailbox services email readonly values).0
  unfolding mailbox
  mailbox-IsMode readonly values =
      continue-IsMode readonly _
        (icloud_from_env services.env services.fetch services.loads values).0
        (icloud_from_env services.env services.fetch services.loads values).1
        (λ icloud later.
          continue-IsMode readonly _ (keywords_from_env services.env) later (λ keywords last. refl))

  module _ (P : W → Type 0)
      (reads : (settings : ICloudSettings) → Reads P (services.imap_of settings)) where
    listed-Keeps :
        (as_json : Bool) (outcome : Result Opened) (s : Shell W)
        → IsMode true outcome
        → P s.world
        → P (continue (λ m. on_console (list_with services email as_json m)) outcome s).1.world
    unfolding list_with
    listed-Keeps as_json (ok m) s readonly h =
        list_opened-Keeps P (services.imap_of m.icloud) (reads m.icloud) m.account readonly email
          as_json m.keywords _ h
    listed-Keeps as_json (raised e) s readonly h = h

    -- What survives the calls of an IMAP client that only read (the login, the selection of the
    -- INBOX for reading, searches, fetches, the question for a capability, and the logout) survives
    -- `_cmd_list`, whether it returns or raises.
    pub list_command-reads :
        (as_json : Bool) (s : Shell W)
        → P s.world
        → P (list_command services email as_json s).1.world
    unfolding list_command
    list_command-reads as_json s h =
        listed-Keeps as_json _ (record s { registry = (mailbox services email true s.registry).1 })
          (mailbox-IsMode true s.registry) h
