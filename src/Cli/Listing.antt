-- ===== src/Cli/Listing.antt =====
-- mailtransporter/cli.py: `_cmd_list`, given the session.
use mail_transporter.Base.{
  ℕ, ◌++◌, Bool, true, false, Option, none, some, List, [], ◌∷◌, length, Text, text, show_nat, Exec,
  pure, ◌>>=◌, ◌>>◌, if◌then◌else◌,
}
use mail_transporter.Json.{
  Value, boolean, number, string, list, dict, Values, end, value, Members, last, member, dumps,
}
use mail_transporter.Imap.Client.{ImapClient, Account}
use mail_transporter.Imap.Headers.{EmailPackage, Headers}
use mail_transporter.Config.Keywords.{Keywords}
use mail_transporter.Cli.{Console, Line, out, print, on_session, within}
use mail_transporter.Cli.Entries.{Entry, collect}

unfoldable pub header_members : Option Headers → Members
unfolding text
header_members none = last
header_members (some h) =
    member (text "date") (string h.date)
      (member (text "from") (string h.sender) (member (text "subject") (string h.subject) last))

unfoldable pub entry_value : Entry → Value
unfolding text header_members
entry_value entry = dict (
    member (text "uid") (number entry.uid) (
      member (text "keyword") (string entry.keyword)
        (member (text "in_gmail") (boolean entry.in_gmail) (header_members entry.headers))))

unfoldable pub entry_values : List Entry → Values
unfolding entry_value
entry_values [] = end
entry_values (entry ∷ entries) = value (entry_value entry) (entry_values entries)

-- `entry.get('date', '')`, and so on
abbrev pub header_or_empty : (Headers → Text) → Option Headers → Text
header_or_empty f none = []
header_or_empty f (some h) = f h

unfoldable pub where_line : Entry → Line
unfolding text show_nat
where_line entry = out (
    text "uid="
    ++ (show_nat entry.uid
        ++ (text " "
            ++ (entry.keyword
                ++ (text " ["
                    ++ ((if entry.in_gmail
                          then text "in Gmail (re-queuing duplicates it)"
                          else text "not in Gmail")
                        ++ text "]"))))))

unfoldable pub date_line : Entry → Line
unfolding text
date_line entry = out (text "    date:    " ++ header_or_empty (λ h. h.date) entry.headers)

unfoldable pub sender_line : Entry → Line
unfolding text
sender_line entry = out (text "    from:    " ++ header_or_empty (λ h. h.sender) entry.headers)

unfoldable pub subject_line : Entry → Line
unfolding text
subject_line entry = out (text "    subject: " ++ header_or_empty (λ h. h.subject) entry.headers)

unfoldable pub none_line : Line
unfolding text
none_line = out (text "No quarantined messages.")

unfoldable pub total_line : ℕ → Line
unfolding text show_nat
total_line n =
    out (10 ∷ (show_nat n ++ text " message(s). Re-queue with: mailtransporter retry --uid <UID>"))

module _ {W : Type 0} where
  unfoldable pub print_entry : Entry → Exec (Console W) (Unit {0})
  print_entry entry =
      print (where_line entry)
      >> print (date_line entry)
      >> print (sender_line entry)
      >> print (subject_line entry)

  unfoldable pub print_each : List Entry → Exec (Console W) (Unit {0})
  unfolding print_entry
  print_each [] = pure tt
  print_each (entry ∷ entries) = print_entry entry >> print_each entries

  unfoldable pub print_entries : List Entry → Exec (Console W) ℕ
  unfolding print_each
  print_entries [] = print none_line >> pure 0
  print_entries (entry ∷ entries) =
      print_each (entry ∷ entries) >> print (total_line (length (entry ∷ entries))) >> pure 0

  -- The statements below the `with` block.
  unfoldable pub show_entries : Bool → List Entry → Exec (Console W) ℕ
  unfolding dumps entry_values print_entries
  show_entries true entries = print (out (dumps false (list (entry_values entries)))) >> pure 0
  show_entries false entries = print_entries entries

module _ {W : Type 0} (email : EmailPackage) (imap : ImapClient W) (account : Account) where
  unfoldable pub list_session : Keywords → Exec (Console W) (List Entry)
  unfolding within collect
  list_session keywords = within imap account (on_session (collect email imap account keywords))

  unfoldable pub list_opened : Bool → Keywords → Exec (Console W) ℕ
  unfolding list_session show_entries
  list_opened as_json keywords = list_session keywords >>= show_entries as_json
