-- ===== src/Tests/Lists.antt =====
-- The listing of cli.py at the server in memory.
use mail_transporter.Base.{
  ◌≡◌, ◌↔◌, refl, true, some, List, [], ◌∷◌, map, Text, text, text_eq, text_mem, lower, lower_char,
  In, Dict, sorted, normalise, rewrap, starts_with, ok,
}
use mail_transporter.Imap.Client.{Box, remote, client}
use mail_transporter.Imap.Queries.{
  criteria, exclude, inbox_round, fetch_flags, inbox_flags, flags_by_uid,
}
use mail_transporter.Imap.Headers.{
  EmailPackage, Headers, fetch_headers, headers_by_uid, headers_of, raw_headers, parsed_get,
  decode_header, header_fields,
}
use mail_transporter.Imap.Listing.{IsSorted}
use mail_transporter.Config.Keywords.{Keywords}
use mail_transporter.Cli.Entries.{
  Entry, uid_of, collect, entries_of, entry_of, quarantine_keyword, is_in_gmail,
}
use mail_transporter.Cli.Quarantined.{IsQuarantined, collect-IsQuarantined}
use mail_transporter.Tests.Server.{Server, server, account, inbox, box, failed_flag}

-- A parser that finds one subject, and a decoder that leaves it as it is.
abbrev pub email : EmailPackage
email = record { header_of = λ raw name. some (120 ∷ []); decoded = λ value. some value }

abbrev keywords : Keywords
keywords = record { inserted = 36 ∷ 105 ∷ []; failed = failed_flag; unverified = 36 ∷ 117 ∷ [] }

abbrev session : Box Server
session = box true inbox

abbrev seen_flags : Dict (List Text)
seen_flags = (4, failed_flag ∷ []) ∷ (7, []) ∷ []

abbrev header : Headers
header = record { date = 120 ∷ []; sender = 120 ∷ []; subject = 120 ∷ [] }

collect-IsQuarantined_example :
    (entries : List Entry) × ((collect email server account keywords session).0 ≡ ok entries)
    × IsSorted (map uid_of entries)
    × ((e : Entry) → In e entries ↔ IsQuarantined keywords seen_flags ((4, header) ∷ []) e)
unfolding inbox_flags inbox_round fetch_flags flags_by_uid criteria exclude remote client sorted
    normalise rewrap text text_eq text_mem lower lower_char server inbox fetch_headers
    headers_by_uid headers_of raw_headers parsed_get decode_header header_fields entries_of entry_of
    quarantine_keyword is_in_gmail starts_with
collect-IsQuarantined_example =
    collect-IsQuarantined email server account session keywords seen_flags ((4, header) ∷ []) refl
      refl
