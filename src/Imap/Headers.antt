-- ===== src/Imap/Headers.antt =====
-- mailtransporter/imap_client.py: `fetch_headers` and `_decode_header`, over the email package.
use mail_transporter.Base.{
  ℕ, ◌++◌, Option, none, some, List, [], ◌∷◌, Text, text, first, starts_with, Dict, lookup, insert,
  Exec, pure, ◌>>=◌, normalise,
}
use mail_transporter.Imap.Client.{ImapClient, Item, Box, Account, remote}

-- `BytesHeaderParser().parsebytes(raw).get(name)`, and `str(make_header(decode_header(value)))`,
-- which is `none` where it raises.
pub record EmailPackage : Type 0 where
  pub header_of : Text → Text → Option Text
  pub decoded : Text → Option Text

-- The dict of one message, with the keys "date", "from" and "subject".
pub record Headers : Type 0 where
  pub date : Text
  pub sender : Text
  pub subject : Text

unfoldable pub header_fetch_failed : Text → Text
unfolding text
header_fetch_failed e = text "IMAP header fetch failed: " ++ e

unfoldable pub header_fields : Text
unfolding text
header_fields = text "BODY.PEEK[HEADER.FIELDS (DATE FROM SUBJECT)]"

abbrev pub section_value : Option (Text × Text) → Option Text
section_value none = none
section_value (some (name, value)) = some value

-- `(fetched.get(uid) or {}).items()`, as far as its keys can be names of sections
abbrev pub sections_of : Option Item → List (Text × Text)
sections_of none = []
sections_of (some item) = item.sections

-- The first value whose key starts with "BODY[HEADER".
unfoldable pub raw_headers : Option Item → Option Text
unfolding text starts_with
raw_headers item = section_value (
    first (λ (section : Text × Text). starts_with (text "BODY[HEADER") section.0)
      (sections_of item))

abbrev pub or_value : Text → Option Text → Text
or_value value none = value
or_value value (some decoded) = decoded

module _ (email : EmailPackage) where
  -- `_decode_header`
  unfoldable pub decode_header : Option Text → Text
  decode_header none = []
  decode_header (some []) = []
  decode_header (some (c ∷ value)) = or_value (c ∷ value) (email.decoded (c ∷ value))

  -- `parsed.get(name)`; `parsed` is empty if nothing was sent.
  unfoldable pub parsed_get : Option Text → Text → Option Text
  parsed_get none name = none
  parsed_get (some []) name = none
  parsed_get (some (c ∷ raw)) name = email.header_of (c ∷ raw) name

  unfoldable pub headers_of : Option Text → Headers
  unfolding decode_header parsed_get text
  headers_of raw = record {
    date = decode_header (parsed_get raw (text "Date"));
    sender = decode_header (parsed_get raw (text "From"));
    subject = decode_header (parsed_get raw (text "Subject"));
  }

  -- The loop of `fetch_headers`.
  unfoldable pub headers_by_uid : Dict Item → List ℕ → Dict Headers → Dict Headers
  unfolding raw_headers headers_of
  headers_by_uid fetched [] headers = headers
  headers_by_uid fetched (uid ∷ uids) headers =
      headers_by_uid fetched uids
        (insert uid (headers_of (raw_headers (lookup uid fetched))) headers)

  module _ {W : Type 0} (imap : ImapClient W) (account : Account) where
    unfoldable pub fetch_headers : List ℕ → Exec (Box W) (Dict Headers)
    unfolding normalise remote header_fields headers_by_uid
    fetch_headers [] = pure []
    fetch_headers (uid ∷ uids) = do
      fetched ←
          normalise header_fetch_failed (remote (imap.fetch (uid ∷ uids) (header_fields ∷ [])))
      pure (headers_by_uid fetched (uid ∷ uids) [])
