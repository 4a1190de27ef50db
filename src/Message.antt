-- ===== src/Message.antt =====
-- mailtransporter/imap_client.py: `FetchedMessage`.
use mail_transporter.Base.{ℕ, Bool, List, map, Text, text, text_mem, lower}

pub record FetchedMessage : Type 0 where
  pub uid : ℕ
  pub raw : Text
  pub flags : List Text

unfoldable pub seen : FetchedMessage → Bool
unfolding text text_mem
seen m = text_mem (text "\\Seen") m.flags

unfoldable pub flagged : FetchedMessage → Bool
unfolding text text_mem
flagged m = text_mem (text "\\Flagged") m.flags

-- IMAP flags are compared without regard to case.
unfoldable pub has_keyword : FetchedMessage → Text → Bool
unfolding text_mem lower
has_keyword m keyword = text_mem (lower keyword) (map lower m.flags)
