-- ===== src/Cli/Marked.antt =====
-- mailtransporter/cli.py: which messages `_cmd_mark_failed` marks. The session writes its commands
-- down.
use mail_transporter.Base.{
  ℕ, Bool, true, false, ◌≡◌, refl, List, [], ◌∷◌, map, Text, text, text_mem, lower, is_ascii,
  lookup, Dict, All, Raised, Result, ok, raised, Exec, continue, pure, ◌>>◌, ◌>>=◌, if◌then◌else◌,
  normalise,
}
use mail_transporter.Base.Keeps.{Keeps, bind-Keeps, if-Keeps, normalise-Keeps}
use mail_transporter.Imap.Client.{ImapClient, Box, Account, client, direct, remote}
use mail_transporter.Imap.Keywords.{
  add_keyword, added, checked, confirmed, encoded, asked_again, carries, or_empty, store_failed,
}
use mail_transporter.Imap.Moves.{Command, flagged, Logged, logged}
use mail_transporter.Config.Keywords.{Keywords}
use mail_transporter.Cli.{Console, on_session, print, mark_one, mark_each, marked_line}

module _ {W : Type 0} (imap : ImapClient W) (P : Command → Type 0) where
  abbrev Holds : Box (Logged W) → Type 0
  Holds b = All P b.world.commands

  asked_again-Keeps : (uid : ℕ) → Keeps Holds (asked_again (logged imap) uid)
  unfolding asked_again remote client
  asked_again-Keeps uid =
      let fetch = direct ((logged imap).fetch (uid ∷ []) (text "FLAGS" ∷ [])) in
      bind-Keeps Holds (remote ((logged imap).fetch (uid ∷ []) (text "FLAGS" ∷ []))) _
        (bind-Keeps Holds client (λ (_ : Unit {0}). fetch) (λ b h. h) (λ a b h. h)) (λ a b h. h)

  checked-Keeps :
      (uid : ℕ) (keyword : Text) (flags : List Text)
      → Keeps Holds (checked (logged imap) uid keyword flags)
  unfolding checked
  checked-Keeps uid keyword flags =
      if-Keeps Holds (carries keyword flags) (pure flags) (asked_again (logged imap) uid) (λ b h. h)
        (asked_again-Keeps uid)

  module _ (uid : ℕ) (keyword : Text)
      (p : (outcome : Result (Dict (List Text)))
        → P (flagged (uid ∷ []) (keyword ∷ []) outcome)) where
    stored-Keeps :
        (atom : Text)
        → atom ≡ keyword
        → Keeps Holds (
            direct ((logged imap).add_flags (uid ∷ []) (atom ∷ [])) >>= λ response.
            checked (logged imap) uid keyword (or_empty (lookup uid response)))
    stored-Keeps atom e =
        bind-Keeps Holds (direct ((logged imap).add_flags (uid ∷ []) (atom ∷ []))) _
          (λ b h. (rw e (p _), h))
          (λ response. checked-Keeps uid keyword (or_empty (lookup uid response)))

    encoded-Keeps :
        (ascii : Bool) (x : Raised) (f : Text → Exec (Box (Logged W)) (List Text))
        → ((atom : Text) → atom ≡ keyword → Keeps Holds (f atom))
        → Keeps Holds (continue f (if ascii then ok keyword else raised x))
    encoded-Keeps true x f k = k keyword refl
    encoded-Keeps false x f k = λ b h. h

    added-Keeps : Keeps Holds (added (logged imap) uid keyword)
    unfolding added encoded client
    added-Keeps =
        bind-Keeps Holds client _ (λ b h. h)
          (λ (_ : Unit {0}). encoded-Keeps (is_ascii keyword) _ _ stored-Keeps)

    -- Whether it succeeds or not, `add_keyword` gives at most the one command.
    add_keyword-Keeps : Keeps Holds (add_keyword (logged imap) uid keyword)
    unfolding add_keyword confirmed
    add_keyword-Keeps =
        bind-Keeps Holds
          (normalise (store_failed (text "+") keyword uid) (added (logged imap) uid keyword)) _
          (normalise-Keeps Holds (store_failed (text "+") keyword uid)
            (added (logged imap) uid keyword) added-Keeps)
          (λ flags b h. h)

-- The flags that were read for the message do not hold the inserted keyword.
abbrev pub IsUnsent : Keywords → Dict (List Text) → ℕ → Type 0
IsUnsent keywords flags uid =
    text_mem (lower keywords.inserted) (map lower (or_empty (lookup uid flags))) ≡ false

-- A command that marks one message as failed, which is not known to be in Gmail.
abbrev pub IsFair : Keywords → Dict (List Text) → Command → Type 0
IsFair keywords flags (flagged uids atoms outcome) =
    (uid : ℕ) × (uids ≡ uid ∷ []) × (atoms ≡ keywords.failed ∷ []) × IsUnsent keywords flags uid
IsFair keywords flags _ = ⊥

module _ {W : Type 0} (imap : ImapClient W) (account : Account) (keywords : Keywords)
    (flags : Dict (List Text)) where
  abbrev Fair : Console (Logged W) → Type 0
  Fair c = All (IsFair keywords flags) c.box.world.commands

  marked-Keeps :
      (uid : ℕ)
      → IsUnsent keywords flags uid
      → Keeps Fair (
          on_session (add_keyword (logged imap) uid keywords.failed)
          >> print (marked_line uid keywords.failed)
          >> pure false)
  marked-Keeps uid u =
      let marks = on_session (add_keyword (logged imap) uid keywords.failed) in
      bind-Keeps Fair (marks >> print (marked_line uid keywords.failed))
        (λ (_ : Unit {0}). pure false)
        (bind-Keeps Fair marks (λ (_ : Unit {0}). print (marked_line uid keywords.failed))
          (λ c h.
            add_keyword-Keeps imap (IsFair keywords flags) uid keywords.failed
              (λ outcome. (uid, refl, refl, u)) c.box h)
          (λ a c h. h))
        (λ a c h. h)

  mark_one-Keeps :
      (sent : Bool) (uid : ℕ)
      → text_mem (lower keywords.inserted) (map lower (or_empty (lookup uid flags))) ≡ sent
      → Keeps Fair (mark_one (logged imap) account keywords flags uid)
  unfolding mark_one
  mark_one-Keeps true uid e = rw e (λ c h. h)
  mark_one-Keeps false uid e = rw e (marked-Keeps uid e)

  -- If the commands so far mark as failed only messages whose flags, as they were read, do not hold
  -- the inserted keyword, then so do those that the loop of `_cmd_mark_failed` adds, whatever the
  -- server answers.
  pub mark_each-IsFair :
      (refused : Bool) (uids : List ℕ) (c : Console (Logged W))
      → All (IsFair keywords flags) c.box.world.commands
      → All
          (IsFair keywords flags)
          (mark_each (logged imap) account keywords flags refused uids c).1.box.world.commands
  unfolding mark_each
  mark_each-IsFair refused [] c h = h
  mark_each-IsFair refused (uid ∷ uids) c h =
      bind-Keeps Fair (mark_one (logged imap) account keywords flags uid)
        (λ now_refused.
          mark_each (logged imap) account keywords flags (if now_refused then true else refused)
            uids)
        (mark_one-Keeps _ uid refl)
        (λ now_refused. mark_each-IsFair (if now_refused then true else refused) uids) c h
