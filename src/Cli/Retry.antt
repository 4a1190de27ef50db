-- ===== src/Cli/Retry.antt =====
-- mailtransporter/cli.py: what `_cmd_retry` has done and tells when it returns.
use mail_transporter.Base.{
  ℕ, Bool, true, false, not, ◌&&◌, ◌≡◌, refl, ◌∙◌, ap, List, [], ◌∷◌, Text, contains, sorted,
  Result, ok, raised, Exec, continue, attempt, pure, if◌then◌else◌, arith,
}
use mail_transporter.Imap.Client.{ImapClient, Box, Account}
use mail_transporter.Imap.Session.{connect, close}
use mail_transporter.Imap.Queries.{search_keyword}
use mail_transporter.Imap.Keywords.{remove_keyword}
use mail_transporter.Config.Keywords.{Keywords}
use mail_transporter.Cli.{
  Line, Console, print, RetryArgs, skipped_line, cleared_line, nothing_line, within, leave,
  clear_one, clear_each, retry_all, retry_session, retry_opened, cmd_retry,
}

-- The line for one UID.
abbrev pub verdict : Text → List ℕ → ℕ → Line
verdict keyword carrying uid =
    if contains uid carrying then cleared_line uid keyword else skipped_line uid keyword

-- One line for each UID, in their order.
abbrev pub reports : Text → List ℕ → List ℕ → List Line → List Line
reports keyword carrying [] lines = lines
reports keyword carrying (uid ∷ uids) lines =
    reports keyword carrying uids (verdict keyword carrying uid ∷ lines)

abbrev pub reports_all : Text → List ℕ → List ℕ → List Line → List Line
reports_all keyword carrying [] lines = nothing_line keyword ∷ lines
reports_all keyword carrying (uid ∷ uids) lines = reports keyword carrying (uid ∷ uids) lines

-- A call that returned has left a console of which `P` holds.
abbrev Ends : {W A : Type 0} → Result A × Console W → (Console W → Type 0) → Type 0
Ends (ok a, c) P = P c
Ends (raised e, c) P = Unit

module _ {W A : Type 0} where
  continue-Ends :
      {B : Type 0} (f : A → Exec (Console W) B) (x : Result A × Console W)
      (P Q : Console W → Type 0)
      → Ends x P
      → ((a : A) (c : Console W) → x.0 ≡ ok a → P c → Ends (f a c) Q)
      → Ends (continue f x.0 x.1) Q
  continue-Ends f (ok a, c) P Q h k = k a c refl h
  continue-Ends f (raised e, c) P Q h k = tt

  imp-Ends :
      (x : Result A × Console W) (P Q : Console W → Type 0)
      → ((c : Console W) → P c → Q c)
      → Ends x P
      → Ends x Q
  imp-Ends (ok a, c) P Q k h = k c h
  imp-Ends (raised e, c) P Q k h = tt

  at_end :
      (x : Result A × Console W) (a : A) (P : Console W → Type 0) → Ends x P → x.0 ≡ ok a → P x.1
  at_end (ok b, c) a P h e = h
  at_end (raised x, c) a P h e = cc

module _ {W : Type 0} (imap : ImapClient W) (account : Account) where
  -- `remove_keyword` has confirmed that the keyword of one message is cleared, if it was to be.
  abbrev pub ClearsOne : Bool → Text → ℕ → Box W → Box W → Type 0
  ClearsOne true keyword uid b b' = remove_keyword imap uid keyword b ≡ (ok tt, b')
  ClearsOne false keyword uid b b' = b' ≡ b

  -- From the session `b` to the session `b'`, the keyword has been cleared from those of the messages
  -- that carry it, in their order, and nothing else was done.
  abbrev pub Clears : Text → List ℕ → List ℕ → Box W → Box W → Type 0
  Clears keyword carrying [] b b' = b' ≡ b
  Clears keyword carrying (uid ∷ uids) b b' =
      (next : Box W) × ClearsOne (contains uid carrying) keyword uid b next
      × Clears keyword carrying uids next b'

  removed-Ends :
      (keyword : Text) (uid : ℕ) (c : Console W) (outcome : Result (Unit {0})) (b : Box W)
      → remove_keyword imap uid keyword c.box ≡ (outcome, b)
      → Ends
          (continue
            (λ (_ : Unit {0}). print (cleared_line uid keyword))
            outcome
            (record c { box = b }))
          (λ c'.
            (c'.printed ≡ cleared_line uid keyword ∷ c.printed)
            × ClearsOne true keyword uid c.box c'.box)
  removed-Ends keyword uid c (ok _) b e = (refl, e)
  removed-Ends keyword uid c (raised x) b e = tt

  one-Ends :
      (carries : Bool) (keyword : Text) (uid : ℕ) (c : Console W)
      → Ends
          ((if carries
              then clear_one imap account keyword uid
              else print (skipped_line uid keyword))
            c)
          (λ c'.
            (c'.printed
              ≡ (if carries then cleared_line uid keyword else skipped_line uid keyword)
                ∷ c.printed)
            × ClearsOne carries keyword uid c.box c'.box)
  unfolding clear_one
  one-Ends true keyword uid c = removed-Ends keyword uid c _ _ refl
  one-Ends false keyword uid c = (refl, refl)

  clear_each-Ends :
      (keyword : Text) (carrying uids : List ℕ) (c : Console W)
      → Ends (clear_each imap account keyword carrying uids c) (λ c'.
        (c'.printed ≡ reports keyword carrying uids c.printed)
        × Clears keyword carrying uids c.box c'.box)
  unfolding clear_each
  clear_each-Ends keyword carrying [] c = (refl, refl)
  clear_each-Ends keyword carrying (uid ∷ uids) c =
      continue-Ends (λ (_ : Unit {0}). clear_each imap account keyword carrying uids) _ _ _
        (one-Ends (contains uid carrying) keyword uid c)
        (λ _ c' e (line, clears).
          imp-Ends (clear_each imap account keyword carrying uids c') _ _
            (λ c'' (lines, rest).
              (lines ∙ ap (reports keyword carrying uids) line, (c'.box, clears, rest)))
            (clear_each-Ends keyword carrying uids c'))

  retry_all-Ends :
      (keyword : Text) (carrying uids : List ℕ) (c : Console W)
      → Ends (retry_all imap account keyword carrying uids c) (λ c'.
        (c'.printed ≡ reports_all keyword carrying uids c.printed)
        × Clears keyword carrying uids c.box c'.box)
  unfolding retry_all
  retry_all-Ends keyword carrying [] c = (refl, refl)
  retry_all-Ends keyword carrying (uid ∷ uids) c =
      let after : Console W → Type 0 = λ c'.
        (c'.printed ≡ reports keyword carrying (uid ∷ uids) c.printed)
        × Clears keyword carrying (uid ∷ uids) c.box c'.box in
      continue-Ends {W = W} {B = ℕ} (λ (_ : Unit {0}). pure 0)
        (clear_each imap account keyword carrying (uid ∷ uids) c) after after
        (clear_each-Ends keyword carrying (uid ∷ uids) c) (λ _ c' e h. h)

  abbrev pub keyword_of : RetryArgs → Keywords → Text
  keyword_of args keywords = if args.unverified then keywords.unverified else keywords.failed

  abbrev pub targets : RetryArgs → List ℕ → List ℕ
  targets args carrying = if args.every then sorted carrying else args.uids

  -- What the command leaves: the lines, and the session, closed after the keyword was cleared.
  abbrev pub Retried : Text → List ℕ → List ℕ → Box W → List Line → Console W → Type 0
  Retried keyword carrying uids found lines c =
      (c.printed ≡ reports_all keyword carrying uids lines)
      × ((last : Box W) × Clears keyword carrying uids found last
          × (c.box ≡ close imap account last))

  leave-Ends :
      (x : Result ℕ × Console W) (keyword : Text) (carrying uids : List ℕ) (found : Box W)
      (lines : List Line)
      → Ends x (λ c.
        (c.printed ≡ reports_all keyword carrying uids lines)
        × Clears keyword carrying uids found c.box)
      → Ends (leave imap account x.0 x.1) (Retried keyword carrying uids found lines)
  unfolding leave
  leave-Ends (ok a, c) keyword carrying uids found lines h = (h.0, (c.box, h.1, refl))
  leave-Ends (raised e, c) keyword carrying uids found lines h = tt

  found-Ends :
      (args : RetryArgs) (keyword : Text) (carrying : List ℕ) (outcome : Result (List ℕ))
      (c : Console W)
      → outcome ≡ ok carrying
      → Ends
          (continue (λ found. retry_all imap account keyword found (targets args found)) outcome c)
          (λ c'.
            (c'.printed ≡ reports_all keyword carrying (targets args carrying) c.printed)
            × Clears keyword carrying (targets args carrying) c.box c'.box)
  found-Ends args keyword carrying (ok found) c e =
      let same : found ≡ carrying = ground arith in
      rw same (retry_all-Ends keyword carrying (targets args carrying) c)
  found-Ends args keyword carrying (raised x) c e = tt

  if_false-Ends :
      (b : Bool) (x y : Exec (Console W) ℕ) (c : Console W) (P : Console W → Type 0)
      → b ≡ false
      → Ends (y c) P
      → Ends ((if b then x else y) c) P
  if_false-Ends true x y c P e h = absurd (ground arith)
  if_false-Ends false x y c P e h = h

  opened-Ends :
      (args : RetryArgs) (keyword : Text) (carrying : List ℕ) (c : Console W)
      (outcome : Result (Unit {0})) (b : Box W)
      → (search_keyword imap account keyword b).0 ≡ ok carrying
      → Ends
          (continue
            (λ (_ : Unit {0}).
              attempt (retry_session imap account args keyword) (leave imap account))
            outcome
            (record c { box = b }))
          (Retried keyword carrying
            (targets args carrying)
            (search_keyword imap account keyword b).1
            c.printed)
  unfolding retry_session
  opened-Ends args keyword carrying c (ok _) b found =
      leave-Ends (retry_session imap account args keyword (record c { box = b })) keyword carrying
        (targets args carrying) (search_keyword imap account keyword b).1 c.printed
        (found-Ends args keyword carrying (search_keyword imap account keyword b).0
          (record c { box = (search_keyword imap account keyword b).1 }) found)
  opened-Ends args keyword carrying c (raised e) b found = tt

  -- If the session opens, the search for the keyword succeeds and the command is confirmed where it
  -- needs to be and returns, then `remove_keyword` has confirmed, one after the other, that the
  -- keyword is cleared from each UID it was to act on that carries it, and nothing else was done to
  -- the session but closing it. One line was printed for each UID, in their order: that the keyword
  -- was cleared if the message carries it, and that it was skipped otherwise; or the line that no
  -- message carries the keyword if there was no UID.
  pub cmd_retry-reports :
      (args : RetryArgs) (keywords : Keywords) (carrying : List ℕ) (c : Console W) (code : ℕ)
      → (args.unverified && not args.yes) ≡ false
      → (connect imap account c.box).0 ≡ ok tt
      → (search_keyword imap account (keyword_of args keywords) (connect imap account c.box).1).0
        ≡ ok carrying
      → (cmd_retry imap account args (ok keywords) c).0 ≡ ok code
      → Retried
          (keyword_of args keywords)
          carrying
          (targets args carrying)
          (search_keyword imap account (keyword_of args keywords) (connect imap account c.box).1).1
          c.printed
          (cmd_retry imap account args (ok keywords) c).1
  unfolding cmd_retry retry_opened within
  cmd_retry-reports args keywords carrying c code confirmed opens found returns =
      at_end (cmd_retry imap account args (ok keywords) c) code _
        (if_false-Ends (args.unverified && not args.yes) _ _ c _ confirmed (
          opened-Ends args (keyword_of args keywords) carrying c (connect imap account c.box).0
            (connect imap account c.box).1 found))
        returns
