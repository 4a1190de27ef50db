-- ===== src/Forwarder/Safety/Quarantine.antt =====
-- Every call that `Forwarder._quarantine` makes is justified.
use mail_transporter.Base.{
  ℕ, Bool, true, false, ◌≡◌, refl, inl, inr, List, ◌∷◌, Text, text, text_eq, Result, ok, raised,
  mailbox_error, message_gone, All, All-imp,
}
use mail_transporter.Ports.{Ports}
use mail_transporter.Forwarder.State.{Rejection, ForwarderOptions, Run}
use mail_transporter.Forwarder.Process.{moved_aside, set_aside, marked_aside, quarantine}
use mail_transporter.Forwarder.Trace.{Event, mark_done, Traced, traced}
use mail_transporter.Forwarder.Safety.{
  WasRejected, Reason, rejected_for, unverified_for, IsLastResort, Allowed, IsJustified,
}

abbrev pub HasEvidence : List Event → Rejection → Type 0
HasEvidence es j = WasRejected es j.uid j.error j.per_message

-- Evidence outlives later calls.
HasEvidence-later :
    (e : Event) (es : List Event) (j : Rejection) → HasEvidence es j → HasEvidence (e ∷ es) j
HasEvidence-later e es j (m, labels, g, f, i, k, t, p) = (m, labels, g, inr f, inr i, k, t, p)

pub Reason-later :
    (options : ForwarderOptions) (e : Event) (es : List Event) (uid : ℕ) (keyword folder : Text)
    → Reason options es uid keyword folder
    → Reason options (e ∷ es) uid keyword folder
Reason-later options e es uid keyword folder
      (rejected_for message per k f (m, labels, g, x, y, z, t, p)) =
    rejected_for message per k f (m, labels, g, inr x, inr y, z, t, p)
Reason-later options e es uid keyword folder (unverified_for k f (m, labels, id, g, x, y, z)) =
    unverified_for k f (m, labels, id, g, inr x, inr y, inr z)

-- The history is justified, and so is each entry of the list of rejections and of `pending`.
abbrev pub IsSafe : {S : Type 0} → ForwarderOptions → List Rejection → Run (Traced S) → Type 0
IsSafe options pending r =
    IsJustified options r.world.trace
    × All (HasEvidence r.world.trace) r.rejected
    × All (HasEvidence r.world.trace) pending

module _ {S : Type 0} (ports : Ports S) (options : ForwarderOptions)
    (pending : List Rejection) where
  open ports use {mailbox, gmail}

  -- One more justified call.
  abbrev pub after : Run (Traced S) → Event → S → Run (Traced S)
  after r e w = record r { world = record { world = w; trace = e ∷ r.world.trace } }

  pub after-IsSafe :
      (r : Run (Traced S)) (e : Event) (w : S)
      → Allowed options e r.world.trace
      → IsSafe options pending r
      → IsSafe options pending (after r e w)
  after-IsSafe r e w a h = (
    (a, h.0),
    All-imp _ _ r.rejected (HasEvidence-later e r.world.trace) h.1,
    All-imp _ _ pending (HasEvidence-later e r.world.trace) h.2,
  )

  moved_aside-IsSafe :
      (uid : ℕ) (outcome : Result Unit) (r : Run (Traced S))
      → IsSafe options pending r
      → IsSafe options pending (moved_aside (traced ports) options uid outcome r).1
  unfolding moved_aside
  moved_aside-IsSafe uid (ok _) r h = h
  moved_aside-IsSafe uid (raised (mailbox_error e)) r h = h
  moved_aside-IsSafe uid (raised (message_gone e)) r h = h
  moved_aside-IsSafe uid (raised _) r h = h

  set_aside-IsSafe :
      (uid : ℕ) (keyword folder : Text) (r : Run (Traced S))
      → Reason options r.world.trace uid keyword folder
      → IsLastResort options uid keyword r.world.trace
      → IsSafe options pending r
      → IsSafe options pending (set_aside (traced ports) options uid folder r).1
  unfolding set_aside
  set_aside-IsSafe uid keyword folder r why last h =
      moved_aside-IsSafe uid _ _ (
        after-IsSafe r _ (mailbox.move_to_folder uid folder r.world.world).1 (keyword, why, last) h)

  marked_aside-IsSafe :
      (uid : ℕ) (keyword folder : Text) (outcome : Result Unit) (r : Run (Traced S))
      (rest : List Event)
      → r.world.trace ≡ mark_done uid keyword outcome ∷ rest
      → Reason options r.world.trace uid keyword folder
      → IsSafe options pending r
      → IsSafe options pending (marked_aside (traced ports) options uid folder outcome r).1
  unfolding marked_aside
  marked_aside-IsSafe uid keyword folder (ok _) r rest e why h = h
  marked_aside-IsSafe uid keyword folder (raised (mailbox_error x)) r rest e why h =
      set_aside-IsSafe uid keyword folder r why (inr (mailbox_error x, rest, e)) h
  marked_aside-IsSafe uid keyword folder (raised (message_gone x)) r rest e why h =
      set_aside-IsSafe uid keyword folder r why (inr (message_gone x, rest, e)) h
  marked_aside-IsSafe uid keyword folder (raised _) r rest e why h = h

  quarantine_by-IsSafe :
      (by_keyword : Bool) (uid : ℕ) (keyword folder : Text) (r : Run (Traced S))
      → text_eq options.quarantine_mode (text "keyword") ≡ by_keyword
      → Reason options r.world.trace uid keyword folder
      → IsSafe options pending r
      → IsSafe options pending (quarantine (traced ports) options uid keyword folder r).1
  unfolding quarantine
  quarantine_by-IsSafe true uid keyword folder r mode why h = rw mode (
      marked_aside-IsSafe uid keyword folder _ _ _ refl
        (Reason-later options _ _ uid keyword folder why)
        (after-IsSafe r _ (mailbox.add_keyword uid keyword r.world.world).1 (inr (folder, why)) h))
  quarantine_by-IsSafe false uid keyword folder r mode why h =
      rw mode (set_aside-IsSafe uid keyword folder r why (inl mode) h)

  pub quarantine-IsSafe :
      (uid : ℕ) (keyword folder : Text) (r : Run (Traced S))
      → Reason options r.world.trace uid keyword folder
      → IsSafe options pending r
      → IsSafe options pending (quarantine (traced ports) options uid keyword folder r).1
  quarantine-IsSafe uid keyword folder r why h =
      quarantine_by-IsSafe _ uid keyword folder r refl why h
