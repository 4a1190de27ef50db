-- ===== src/Tests/Runs.antt =====
-- forwarder.py at the fakes.
use mail_transporter.Base.{
  ◌+◌, ◌≤◌, ◌≡◌, refl, none, [], ◌∷◌, text, ok, raised, other, true, text_eq, text_mem, lower,
  lower_char,
}
use mail_transporter.Base.Int.{negsuc}
use mail_transporter.Forwarder.State.{
  SyncResult, ForwarderOptions, Run, Rejection, empty_result, default_options, gmail_labels_for,
  quarantine_of,
}
use mail_transporter.Forwarder.Process.{
  is_per_message, moved_aside, set_aside, marked_aside, quarantine, trashed_lastly, trash, recorded,
  record_insert, reject, refused, inserted, insert_message, examine, fetched, process,
}
use mail_transporter.Message.{seen, flagged, has_keyword}
use mail_transporter.Imap.Client.{matches}
use mail_transporter.Forwarder.Loop.{
  run, connected, closing, session, labelling, extra_labels, listing, work, each, processed,
  out_of_time, settle_all, settle_if_any, settle_rejections, trip, breaker_trips, settle_each,
  settled, finish, ended,
}
use mail_transporter.Forwarder.Trace.{Traced, traced}
use mail_transporter.Forwarder.Safety.{IsJustified}
use mail_transporter.Forwarder.Safety.Loop.{run-IsJustified}
use mail_transporter.Forwarder.Accounting.{settled_count}
use mail_transporter.Forwarder.Ledger.{Tells, AreApart, tally, an_attempt}
use mail_transporter.Forwarder.Ledger.Total.{run-Tells, run-inserts}
use mail_transporter.Forwarder.Accounting.Total.{run-IsBounded, run-IsExact}
use mail_transporter.Forwarder.Errors.Total.{run_returns, settle_rejections-negative}
use mail_transporter.Tests.Fakes.{Account, fake, fake-IsDeclared, three_messages}

abbrev unstarted : Traced Account
unstarted = record { world = three_messages; trace = [] }

run-IsJustified_example :
    IsJustified default_options (run (traced fake) default_options unstarted).1.trace
run-IsJustified_example = run-IsJustified fake default_options unstarted tt

abbrev half_way : Run Account
half_way = record { world = three_messages; result = empty_result; rejected = [] }

run_returns_example :
    (result : SyncResult) × ((run fake default_options three_messages).0 ≡ ok result)
unfolding default_options
run_returns_example = run_returns fake default_options fake-IsDeclared 3 refl three_messages

-- Message 1 is forwarded, message 2 only trashed, message 3 rejected and marked.
abbrev outcome : SyncResult
outcome = record {
  listed = 3;
  forwarded = 1;
  trashed = 2;
  skipped = 0;
  retry_later = 0;
  quarantined = 1;
  remaining = 0;
  duration = 4000;
  error = none;
}

three_run : (run fake default_options three_messages).0 ≡ ok outcome
unfolding run connected closing session labelling extra_labels listing work each processed
    out_of_time settle_all settle_if_any settle_rejections trip breaker_trips settle_each settled
    finish ended process fetched examine insert_message inserted refused reject record_insert
    recorded trash trashed_lastly quarantine marked_aside set_aside moved_aside is_per_message
    gmail_labels_for quarantine_of seen flagged has_keyword text text_eq text_mem lower lower_char
    matches default_options three_messages
three_run = refl

default_options-AreApart : AreApart default_options
unfolding default_options text text_eq
default_options-AreApart = record { failed = refl; unverified = refl }

three_traced : (run (traced fake) default_options unstarted).0 ≡ ok outcome
unfolding run connected closing session labelling extra_labels listing work each processed
    out_of_time settle_all settle_if_any settle_rejections trip breaker_trips settle_each settled
    finish ended process fetched examine insert_message inserted refused reject record_insert
    recorded trash trashed_lastly quarantine marked_aside set_aside moved_aside is_per_message
    gmail_labels_for quarantine_of seen flagged has_keyword text text_eq text_mem lower lower_char
    matches default_options three_messages
three_traced = refl

run-Tells_example :
    Tells default_options (run (traced fake) default_options unstarted).1.trace outcome
run-Tells_example =
    run-Tells fake default_options default_options-AreApart three_messages outcome three_traced

run-inserts_example :
    tally an_attempt (run (traced fake) default_options unstarted).1.trace ≤ outcome.listed
run-inserts_example =
    run-inserts fake default_options default_options-AreApart three_messages outcome three_traced

run-IsBounded_example : settled_count outcome + outcome.remaining ≤ outcome.listed
run-IsBounded_example = run-IsBounded fake default_options three_messages outcome three_run

run-IsExact_example : settled_count outcome + outcome.remaining ≡ outcome.listed
run-IsExact_example = run-IsExact fake default_options three_messages outcome three_run refl

abbrev odd_options : ForwarderOptions
odd_options = record default_options { rejection_threshold = negsuc 0 }

abbrev parked : Rejection
parked = record { uid = 3; error = []; per_message = true }

settle_rejections-negative_example :
    settle_rejections fake odd_options (parked ∷ []) half_way
    ≡ (raised (other (text "list index out of range")), half_way)
settle_rejections-negative_example =
    settle_rejections-negative fake odd_options 0 (parked ∷ []) half_way refl refl refl
