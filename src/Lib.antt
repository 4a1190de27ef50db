-- ===== src/Lib.antt =====
-- A verification library for mail-transporter, which forwards the mail of an iCloud INBOX to Gmail.
--
-- The program has two processes. The forwarder answers POST /sync with one pass over the INBOX:
-- mailtransporter/forwarder.py drives an IMAP session (mailtransporter/imap_client.py) and a Gmail
-- client (mailtransporter/gmail_client.py). The watcher (mailtransporter/watcher.py) keeps an IMAP
-- session and calls the forwarder when there is mail; mailtransporter/health.py tells whether it
-- is alive. Both read their settings by mailtransporter/config.py and mailtransporter/secrets.py.
-- The command line (mailtransporter/cli.py) makes a pass too, and lists, re-queues and marks the
-- messages that were set aside; scripts/gmail_oauth.py obtains the credentials for Gmail.
--
-- Which file models what:
-- - Base and its children: numbers, lists, dicts, Python's str as a list of code points
--   (Base/Chars), and calls that change state and may raise (Base/Effects: the state comes back
--   beside the exception, as what was written before a raise stays written; Base/Keeps: what such
--   calls leave alone). An exception is a value of `Raised`. Json: the values that are dumped, and
--   `json.dumps(…, indent=2)`.
-- - Message: `FetchedMessage`. Ports: the methods of `ICloudMailbox` and `GmailClient` that the
--   sync loop calls, and its clock, over an unknown state of the world.
-- - Forwarder/State, Process, Loop, Report: forwarder.py. `process` is `_process` and `quarantine`
--   is `_quarantine`, cut into one function per `try` statement (`fetched`, `inserted`,
--   `recorded`, `trashed_lastly`, `marked_aside`, `moved_aside`); `settle_rejections` is
--   `_settle_rejections`; `run` is `run`, where `each` is the `for` loop, `closing` the exit of
--   the `with` block and `ended` the outer `except`. The state `Run` is the world with the
--   `SyncResult` and the list `rejected`. `to_dict` is `SyncResult.to_dict`.
-- - Forwarder/Trace and Forwarder/Safety: the history of the calls of a run, and what justifies
--   each. Forwarder/Accounting: what the counters add up to; Forwarder/Ledger: what they say of
--   the calls. Forwarder/Errors: the exceptions.
-- - Imap/Client, Session, Queries, Keywords, Folders, Headers, Port: imap_client.py over the
--   `IMAPClient` of the imapclient package, which is a parameter, as are the parser and the
--   decoder of the email package (`EmailPackage`); `Box` holds the attributes that change.
--   Imap/Listing, Imap/Confirm, Imap/Moves and Imap/Errors are about the listings, the keywords,
--   the moves and the exceptions. Imap/Queue states what a server that keeps flags does
--   (`IsFlagStore`), which messages the criteria of a SEARCH select (`selects`), and which are to
--   be forwarded (`Queued`); its children are about leaving the queue and coming back.
-- - Gmail/Api, Client: gmail_client.py over the API of googleapiclient, which is a parameter.
--   Gmail/Classes is about the classes of errors, Gmail/Labels about the cache of labels,
--   Gmail/Standing and Directory about `ensure_label` against the labels that Gmail keeps
--   (`IsDirectory`).
-- - Health, Health/Budget: health.py. Watcher/State, Step: watcher.py (`TriggerResult`,
--   `CloudRunNotifier.trigger` given the outcome of its request, `WatchLoop.step`).
--   Watcher/Daemon: `run_forever`, where `advance` takes one iteration of the outer loop (up to
--   the session, or from the `except` clauses on) or of the inner loop. Watcher/Wiring: what the
--   settings make of the session and the loops. Watcher/Calls, Pacing, Forever and Patience are
--   about the calls of the forwarder, the delays, and the loops, Watcher/Announced and Alive about
--   the heartbeat.
-- - Secrets/Redaction, Env, Filter and Secrets/Sealed: secrets.py. Config/Keywords, OauthJson and
--   Settings: config.py, over `json.loads` as a parameter; Config/Validity is about the three
--   keywords, Config/Loading and Config/Registered about the credentials, Config/Errors about what
--   loading raises, Config/Agreement about what the environment alone decides.
-- - Server/Invoker, Sync: server.py (`verify_invoker`, `get_forwarder`, `sync`), over the check of
--   tokens and the forwarder as parameters; Server/Verified is about who gets in, Server/Answers
--   about the answers and the lock, Server/Exclusion about calls that overlap, Server/Calls about
--   a call as a sequence of their steps.
-- - Runtime: the collaborators of the forwarder that runtime.py puts together; Runtime/Wiring:
--   `configure_logging` and `build_forwarder` from the environment, over what a process finds
--   around it (`Services`); Runtime/Returns is about the forwarder that results.
-- - Cli: `_cmd_retry`, `_cmd_mark_failed` and the handler of `main` in cli.py, given the outcome
--   of `_mailbox`; Cli/Entries: `_collect`; Cli/Listing: `_cmd_list` given the session;
--   Cli/Commands: `_mailbox`, the commands with it, and `main` given its parsed arguments.
--   Cli/Retry is about what is printed, Cli/Marked about what is marked, Cli/Described,
--   Quarantined and ReadOnly about the listing, Cli/Reported, Returns, Main and Sync about how the
--   commands end, Cli/Agreement about the three programs in one environment.
-- - Oauth: scripts/gmail_oauth.py over the flow of google_auth_oauthlib, which is a parameter.
--   Oauth/RoundTrip is about the file it writes.
-- - Tests and its children: collaborators in memory, and the theorems at concrete inputs.
--
-- Loops are structural recursions. The only fuel is that of `decimal`, which prints a number: n +
-- 1 steps for n, more than it has digits. `run_forever` and `iterate` count iterations of loops
-- that do not end; what is shown of them holds for every number. Times and durations are in
-- milliseconds, where the source has seconds as floats; a clock is a natural number. The numbers
-- of the settings are integers, with their negative values.
--
-- Not modelled: the logging calls, and the handlers and filters that `configure_logging` sets up;
-- the parser of arguments; `_decode` (texts are decoded already); the rounding of a duration for
-- the result; `str.lower` beyond the ASCII letters and the Kelvin sign, and `str.upper` beyond the
-- ASCII letters and the two code points that become one; digits that are not ASCII and more than
-- 4300 digits in a number of the environment; `repr` of characters beyond ASCII, which are all
-- taken as printable; the position that the text of a `UnicodeEncodeError` names; the order in
-- which `redact` takes secrets of one length, which is the reverse of that of their registration
-- here and unspecified in the source; `KeyboardInterrupt`; the text of a `TypeError`; numbers of
-- seconds from 10 ^ 16 on, which Python prints with an exponent; an answer of the forwarder whose
-- JSON is no object; the threads that serve HTTP; the deployment.
pub mod Base
pub mod Json
pub mod Message
pub mod Ports
pub mod Forwarder
pub mod Imap
pub mod Gmail
pub mod Health
pub mod Watcher
pub mod Secrets
pub mod Config
pub mod Runtime
pub mod Oauth
pub mod Server
pub mod Cli
pub mod Tests
