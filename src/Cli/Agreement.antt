-- ===== src/Cli/Agreement.antt =====
-- The forwarder, the watcher and the command line, started with one environment.
use mail_transporter.Base.{Bool, ◌≡◌, sym, ap, ◌∙◌, [], ◌∷◌, Result, ok, raised, arith}
use mail_transporter.Secrets.Env.{Registry}
use mail_transporter.Config.Keywords.{Keywords, keywords_from_env}
use mail_transporter.Config.Settings.{
  ForwarderSettings, WatcherSettings, watcher_from_env, icloud_from_env,
}
use mail_transporter.Config.Loading.{After, after_ok}
use mail_transporter.Config.Agreement.{
  continue-After, icloud_same, Reads, forwarder_from_env-Reads, watcher_from_env-Reads,
}
use mail_transporter.Imap.Headers.{EmailPackage}
use mail_transporter.Runtime.{built_account}
use mail_transporter.Runtime.Wiring.{Services, options_of, build_forwarder}
use mail_transporter.Watcher.Wiring.{watcher_account}
use mail_transporter.Cli.Commands.{Opened, mailbox}

ok_injective : {A : Type 0} (a b : A) (r : Result A) → r ≡ ok a → r ≡ ok b → a ≡ b
ok_injective a b (ok c) p q =
    let first : c ≡ a = ground arith in let second : c ≡ b = ground arith in sym first ∙ second
ok_injective a b (raised e) p q = cc

module _ {W : Type 0} (services : Services W) (email : EmailPackage) where
  mailbox-Reads :
      (readonly : Bool) (v values : Registry)
      → After
          (λ m later. Reads services.env services.fetch services.loads v m.keywords m.icloud)
          (mailbox services email readonly values)
  unfolding mailbox
  mailbox-Reads readonly v values =
      continue-After _ _ (icloud_from_env services.env services.fetch services.loads values).0
        (icloud_from_env services.env services.fetch services.loads values).1
        λ icloud later opened.
          continue-After _ _ (keywords_from_env services.env) later λ keywords last read.
            (read, icloud_same services.env services.fetch services.loads v values ∙ opened)

  -- When the forwarder, the watcher and the command line load their settings from one environment,
  -- whatever each has registered before, then their sessions are for the same account of the same
  -- server, the watcher skips the keywords that the forwarder skips, and the command line has the
  -- keywords that the forwarder writes.
  pub processes_agree :
      (forwarder : ForwarderSettings) (watcher : WatcherSettings) (opened : Opened)
      (readonly : Bool) (v v' v'' : Registry)
      → (build_forwarder services v).0 ≡ ok forwarder
      → (watcher_from_env services.env services.fetch services.loads v').0 ≡ ok watcher
      → (mailbox services email readonly v'').0 ≡ ok opened
      → (forwarder.icloud ≡ watcher.icloud)
        × (forwarder.icloud ≡ opened.icloud)
        × ((built_account (options_of forwarder)).skip_keywords
            ≡ (watcher_account watcher).skip_keywords)
        × (forwarder.keywords ≡ opened.keywords)
  unfolding build_forwarder options_of watcher_account
  processes_agree forwarder watcher opened readonly v v' v'' p q r =
      let (read, icloud) =
        after_ok _ _ forwarder
          (forwarder_from_env-Reads services.env services.fetch services.loads v v) p in
      let (keywords, found, failed, unverified) =
        after_ok _ _ watcher
          (watcher_from_env-Reads services.env services.fetch services.loads v v') q in
      let (read', icloud') = found in
      let (read'', icloud'') = after_ok _ _ opened (mailbox-Reads readonly v v'') r in
      let same : forwarder.keywords ≡ keywords =
        ok_injective forwarder.keywords keywords (keywords_from_env services.env) read read' in
      (
        ok_injective forwarder.icloud watcher.icloud _ icloud icloud',
        ok_injective forwarder.icloud opened.icloud _ icloud icloud'',
        ap (λ (k : Keywords). k.failed ∷ k.unverified ∷ []) same
            ∙ (λ i. sym failed i ∷ sym unverified i ∷ []),
        ok_injective forwarder.keywords opened.keywords (keywords_from_env services.env) read
            read'',
      )
