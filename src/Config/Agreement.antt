-- ===== src/Config/Agreement.antt =====
-- mailtransporter/config.py: the two processes and the command line read one environment alike.
use mail_transporter.Base.{
  ◌≡◌, refl, ◌∙◌, Option, none, some, [], ◌∷◌, Text, text, Result, ok, raised, Exec, continue,
}
use mail_transporter.Base.Int.{pos}
use mail_transporter.Secrets.Env.{
  Env, Registry, registered, fetched, from_reference, from_value, resolve_secret_env, require_env,
  env_int,
}
use mail_transporter.Config.Keywords.{Keywords, keywords_from_env}
use mail_transporter.Config.OauthJson.{Json}
use mail_transporter.Config.Settings.{
  ICloudSettings, icloud_from_env, gmail_from_env, mode_from_env, forwarder_from_env,
  watcher_from_env,
}
use mail_transporter.Config.Loading.{After}

module _ {A B : Type 0} where
  pub continue-After :
      (P : B → Registry → Type 0) (f : A → Exec Registry B) (outcome : Result A) (values : Registry)
      → ((a : A) (later : Registry) → outcome ≡ ok a → After P (f a later))
      → After P (continue f outcome values)
  continue-After P f (ok a) values k = k a values refl
  continue-After P f (raised e) values k = tt

  -- Calls whose outcomes do not depend on the registry, one after the other.
  continue_same :
      (f : A → Exec Registry B) (outcome outcome' : Result A) (values values' : Registry)
      → outcome ≡ outcome'
      → ((a : A) (v v' : Registry) → (f a v).0 ≡ (f a v').0)
      → (continue f outcome values).0 ≡ (continue f outcome' values').0
  continue_same f (ok a) outcome' values values' e k = rw (← e) (k a values values')
  continue_same f (raised x) outcome' values values' e k = rw (← e) refl

module _ (env : Env) (fetch : Text → Result Text) (loads : Text → Option Json) where
  fetched_same :
      (name : Text) (outcome : Result Text) (v v' : Registry)
      → (fetched env fetch name outcome v).0 ≡ (fetched env fetch name outcome v').0
  unfolding fetched registered
  fetched_same name (ok payload) v v' = refl
  fetched_same name (raised e) v v' = refl

  from_reference_same :
      (name : Text) (reference : Option Text) (v v' : Registry)
      → (from_reference env fetch name reference v).0
        ≡ (from_reference env fetch name reference v').0
  unfolding from_reference
  from_reference_same name none v v' = refl
  from_reference_same name (some []) v v' = refl
  from_reference_same name (some (c ∷ reference)) v v' = fetched_same name _ v v'

  from_value_same :
      (name : Text) (value : Option Text) (v v' : Registry)
      → (from_value env fetch name value v).0 ≡ (from_value env fetch name value v').0
  unfolding from_value registered
  from_value_same name none v v' = from_reference_same name _ v v'
  from_value_same name (some []) v v' = from_reference_same name _ v v'
  from_value_same name (some (c ∷ value)) v v' = refl

  pub icloud_same :
      (v v' : Registry)
      → (icloud_from_env env fetch loads v).0 ≡ (icloud_from_env env fetch loads v').0
  unfolding icloud_from_env resolve_secret_env
  icloud_same v v' =
      continue_same _ (require_env env (text "ICLOUD_USER")) _ v v' refl (λ user u u'.
        continue_same _
          (from_value env fetch (text "ICLOUD_PASSWORD") (env (text "ICLOUD_PASSWORD")) u).0
          (from_value env fetch (text "ICLOUD_PASSWORD") (env (text "ICLOUD_PASSWORD")) u').0
          (from_value env fetch (text "ICLOUD_PASSWORD") (env (text "ICLOUD_PASSWORD")) u).1
          (from_value env fetch (text "ICLOUD_PASSWORD") (env (text "ICLOUD_PASSWORD")) u').1
          (from_value_same (text "ICLOUD_PASSWORD") (env (text "ICLOUD_PASSWORD")) u u')
          (λ password w w'.
            continue_same _ (env_int env (text "IMAP_PORT") (pos 993)) _ w w' refl (λ port x x'.
              continue_same _ (env_int env (text "IMAP_TIMEOUT") (pos 60)) _ x x' refl
                (λ timeout y y'. refl))))

  -- What the environment alone decides.
  abbrev pub Reads : Registry → Keywords → ICloudSettings → Type 0
  Reads v keywords icloud =
      (keywords_from_env env ≡ ok keywords) × ((icloud_from_env env fetch loads v).0 ≡ ok icloud)

  -- Loading from any registry, the settings hold what the environment decides.
  pub forwarder_from_env-Reads :
      (v values : Registry)
      → After (λ s later. Reads v s.keywords s.icloud) (forwarder_from_env env fetch loads values)
  unfolding forwarder_from_env
  forwarder_from_env-Reads v values =
      continue-After _ _ (keywords_from_env env) values λ keywords now read.
        continue-After _ _ (mode_from_env env fetch loads) now λ mode now _.
          continue-After _ _ (icloud_from_env env fetch loads now).0
            (icloud_from_env env fetch loads now).1
            λ icloud later opened.
              continue-After _ _ (gmail_from_env env fetch loads later).0
                (gmail_from_env env fetch loads later).1
                λ gmail later' _.
                  continue-After _ _ (env_int env (text "TIME_BUDGET_SECONDS") (pos 480)) later'
                    λ budget last _.
                      continue-After _ _ (env_int env (text "REJECTION_THRESHOLD") (pos 3)) last
                        λ threshold _ _. (read, icloud_same v now ∙ opened)

  pub watcher_from_env-Reads :
      (v values : Registry)
      → After
          (λ s later.
            (k : Keywords) × Reads v k s.icloud
            × (s.failed_keyword ≡ k.failed)
            × (s.unverified_keyword ≡ k.unverified))
          (watcher_from_env env fetch loads values)
  unfolding watcher_from_env
  watcher_from_env-Reads v values =
      continue-After _ _ (keywords_from_env env) values λ keywords now read.
        continue-After _ _ (icloud_from_env env fetch loads now).0
          (icloud_from_env env fetch loads now).1
          λ icloud later opened.
            continue-After _ _ (require_env env (text "FORWARDER_URL")) later λ url l1 _.
              continue-After _ _ (env_int env (text "RETRIGGER_INTERVAL") (pos 600)) l1 λ a l2 _.
                continue-After _ _ (env_int env (text "IDLE_TIMEOUT") (pos 240)) l2 λ b l3 _.
                  continue-After _ _ (env_int env (text "POLL_INTERVAL") (pos 60)) l3 λ c l4 _.
                    continue-After _ _ (env_int env (text "REQUEST_TIMEOUT") (pos 900)) l4 λ d l5 _.
                      continue-After _ _ (env_int env (text "HEALTH_PORT") (pos 8080)) l5 λ e l6 _.
                        continue-After _ _ (env_int env (text "HEALTH_STARTUP_GRACE") (pos 300)) l6
                          λ f _ _. (keywords, (read, icloud_same v now ∙ opened), refl, refl)
