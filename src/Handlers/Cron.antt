-- ===== src/Handlers/Cron.antt =====
-- PeriodicJob of pkg/handlers/periodic.go, with the probe of the stored logins.
use ttbot_repo_placeholder.Prelude.{
  ℕ, Bool, true, false, Option, none, some, List, [], ◌∷◌, if◌then◌else◌,
}
use ttbot_repo_placeholder.Text.{Text, text}
use ttbot_repo_placeholder.Store.{S21Account}
use ttbot_repo_placeholder.Store.Accounts.{list_accounts, upsert_account, delete_account}
use ttbot_repo_placeholder.Bot.{Env, Act, GoError, send_message, reads, writes, ◌>>=◌, ◌>>◌, return}
use ttbot_repo_placeholder.Handlers.Replies.{call_ignored}
use ttbot_repo_placeholder.Handlers.Periodic.{clean_expired_matches, clean_expired_undo}
use ttbot_repo_placeholder.Handlers.Usernames.{refresh_all_usernames}
use ttbot_repo_placeholder.Handlers.Accounts.{Logins, Decision}

module _ (env : Env) (logins : Logins) where
  -- The persisted markers of a decision.
  unfoldable pub persist : Bool → S21Account → Act (Unit {0})
  persist true a = writes (upsert_account a)
  persist false a = return tt

  -- A direct message that is sent where there is one.
  unfoldable pub warn : ℕ → Text → Act (Unit {0})
  warn tid [] = return tt
  warn tid (c ∷ dm) = call_ignored env (send_message tid 0 (c ∷ dm))

  -- probeOne from the decision on.
  unfoldable pub apply_decision : S21Account → Decision → Act (Unit {0})
  apply_decision a d =
      if d.logout
      then (do
        writes (delete_account a.telegram_id)
        call_ignored env (send_message a.telegram_id 0 d.logout_dm))
      else (do persist d.persist_update d.updated_account; warn a.telegram_id d.warning_dm)

  unfoldable pub probe_password : S21Account → Option Text → Act (Unit {0})
  probe_password a none = call_ignored env (
      send_message a.telegram_id 0 (
        text
          "Internal: I can't decrypt your stored S21 credentials. Please /logout and /login again."))
  probe_password a (some password) =
      apply_decision a
        (logins.apply_auth_result a (logins.authenticate a.s21_login password) env.now)

  -- probeOne
  unfoldable pub probe_one : S21Account → Act (Unit {0})
  probe_one a = probe_password a (logins.decrypt a.s21_creds_encrypted)

  unfoldable pub probe_each : List S21Account → Act (Unit {0})
  probe_each [] = return tt
  probe_each (a ∷ rest) = do probe_one a; probe_each rest

  -- probeAllAccounts
  unfoldable pub probe_all_accounts : Act (Unit {0})
  probe_all_accounts = do rows ← reads list_accounts; probe_each rows

  -- The two clean-ups, which only log their errors.
  unfoldable pub clean_up : Act (Unit {0})
  clean_up b = (tt, clean_expired_undo env (clean_expired_matches env b))

  -- PeriodicJob
  unfoldable pub periodic_job : Act GoError
  periodic_job = do probe_all_accounts; clean_up; refresh_all_usernames env; return none
