-- ===== src/Handlers/Accounts.antt =====
-- pkg/handlers/login.go, logout.go, whoami.go, s21account_adapters.go and migrate.go: the stored logins.
-- The package s21-account-go, the client of the School 21 platform and the cipher stand in `Logins`.
pub mod Migration
pub mod Scrubbed
use ttbot_repo_placeholder.Prelude.{
  ℕ, suc, Bool, false, not, ◌&&◌, Option, none, some, List, [], ◌∷◌, ◌++◌, eqb, leb, ◌+◌,
  if◌then◌else◌,
}
use ttbot_repo_placeholder.GoMap.{GoMap}
use ttbot_repo_placeholder.Text.{Text, text, text_eqb, trim_space, contains}
use ttbot_repo_placeholder.Text.Decimal.{format_uint}
use ttbot_repo_placeholder.Models.{Admin}
use ttbot_repo_placeholder.Validation.{parse_admin_credentials}
use ttbot_repo_placeholder.Store.{Store, S21Account}
use ttbot_repo_placeholder.Store.Matches.{found, not_found}
use ttbot_repo_placeholder.Store.Accounts.{
  get_account, list_accounts, upsert_account, delete_account, list_admins,
}
use ttbot_repo_placeholder.Messages.{Message, Replied}
use ttbot_repo_placeholder.Names.{is_empty}
use ttbot_repo_placeholder.Interactive.Header.{spoiler_wrap}
use ttbot_repo_placeholder.Bot.{
  Env, Act, Error, Result, ok, err, GoError, call, send_force_reply_html, delete_message, writes,
  ◌>>=◌, ◌>>◌, return,
}
use ttbot_repo_placeholder.Handlers.Replies.{call_ignored, reply}

-- s21.Profile, as far as s21account.Profile has its fields.
pub record Profile : Type 0 where
  pub login : Text
  pub campus_id : Text
  pub campus_name : Text

-- The answers to a login: a profile, ErrInvalidCredentials, or another error. The adapter translates
-- the client's error of the second kind into the shared package's.
pub data AuthAnswer : Type 0 where
  accepted : Profile → AuthAnswer
  invalid_credentials : AuthAnswer
  failed : Error → AuthAnswer

-- The answers of ValidateAndStore.
pub data StoreAnswer : Type 0 where
  stored : S21Account → StoreAnswer
  rejected : StoreAnswer
  unavailable : Error → StoreAnswer

-- s21account.Decision
pub record Decision : Type 0 where
  pub logout : Bool
  pub logout_dm : Text
  pub persist_update : Bool
  pub updated_account : S21Account
  pub warning_dm : Text

pub record Logins : Type 0 where
  -- s21.Client.Authenticate
  pub authenticate : Text → Text → AuthAnswer
  -- Cipher.Decrypt; `none` is its error
  pub decrypt : Text → Option Text
  -- s21account.ValidateAndStore with a client: it may change the rows
  pub validate_and_store :
      (Text → Text → AuthAnswer)
      → GoMap ℕ S21Account
      → ℕ
      → Text
      → Text
      → ℕ
      → StoreAnswer × GoMap ℕ S21Account
  pub render_whoami : S21Account → ℕ → Text
  pub apply_auth_result : S21Account → AuthAnswer → ℕ → Decision

-- strings.ToLower, as far as the comparison with "confirm" can tell: beside A to Z it is U+0130 that
-- becomes a letter of "confirm".
unfoldable pub lower : ℕ → ℕ
lower c = if leb b'A' c && leb c b'Z' then c + 32 else c

unfoldable pub to_lower : Text → Text
to_lower [] = []
to_lower (c ∷ []) = lower c ∷ []
to_lower (c ∷ d ∷ s) =
    let i = to_lower s in
    let rest = to_lower (d ∷ s) in if eqb c 0xc4 && eqb d 0xb0 then b'i' ∷ i else lower c ∷ rest

-- A reply to a message of a bot that has the tag.
unfoldable pub replies_to_tag : Text → Option Replied → Bool
replies_to_tag tag none = false
replies_to_tag tag (some r) = elim r.from [
  | none ↦ false
  | some u ↦ u.is_bot && contains tag r.text
]

abbrev pub login_tag : Text
login_tag = text "[LOGIN_OP=set]"

abbrev pub logout_tag : Text
logout_tag = text "[LOGIN_OP=logout]"

-- isLoginReply
unfoldable pub is_login_reply : Message → Bool
is_login_reply m = replies_to_tag login_tag m.reply_to

-- isLogoutReply
unfoldable pub is_logout_reply : Message → Bool
is_logout_reply m = replies_to_tag logout_tag m.reply_to

-- otherAccountsLine
unfoldable pub other_accounts_line : ℕ → Text
other_accounts_line n =
    if eqb n 0
    then text "You're the only logged-in account right now."
    else if eqb n 1
    then text "Together with 1 other logged-in account."
    else text "Together with " ++ (format_uint n ++ text " other logged-in accounts.")

-- The count of handleWhoami.
unfoldable pub count_others : ℕ → List S21Account → ℕ
count_others tid [] = 0
count_others tid (a ∷ rest) =
    let n = count_others tid rest in if not (eqb a.telegram_id tid) then suc n else n

-- The row that the migration writes for a legacy row.
unfoldable pub migrated : Admin → S21Account
migrated a = record {
  telegram_id = a.telegram_id;
  s21_login = a.s21_login;
  s21_creds_encrypted = a.s21_credentials_encrypted;
  campus_id = a.campus_id;
  campus_name = a.campus_name;
  created_at = a.created_at;
  updated_at = a.created_at;
  last_used_at = none;
  s21_creds_failed_at = none;
  s21_creds_last_warned_at = none;
}

-- The body of the loop of MigrateAdminsToS21Accounts.
unfoldable pub migrate_admin : Admin → Store → Store
migrate_admin a s = elim (get_account a.telegram_id s) [
  | found _ ↦ s
  | not_found ↦ upsert_account (migrated a) s
]

unfoldable pub migrate_each : List Admin → Store → Store
migrate_each [] s = s
migrate_each (a ∷ rest) s = migrate_each rest (migrate_admin a s)

-- MigrateAdminsToS21Accounts
unfoldable pub migrate_admins : Store → Store
migrate_admins s = migrate_each (list_admins s) s

module _ (env : Env) where
  -- A prompt of which an error is told to the user.
  unfoldable pub prompted : Message → Text → Result ℕ → Act GoError
  prompted m apology (ok _) = return none
  prompted m apology (err e) = reply env m apology

  unfoldable pub prompt : Message → Text → Text → Text → Act GoError
  prompt m body placeholder apology = do
    r ← call env (send_force_reply_html m.chat.id body placeholder)
    prompted m apology r

  -- handleLogin
  unfoldable pub handle_login : Message → Text → Act GoError
  handle_login m args =
      if not (is_empty (trim_space args))
      then reply env m
          (text "/login takes no arguments. Run it again with nothing after the slash.")
      else prompt m
          (text "Reply with your S21 credentials as `login:password` on a single line. "
            ++ (text
                  "I'll authenticate against S21, encrypt the result, and <b>delete your reply immediately</b> so the creds don't linger in this chat. "
                ++ (text
                      "Anyone can /login — multiple logged-in users let me keep working when one set of creds rotates."
                    ++ (text "\n\n" ++ spoiler_wrap login_tag))))
          (text "login:password")
          (text "Telegram is unreachable right now — try /login again shortly.")

  -- handleLogout
  unfoldable pub handle_logout : Message → Act GoError
  handle_logout m b = elim (get_account m.from.id b.store) [
    | not_found ↦ reply env m (text "You're not logged in — nothing to log out from.") b
    | found _ ↦
        prompt m
          (text
              "You are about to log out (your stored S21 credentials for ttbot will be deleted).\n\n"
            ++ (text "After this:\n"
                ++ (text
                      "- Other logged-in users continue to back ttbot's S21 calls; only your stored credentials are removed.\n"
                    ++ (text
                          "- Group registration, matches, rankings — all keep working as long as at least one healthy login remains.\n\n"
                        ++ (text "Reply with `confirm` to proceed. Any other reply cancels."
                            ++ (text "\n\n" ++ spoiler_wrap logout_tag))))))
          (text "confirm") (text "Telegram is unreachable right now — try /logout again shortly.") b
  ]

  -- handleLogoutReply
  unfoldable pub handle_logout_reply : Message → Act GoError
  handle_logout_reply m =
      if not (text_eqb (trim_space (to_lower m.text)) (text "confirm"))
      then reply env m (text "Cancelled — you are still logged in.")
      else (do
        writes (delete_account m.from.id)
        reply env m (
            text
              "Logged out. Your stored S21 credentials have been removed. /login again whenever you want."))

module _ (env : Env) (logins : Logins) where
  -- handleWhoami
  unfoldable pub handle_whoami : Message → Act GoError
  handle_whoami m b = elim (get_account m.from.id b.store) [
    | not_found ↦
        reply env m (text "You're not logged in. Run /login to register your S21 credentials.") b
    | found a ↦
        reply env m
          (logins.render_whoami a env.now
            ++ (text "\n\n"
                ++ other_accounts_line (count_others m.from.id (list_accounts b.store))))
          b
  ]

  unfoldable pub greeting : S21Account → Text
  greeting a =
      text "You're now logged in as "
      ++ (a.s21_login
          ++ ((if is_empty a.campus_name then [] else text " (" ++ (a.campus_name ++ b')' ∷ []))
              ++ text ". I'll use your creds, alongside other logged-in users, for S21 API calls."))

  unfoldable pub login_answered : Message → StoreAnswer → Act GoError
  login_answered m (StoreAnswer.stored a) = reply env m (greeting a)
  login_answered m StoreAnswer.rejected =
      reply env m (text "S21 rejected those credentials. Run /login again to retry.")
  login_answered m (StoreAnswer.unavailable e) =
      reply env m (text "S21 is unavailable right now. Try /login again shortly.")

  -- ValidateAndStore on the bot's store.
  unfoldable pub log_in : ℕ → Text → Text → Act StoreAnswer
  log_in tid login password b =
      let r =
        logins.validate_and_store logins.authenticate b.store.s21_accounts tid login password
          env.now in
      (r.0, record b { store = record b.store { s21_accounts = r.1 } })

  unfoldable pub use_credentials : Message → Option (Text × Text) → Act GoError
  use_credentials m none = reply env m (
      text
        "Couldn't read creds — expected `login:password` on a single line. Run /login again to start over.")
  use_credentials m (some (login, password)) = do
    r ← log_in m.from.id login password
    login_answered m r

  -- handleLoginReply; the deferred deletion comes last.
  unfoldable pub handle_login_reply : Message → Act GoError
  handle_login_reply m = do
    e ← use_credentials m (parse_admin_credentials (trim_space m.text))
    call_ignored env (delete_message m.chat.id m.message_id)
    return e
