-- ===== src/Tests/Messages.antt =====
-- The theorems on messages and on the accounts, on the bot of the tests.
use ttbot_repo_placeholder.Prelude.{arith, any, ◌≡◌, refl, none, some, [], ◌∷◌}
use ttbot_repo_placeholder.GoMap
use ttbot_repo_placeholder.GoMap.{nat_eq}
use ttbot_repo_placeholder.Text.{text, text_eqb}
use ttbot_repo_placeholder.Models.{Admin, hour}
use ttbot_repo_placeholder.Store.{Store}
use ttbot_repo_placeholder.Store.Players.{get_group}
use ttbot_repo_placeholder.Messages.{Message, is_private}
use ttbot_repo_placeholder.Bot.{delete_message}
use ttbot_repo_placeholder.Handlers.Accounts.{handle_login_reply, migrated, migrate_admins}
use ttbot_repo_placeholder.Handlers.Accounts.Migration.{migrate_admins_lem}
use ttbot_repo_placeholder.Handlers.Accounts.Scrubbed.{AnsweredAndDeleted, login_reply_deleted}
use ttbot_repo_placeholder.Handlers.Dispatch.{dispatch_message}
use ttbot_repo_placeholder.Handlers.Dispatch.Litter.{litter_deleted}
use ttbot_repo_placeholder.Tests.Data.{env, store, bot, group, message, floats, engine, logins}

-- A command in the stats topic.
abbrev litter : Message
litter = record message { thread_id = 2; text = text "/ping" }

litter_deleted_example :
    dispatch_message floats env logins engine 7 litter bot
    ≡ (none, record bot { sent = delete_message 100 56 ∷ [] })
unfolding get_group GoMap.get is_private text text_eqb any
litter_deleted_example =
    litter_deleted floats env logins engine 7 litter group bot refl refl (ground arith) refl

abbrev credentials : Message
credentials = record message { text = text "ada:secret" }

login_reply_deleted_example :
    AnsweredAndDeleted credentials bot (handle_login_reply env logins credentials bot).1
login_reply_deleted_example = login_reply_deleted env logins credentials bot

-- A store with an admin who has no account yet.
abbrev admin : Admin
admin = record {
  telegram_id = 9;
  s21_login = text "eve";
  s21_credentials_encrypted = [];
  campus_id = [];
  campus_name = [];
  created_at = hour;
}

abbrev legacy : Store
legacy = record store { admins = (9, admin) ∷ [] }

migrate_admins_lem_example :
    (GoMap.get 9 (migrate_admins legacy).s21_accounts ≡ some (migrated admin))
    × (GoMap.get 9 (migrate_admins (migrate_admins legacy)).s21_accounts
        ≡ GoMap.get 9 (migrate_admins legacy).s21_accounts)
unfolding GoMap.get
migrate_admins_lem_example = migrate_admins_lem legacy 9 ((refl, refl), tt)
