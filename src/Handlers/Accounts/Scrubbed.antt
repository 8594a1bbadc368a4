-- ===== src/Handlers/Accounts/Scrubbed.antt =====
-- The two-step replies of /login and /logout: what they send and what they leave of the store.
use ttbot_repo_placeholder.Prelude.{◌≡◌, refl, ap, ◌∙◌, Option, none, some, [], ◌∷◌, ◌++◌}
use mathlib.Core.List.{append_assoc}
use ttbot_repo_placeholder.Text.{Text, trim_space}
use ttbot_repo_placeholder.Validation.{parse_admin_credentials}
use ttbot_repo_placeholder.Messages.{Message}
use ttbot_repo_placeholder.Bot.{Env, Bot, send_message, delete_message, call}
use ttbot_repo_placeholder.Handlers.Replies.{call_ignored, call_error, reply}
use ttbot_repo_placeholder.Handlers.Accounts.{
  Logins, StoreAnswer, log_in, login_answered, use_credentials, handle_login_reply,
}

-- A run of the bot that answers a message with one message and then deletes it, and changes no table but
-- the accounts.
abbrev pub AnsweredAndDeleted : Message → Bot → Bot → Type 0
AnsweredAndDeleted m b c =
    (body : Text) × (c.sent
      ≡ b.sent
        ++ (send_message m.chat.id m.thread_id body ∷ delete_message m.chat.id m.message_id ∷ []))
    × (c.store ≡ record b.store { s21_accounts = c.store.s21_accounts })

-- One message to the chat of `m`, and no change of a table but the accounts.
Answered : Message → Bot → Bot → Type 0
Answered m b c =
    (body : Text) × (c.sent ≡ b.sent ++ send_message m.chat.id m.thread_id body ∷ [])
    × (c.store ≡ record b.store { s21_accounts = c.store.s21_accounts })

module _ (env : Env) (logins : Logins) (m : Message) where
  login_answered-Answered :
      (r : StoreAnswer) (b : Bot) → Answered m b (login_answered env logins m r b).1
  unfolding login_answered reply call_error call Answered
  login_answered-Answered (StoreAnswer.stored a) b = (_, refl, refl)
  login_answered-Answered StoreAnswer.rejected b = (_, refl, refl)
  login_answered-Answered (StoreAnswer.unavailable e) b = (_, refl, refl)

  use_credentials-Answered :
      (o : Option (Text × Text)) (b : Bot) → Answered m b (use_credentials env logins m o b).1
  unfolding use_credentials log_in reply call_error call Answered
  use_credentials-Answered none b = (_, refl, refl)
  use_credentials-Answered (some (login, password)) b =
      let r = log_in env logins m.from.id login password b in
      let a = login_answered-Answered r.0 r.1 in (a.0, a.1, a.2)

-- Whatever the reply to the /login prompt says, and whatever School 21, the store of accounts and the
-- chat platform answer: the bot sends one answer, then deletes the reply, also where the validation
-- fails, and changes no table but the accounts. The deletion is deferred: it comes behind the validation
-- and the answer.
pub login_reply_deleted :
    (env : Env) (logins : Logins) (m : Message) (b : Bot)
    → AnsweredAndDeleted m b (handle_login_reply env logins m b).1
unfolding handle_login_reply call_ignored call Answered
login_reply_deleted env logins m b =
    let a = use_credentials-Answered env logins m (parse_admin_credentials (trim_space m.text)) b in
    (
      a.0,
      ap (λ l. l ++ delete_message m.chat.id m.message_id ∷ []) a.1 ∙ append_assoc b.sent _ _,
      a.2,
    )
