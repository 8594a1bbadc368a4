-- ===== src/Bot.antt =====
-- The state of the bot and what it meets outside: the chat platform (pkg/messenger/messenger.go), the
-- identity service behind pkg/identity/identity.go, and the clocks. A handler of pkg/handlers is a
-- function of the state: it returns what the Go function returns, and the state that it leaves.
use ttbot_repo_placeholder.Prelude.{ℕ, Bool, false, Option, none, some, List, [], ◌∷◌, ◌++◌}
use ttbot_repo_placeholder.GoMap.{GoMap}
use ttbot_repo_placeholder.Text.{Text}
use ttbot_repo_placeholder.Models.{Group}
use ttbot_repo_placeholder.Store.{Store, S21Account}
use ttbot_repo_placeholder.NickCache.{NickCache, User}

-- The errors that a handler can meet or return.
pub data Error : Type 0 where
  not_found : Error
  forbidden : Error
  no_healthy_login : Error
  unavailable : ℕ → Error
  message : Text → Error

-- A `(value, error)` result.
pub data Result {ℓ} (A : Type ℓ) : Type ℓ where
  ok : A → Result A
  err : Error → Result A

-- messenger.Button
pub record Button : Type 0 where
  pub label : Text
  pub callback : Text

-- The methods of messenger.Messenger that change something outside, with their arguments.
pub data Call : Type 0 where
  send_message : ℕ → ℕ → Text → Call
  send_force_reply_html : ℕ → Text → Text → Call
  send_keyboard : ℕ → ℕ → Text → Button → Button → Call
  send_inline_keyboard : ℕ → ℕ → Text → List Button → Call
  send_grid_html : ℕ → ℕ → Text → List (List Button) → Call
  edit_message : ℕ → ℕ → Text → Call
  edit_keyboard : ℕ → ℕ → Text → List Button → Call
  edit_grid : ℕ → ℕ → Text → List (List Button) → Call
  edit_grid_html : ℕ → ℕ → Text → List (List Button) → Call
  delete_message : ℕ → ℕ → Call
  pin_message : ℕ → ℕ → Call
  answer_callback : Text → Text → Call
  send_reaction : ℕ → ℕ → Text → Call
  leave_chat : ℕ → Call

-- What identityclient answers through s21account.PickHealthy: a record, its ErrNotFound, or an error.
pub data Answer {ℓ} (A : Type ℓ) : Type ℓ where
  known : A → Answer A
  unknown : Answer A
  failed : Error → Answer A

-- The world outside, as one update meets it. The platform's answer to a call may depend on all calls
-- before it; whether a user is an admin of a chat does not change within one update.
pub record Env : Type 0 where
  -- Config.Now() and time.Now()
  pub now : ℕ
  pub wall_now : ℕ
  -- the id of the message sent, where there is one
  pub deliver : List Call → Call → Result ℕ
  pub chat_admin : ℕ → ℕ → Result Bool
  pub member_username : ℕ → ℕ → Result Text
  -- whether Config.IdentityBaseURL is set
  pub identity_configured : Bool
  -- Error() on an error that the bot did not make itself
  pub error_string : Error → Text
  -- PickHealthy may mark rows of s21_accounts
  pub user_by_telegram : GoMap ℕ S21Account → ℕ → Answer User × GoMap ℕ S21Account
  pub users_by_nickname : GoMap ℕ S21Account → Text → Answer (List User) × GoMap ℕ S21Account

-- The key of a draft: `draftKey` prints the two numbers with a colon between.
pub record DraftKey : Type 0 where
  pub chat : ℕ
  pub message_id : ℕ

-- matchDraft, whose mutex makes each tap one step; an unselected score, -1 in the source, is `none`.
pub record Draft : Type 0 where
  pub owner_id : ℕ
  pub owner_label : Text
  pub is_score : Bool
  pub page : ℕ
  pub opp_id : ℕ
  pub opp_label : Text
  pub p1 : Option ℕ
  pub p2 : Option ℕ
  pub touched_at : ℕ

-- Handlers, with the calls made so far and the groups whose detached refresh has been started.
pub record Bot : Type 0 where
  pub store : Store
  pub nicks : NickCache
  pub drafts : GoMap DraftKey Draft
  pub sent : List Call
  pub refreshes : List Group

-- A Go function over the bot.
abbrev pub Act {ℓ} : Type ℓ → Type ℓ
Act A = Bot → A × Bot

infixl 5 ◌>>=◌ ◌>>◌
abbrev pub ◌>>=◌ {ℓ κ} :
    {A : Type ℓ} {B : Type κ} → (Bot → A × Bot) → (A → Bot → B × Bot) → Bot → B × Bot
◌>>=◌ m f b = let r = m b in f r.0 r.1

abbrev pub ◌>>◌ {ℓ κ} :
    {A : Type ℓ} {B : Type κ} → (Bot → A × Bot) → (Bot → B × Bot) → Bot → B × Bot
◌>>◌ m k b = k (m b).1

abbrev pub return {ℓ} : {A : Type ℓ} → A → Bot → A × Bot
return a b = (a, b)

-- An `error` result: `none` is nil.
abbrev pub GoError : Type 0
GoError = Option Error

abbrev pub error_of {ℓ} : {A : Type ℓ} → Result A → GoError
error_of (ok a) = none
error_of (err e) = some e

module _ (env : Env) where
  -- err.Error()
  unfoldable pub error_text : Error → Text
  error_text (Error.message t) = t
  error_text e = env.error_string e

  -- One call of the messenger.
  unfoldable pub call : Call → Act (Result ℕ)
  call c b = (env.deliver b.sent c, record b { sent = b.sent ++ c ∷ [] })

  -- isChatAdmin: an error counts as not admin.
  unfoldable pub is_chat_admin : ℕ → ℕ → Bool
  is_chat_admin chat user = elim (env.chat_admin chat user) [ ok a ↦ a | err _ ↦ false ]

-- A read of the store, and a write to it.
unfoldable pub reads {ℓ} : {A : Type ℓ} → (Store → A) → Act A
reads f b = (f b.store, b)

unfoldable pub writes : (Store → Store) → Act (Unit {0})
writes f b = (tt, record b { store = f b.store })

-- detachedRefreshStatsTopic: the goroutine is started; it runs later.
unfoldable pub start_refresh : Group → Act (Unit {0})
start_refresh g b = (tt, record b { refreshes = b.refreshes ++ g ∷ [] })
