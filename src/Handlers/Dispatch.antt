-- ===== src/Handlers/Dispatch.antt =====
-- Dispatch and dispatchMessage of pkg/handlers/handlers.go: an update goes to the handler that it is for.
-- The log of the slow steps is not modelled.
pub mod Litter
use ttbot_repo_placeholder.Prelude.{
  ℕ, Bool, true, false, not, ◌&&◌, ◌||◌, Option, none, some, [], ◌∷◌, eqb, if◌then◌else◌,
}
use ttbot_repo_placeholder.Text.{Text, text, text_eqb, split_at, strip_prefix, trim_space}
use ttbot_repo_placeholder.Models.{Group}
use ttbot_repo_placeholder.Store.Matches.{found, not_found}
use ttbot_repo_placeholder.Store.Players.{get_group, upsert_participant}
use ttbot_repo_placeholder.Messages.{Message, Update, is_private}
use ttbot_repo_placeholder.Names.{is_empty}
use ttbot_repo_placeholder.Bot.{
  Env, Act, GoError, delete_message, send_reaction, writes, ◌>>=◌, ◌>>◌, return,
}
use ttbot_repo_placeholder.Ratings.{Floats, Engine}
use ttbot_repo_placeholder.Handlers.Replies.{call_error, call_ignored, reply}
use ttbot_repo_placeholder.Handlers.Start.{handle_start}
use ttbot_repo_placeholder.Handlers.MatchCommand.{handle_match}
use ttbot_repo_placeholder.Handlers.Undo.{handle_undo}
use ttbot_repo_placeholder.Handlers.Group.{
  participant_of, handle_bot_register_group, handle_set_matches_topic, dispatch_my_chat_member,
  dispatch_chat_member,
}
use ttbot_repo_placeholder.Handlers.Group.StatsCommand.{handle_set_stats_topic}
use ttbot_repo_placeholder.Handlers.Usernames.{handle_refresh_usernames}
use ttbot_repo_placeholder.Handlers.Backfill.{handle_forwarded_add}
use ttbot_repo_placeholder.Handlers.Accounts.{
  Logins, is_login_reply, is_logout_reply, handle_login, handle_login_reply, handle_logout,
  handle_logout_reply, handle_whoami,
}
use ttbot_repo_placeholder.Handlers.Callbacks.{dispatch_callback}

-- The first word without the "@bot" behind it.
unfoldable pub without_bot : Text → Text
without_bot cmd = elim (split_at b'@' cmd) [ none ↦ cmd | some (name, _) ↦ name ]

-- splitCommand on a text that starts with a slash.
unfoldable pub split_words : Text → Text × Text
split_words s = elim (split_at b' ' s) [
  | none ↦ (without_bot s, [])
  | some (cmd, args) ↦ (without_bot cmd, trim_space args)
]

-- splitCommand
unfoldable pub split_command : Text → Text × Text
split_command s = elim (strip_prefix (b'/' ∷ []) (trim_space s)) [
  | none ↦ ([], [])
  | some _ ↦ split_words (trim_space s)
]

-- The test of deleteStatsTopicLitter on the row of the group.
unfoldable pub is_litter : Message → Group → Bool
is_litter m g =
    not (eqb g.stats_topic_id 0)
    && (eqb m.thread_id g.stats_topic_id
        && not (
            eqb m.message_id g.rankings_elo_message_id
            || (eqb m.message_id g.rankings_glicko_message_id
                || eqb m.message_id g.stats_message_id)))

module _ (env : Env) where
  unfoldable pub delete_if : Bool → Message → Act Bool
  delete_if true m = do call_ignored env (delete_message m.chat.id m.message_id); return true
  delete_if false m = return false

  -- deleteStatsTopicLitter
  unfoldable pub delete_stats_topic_litter : Message → Act Bool
  delete_stats_topic_litter m b =
      if eqb m.thread_id 0 then (false, b) else elim (get_group m.chat.id b.store) [
        | not_found ↦ (false, b)
        | found g ↦ delete_if (is_litter m g) m b
      ]

  -- upsertSenderParticipant
  unfoldable pub upsert_sender_participant : Message → Act (Unit {0})
  upsert_sender_participant m b =
      if is_private m.chat || m.from.is_bot then (tt, b) else elim (get_group m.chat.id b.store) [
        | not_found ↦ (tt, b)
        | found g ↦ writes (upsert_participant (participant_of env.now m.chat.id m.from)) b
      ]

  -- handlePing
  unfoldable pub handle_ping : Message → Act GoError
  handle_ping m = call_error env (send_reaction m.chat.id m.message_id (text "👍"))

-- The commands of the switch.
pub data Command : Type 0 where
  start login logout whoami register_group set_matches set_stats refresh match undo ping : Command

-- The labels of the switch; `none` is a word that has no case.
unfoldable pub command_of : Text → Option Command
command_of cmd =
    if text_eqb cmd (text "/start") || text_eqb cmd (text "/help")
    then some Command.start
    else if text_eqb cmd (text "/login")
    then some Command.login
    else if text_eqb cmd (text "/logout")
    then some Command.logout
    else if text_eqb cmd (text "/whoami")
    then some Command.whoami
    else if text_eqb cmd (text "/bot_register_group")
    then some Command.register_group
    else if text_eqb cmd (text "/set_matches_topic")
    then some Command.set_matches
    else if text_eqb cmd (text "/set_stats_topic")
    then some Command.set_stats
    else if text_eqb cmd (text "/refresh_usernames")
    then some Command.refresh
    else if text_eqb cmd (text "/match")
    then some Command.match
    else if text_eqb cmd (text "/undo")
    then some Command.undo
    else if text_eqb cmd (text "/ping")
    then some Command.ping
    else none

module _ {F : Type 0} (fl : Floats F) (env : Env) (logins : Logins) (new_glicko2 : ℕ → Engine F)
    (default : ℕ) where
  -- A command that is for private chats.
  unfoldable pub in_private : Message → Act GoError → Act GoError
  in_private m handler = if is_private m.chat then handler else return none

  -- The switch of dispatchMessage.
  unfoldable pub run_command : Message → Text → Option Command → Act GoError
  run_command m args none = return none
  run_command m args (some Command.start) = in_private m (handle_start env m)
  run_command m args (some Command.login) = in_private m (handle_login env m args)
  run_command m args (some Command.logout) = in_private m (handle_logout env m)
  run_command m args (some Command.whoami) = in_private m (handle_whoami env logins m)
  run_command m args (some Command.register_group) = handle_bot_register_group env m
  run_command m args (some Command.set_matches) = handle_set_matches_topic env m
  run_command m args (some Command.set_stats) = handle_set_stats_topic fl env new_glicko2 default m
  run_command m args (some Command.refresh) = handle_refresh_usernames env m
  run_command m args (some Command.match) = handle_match env m args
  run_command m args (some Command.undo) = handle_undo env m args
  run_command m args (some Command.ping) = handle_ping env m

  unfoldable pub dispatch_command : Message → Act GoError
  dispatch_command m =
      let (cmd, args) = split_command m.text in
      if is_empty m.text || is_empty cmd
      then return none
      else (do upsert_sender_participant env m; run_command m args (command_of cmd))

  -- dispatchMessage behind the check of the stats topic.
  unfoldable pub after_litter : Message → Bool → Act GoError
  after_litter m true = return none
  after_litter m false =
      if is_private m.chat && is_login_reply m
      then handle_login_reply env logins m
      else if is_private m.chat && is_logout_reply m
      then handle_logout_reply env m
      else dispatch_command m

  unfoldable pub dispatch_plain : Message → Act GoError
  dispatch_plain m = do litter ← delete_stats_topic_litter env m; after_litter m litter

  -- A forwarded message in a private chat.
  unfoldable pub dispatch_private : Message → Act GoError
  dispatch_private m = elim m.forward_from [
    | some u ↦ handle_forwarded_add env m u
    | none ↦
        if not (is_empty m.forward_sender_name)
        then reply env m (
            text
              "This user has hidden their account on forwards — can't read their telegram id this way.")
        else dispatch_plain m
  ]

  -- dispatchMessage on a message with a sender.
  unfoldable pub dispatch_message : Message → Act GoError
  dispatch_message m = if is_private m.chat then dispatch_private m else dispatch_plain m

  unfoldable pub from_sender {ℓ} : {A : Type ℓ} → (A → Act GoError) → Option A → Act GoError
  from_sender handler none = return none
  from_sender handler (some a) = handler a

  -- Dispatch
  unfoldable pub dispatch : Update → Act GoError
  dispatch u = elim u.message [
    | some m ↦ from_sender dispatch_message m
    | none ↦ elim u.callback_query [
      | some q ↦ from_sender (dispatch_callback env) q
      | none ↦ elim u.my_chat_member [
        | some ev ↦ dispatch_my_chat_member env ev
        | none ↦ from_sender (dispatch_chat_member env) u.chat_member
      ]
    ]
  ]
