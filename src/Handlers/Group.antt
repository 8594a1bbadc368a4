-- ===== src/Handlers/Group.antt =====
-- pkg/handlers/group.go: /bot_register_group, /set_matches_topic and the events of the chat's members;
-- /set_stats_topic, whose last step is the refresh of the stats topic, is in StatsCommand.
pub mod StatsCommand
use ttbot_repo_placeholder.Prelude.{
  ℕ, Bool, not, ◌&&◌, ◌||◌, Option, none, some, List, [], ◌∷◌, ◌++◌, eqb, if◌then◌else◌,
}
use ttbot_repo_placeholder.Text.{Text, text, text_eqb}
use ttbot_repo_placeholder.Models.{Group, Participant}
use ttbot_repo_placeholder.Store.{Store}
use ttbot_repo_placeholder.Store.Matches.{found, not_found}
use ttbot_repo_placeholder.Store.Players.{get_group, upsert_group, upsert_participant}
use ttbot_repo_placeholder.Store.Accounts.{list_admins}
use ttbot_repo_placeholder.Messages.{ChatUser, Message, ChatMember, ChatMemberUpdate, is_supergroup}
use ttbot_repo_placeholder.Names.{is_empty}
use ttbot_repo_placeholder.Bot.{
  Env, Act, GoError, call, is_chat_admin, send_message, leave_chat, writes, ◌>>=◌, ◌>>◌, return,
}
use ttbot_repo_placeholder.Handlers.Replies.{call_error, call_ignored, reply}

-- The campus of the first row of admins, "" without one.
unfoldable pub stored_campus : Store → Text × Text
stored_campus s = elim (list_admins s) [ [] ↦ ([], []) | a ∷ _ ↦ (a.campus_id, a.campus_name) ]

unfoldable pub or_else : Text → Text → Text
or_else label fallback = if is_empty label then fallback else label

-- upsertBackfillParticipant, and the other places that write a row for a user of the platform.
unfoldable pub participant_of : ℕ → ℕ → ChatUser → Participant
participant_of now gid u = record {
  group_id = gid;
  telegram_id = u.id;
  telegram_username = u.username;
  activated_at = now;
}

-- The statuses of those who are in the chat.
unfoldable pub has_joined : Text → Bool
has_joined status =
    text_eqb status (text "member")
    || (text_eqb status (text "administrator") || text_eqb status (text "creator"))

module _ (env : Env) where
  -- The row of a group that is linked for the first time.
  unfoldable pub new_group : ℕ → ℕ → Text × Text → Group
  new_group gid admin campus = record {
    group_id = gid;
    campus_id = campus.0;
    campus_name = campus.1;
    admin_telegram_id = admin;
    matches_topic_id = 0;
    stats_topic_id = 0;
    rankings_message_id = 0;
    stats_message_id = 0;
    rankings_elo_message_id = 0;
    rankings_glicko_message_id = 0;
    stats_elo_message_id = 0;
    stats_glicko_message_id = 0;
    confirmation_timeout_hours = 24;
    created_at = env.now;
  }

  -- handleBotRegisterGroup on a group that is linked already.
  unfoldable pub relink : Message → Group → Text × Text → Act GoError
  relink m g campus = do
    writes (upsert_group (record g { campus_id = campus.0; campus_name = campus.1 }))
    reply env m
        (text "Group is already linked (" ++ (or_else campus.1 (text "this group") ++ text ")."))

  unfoldable pub link : Message → Text × Text → Act GoError
  link m campus = do
    writes (upsert_group (new_group m.chat.id m.from.id campus))
    reply env m (
        text "Group linked to "
        ++ (or_else campus.1 (text "ttbot")
            ++ text
                ". Now run /set_matches_topic in the matches topic and /set_stats_topic in the read-only stats topic."))

  -- handleBotRegisterGroup
  unfoldable pub handle_bot_register_group : Message → Act GoError
  handle_bot_register_group m b =
      if not (is_supergroup m.chat)
      then reply env m (text "I only work in supergroups with forum topics enabled.") b
      else if not (is_chat_admin env m.chat.id m.from.id)
      then reply env m (text "Only group admins can configure the group.") b
      else elim (get_group m.chat.id b.store) [
        | found g ↦ relink m g (stored_campus b.store) b
        | not_found ↦ link m (stored_campus b.store) b
      ]

  -- assertGroupAdmin; `none` is its error, after the reply.
  unfoldable pub assert_group_admin : Message → Act (Option Group)
  assert_group_admin m b = elim (get_group m.chat.id b.store) [
    | not_found ↦ (
      none,
      (reply env m (text "This group isn't linked yet. Admin: run /bot_register_group.") b).1,
    )
    | found g ↦
        if not (is_chat_admin env m.chat.id m.from.id)
        then (none, (reply env m (text "Only group admins can configure the group.") b).1)
        else (some g, b)
  ]

  unfoldable pub set_matches_topic : Message → Option Group → Act GoError
  set_matches_topic m none = return none
  set_matches_topic m (some g) =
      if eqb m.thread_id 0
      then reply env m
          (text "Run this command inside the topic you want to use as the matches topic.")
      else (do
        writes (upsert_group (record g { matches_topic_id = m.thread_id }))
        reply env m (text "Matches topic set. /match and /undo will be accepted here."))

  -- handleSetMatchesTopic
  unfoldable pub handle_set_matches_topic : Message → Act GoError
  handle_set_matches_topic m = do g ← assert_group_admin m; set_matches_topic m g

  -- dispatchMyChatMember where the bot has been added to the chat.
  unfoldable pub greet : ChatMemberUpdate → Act GoError
  greet ev =
      if not (is_supergroup ev.chat)
      then (do
        call_ignored env (
            send_message ev.chat.id 0 (
              text
                "I only work in supergroups with forum topics enabled. Please enable Topics in group settings, or move me to a supergroup."))
        call_error env (leave_chat ev.chat.id))
      else (do
        call_ignored env (
            send_message ev.chat.id 0 (
              text
                "Hi! A group admin can run /bot_register_group here, then /set_matches_topic and /set_stats_topic inside the relevant topics."))
        return none)

  -- dispatchMyChatMember
  unfoldable pub dispatch_my_chat_member : ChatMemberUpdate → Act GoError
  dispatch_my_chat_member ev b = elim ev.new_chat_member [
    | none ↦ (none, b)
    | some c ↦
        if not (text_eqb c.status (text "member")) && not (text_eqb c.status (text "administrator"))
        then (none, b)
        else greet ev b
  ]

  -- dispatchChatMember on a member who has joined.
  unfoldable pub record_member : ℕ → ChatUser → Act GoError
  record_member gid u b = elim (get_group gid b.store) [
    | not_found ↦ (none, b)
    | found g ↦ (do writes (upsert_participant (participant_of env.now gid u)); return none) b
  ]

  unfoldable pub member_changed : ChatMemberUpdate → Text → Option ChatUser → Act GoError
  member_changed ev status none = return none
  member_changed ev status (some u) =
      if not (has_joined status) then return none else record_member ev.chat.id u

  -- dispatchChatMember
  unfoldable pub dispatch_chat_member : ChatMemberUpdate → Act GoError
  dispatch_chat_member ev b = elim ev.new_chat_member [
    | none ↦ (none, b)
    | some c ↦ member_changed ev c.status c.user b
  ]
