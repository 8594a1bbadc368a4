-- ===== src/Handlers/Group/StatsCommand.antt =====
-- handleSetStatsTopic of pkg/handlers/group.go.
use ttbot_repo_placeholder.Prelude.{ℕ, Option, none, some, ◌++◌, eqb, if◌then◌else◌}
use ttbot_repo_placeholder.Text.{text}
use ttbot_repo_placeholder.Models.{Group}
use ttbot_repo_placeholder.Store.Players.{upsert_group}
use ttbot_repo_placeholder.Messages.{Message}
use ttbot_repo_placeholder.Bot.{Env, Act, GoError, writes, ◌>>=◌, ◌>>◌, return}
use ttbot_repo_placeholder.Handlers.Replies.{reply}
use ttbot_repo_placeholder.Ratings.{Floats, Engine}
use ttbot_repo_placeholder.Handlers.Rankings.StatsTopic.{refresh_stats_topic}
use ttbot_repo_placeholder.Handlers.Group.{assert_group_admin}

-- The group with a new stats topic, in which the bot has posted nothing yet.
unfoldable pub with_stats_topic : Group → ℕ → Group
with_stats_topic g topic = record g {
  stats_topic_id = topic;
  rankings_elo_message_id = 0;
  rankings_glicko_message_id = 0;
  stats_message_id = 0;
}

module _ {F : Type 0} (fl : Floats F) (env : Env) (new_glicko2 : ℕ → Engine F) (default : ℕ) where
  unfoldable pub bind_stats_topic : Message → Group → Act GoError
  bind_stats_topic m g = do
    writes (upsert_group g)
    refresh_stats_topic fl env new_glicko2 default g
    reply env m (
        text
          "Stats topic set. I posted rankings and stats messages here — they update automatically on every match.\n"
        ++ text
            "Tip: restrict 'Send messages' permission in this topic so only admins/bots can post.")

  unfoldable pub set_stats_topic : Message → Option Group → Act GoError
  set_stats_topic m none = return none
  set_stats_topic m (some g) =
      if eqb m.thread_id 0
      then reply env m
          (text "Run this command inside the topic you want to use as the stats topic.")
      else bind_stats_topic m (with_stats_topic g m.thread_id)

  -- handleSetStatsTopic
  unfoldable pub handle_set_stats_topic : Message → Act GoError
  handle_set_stats_topic m = do g ← assert_group_admin env m; set_stats_topic m g
