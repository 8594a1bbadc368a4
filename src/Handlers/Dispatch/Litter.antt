-- ===== src/Handlers/Dispatch/Litter.antt =====
-- deleteStatsTopicLitter of pkg/handlers/handlers.go, as dispatchMessage uses it.
use ttbot_repo_placeholder.Prelude.{
  ◌≢◌, List, any, eqb, if◌then◌else◌, ℕ, ◌≡◌, false, none, [], ◌∷◌, ◌++◌, arith,
}
use ttbot_repo_placeholder.Models.{Group}
use ttbot_repo_placeholder.Store.Matches.{found}
use ttbot_repo_placeholder.Store.Players.{get_group}
use ttbot_repo_placeholder.Messages.{Message, is_private}
use ttbot_repo_placeholder.Bot.{Env, Bot, delete_message, call}
use ttbot_repo_placeholder.Handlers.Replies.{call_ignored}
use ttbot_repo_placeholder.Ratings.{Floats, Engine}
use ttbot_repo_placeholder.Handlers.Accounts.{Logins}
use ttbot_repo_placeholder.Handlers.Dispatch.{
  is_litter, delete_if, delete_stats_topic_litter, after_litter, dispatch_command, dispatch_plain,
  dispatch_message,
}

-- The messages that the bot maintains in the stats topic.
abbrev pub maintained : Group → List ℕ
maintained g = g.rankings_elo_message_id ∷ g.rankings_glicko_message_id ∷ g.stats_message_id ∷ []

-- In the stats topic of a registered group, in a chat that is not private, one of the three maintained
-- messages is handled as a message elsewhere. Any other message is deleted whatever its text, also when
-- that is a command: the deletion is the only call, its error is dropped, and nothing else of the bot
-- changes.
pub litter_deleted :
    {F : Type 0} (fl : Floats F) (env : Env) (logins : Logins) (new_glicko2 : ℕ → Engine F)
    (default : ℕ) (m : Message) (g : Group) (b : Bot)
    → is_private m.chat ≡ false
    → get_group m.chat.id b.store ≡ found g
    → g.stats_topic_id ≢ 0
    → m.thread_id ≡ g.stats_topic_id
    → dispatch_message fl env logins new_glicko2 default m b ≡ (
        if any (eqb m.message_id) (maintained g)
        then dispatch_command fl env logins new_glicko2 default m b
        else (none, record b { sent = b.sent ++ delete_message m.chat.id m.message_id ∷ [] }))
unfolding dispatch_message dispatch_plain delete_stats_topic_litter delete_if after_litter is_litter
    call_ignored call any
litter_deleted fl env logins new_glicko2 default m g b p h t l = ground (arith, p, h, t, l)
