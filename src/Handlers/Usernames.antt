-- ===== src/Handlers/Usernames.antt =====
-- pkg/handlers/refresh.go: the refresh of the cached usernames, for one group and for all.
use ttbot_repo_placeholder.Prelude.{ℕ, suc, Option, none, some, List, [], ◌∷◌, ◌++◌, if◌then◌else◌}
use ttbot_repo_placeholder.Text.{Text, text, text_eqb}
use ttbot_repo_placeholder.Text.Decimal.{format_uint}
use ttbot_repo_placeholder.Models.{Group, Participant}
use ttbot_repo_placeholder.Store.Players.{list_participants, list_groups, upsert_participant}
use ttbot_repo_placeholder.Messages.{Message}
use ttbot_repo_placeholder.Bot.{
  Env, Act, GoError, Result, ok, err, reads, writes, ◌>>=◌, ◌>>◌, return,
}
use ttbot_repo_placeholder.Handlers.Replies.{reply}
use ttbot_repo_placeholder.Handlers.Group.{assert_group_admin}

module _ (env : Env) where
  -- The row with the fresh username; `none` where there is nothing to write.
  unfoldable pub renamed : Participant → Result Text → Option Participant
  renamed p (err e) = none
  renamed p (ok username) =
      if text_eqb username p.telegram_username
      then none
      else some (record p { telegram_username = username; activated_at = env.now })

  -- The loop of refreshGroupUsernames, and the number of rows that it has written.
  unfoldable pub refresh_each : ℕ → List Participant → ℕ → Act ℕ
  refresh_each gid [] changed = return changed
  refresh_each gid (p ∷ ps) changed = elim (renamed p (env.member_username gid p.telegram_id)) [
    | none ↦ refresh_each gid ps changed
    | some p' ↦ do writes (upsert_participant p'); refresh_each gid ps (suc changed)
  ]

  -- refreshGroupUsernames
  unfoldable pub refresh_group_usernames : Group → Act ℕ
  refresh_group_usernames g = do
    ps ← reads (list_participants g.group_id)
    refresh_each g.group_id ps 0

  unfoldable pub refresh_groups : List Group → Act GoError
  refresh_groups [] = return none
  refresh_groups (g ∷ gs) = do refresh_group_usernames g; refresh_groups gs

  -- refreshAllUsernames
  unfoldable pub refresh_all_usernames : Act GoError
  refresh_all_usernames = do gs ← reads list_groups; refresh_groups gs

  unfoldable pub refresh_usernames : Message → Option Group → Act GoError
  refresh_usernames m none = return none
  refresh_usernames m (some g) = do
    changed ← refresh_group_usernames g
    reply env m
        (text "Refresh complete. " ++ (format_uint changed ++ text " participants updated."))

  -- handleRefreshUsernames
  unfoldable pub handle_refresh_usernames : Message → Act GoError
  handle_refresh_usernames m = do g ← assert_group_admin env m; refresh_usernames m g
