-- ===== src/Notify.antt =====
-- pkg/notify/notify.go: notifications in the matches topic of a group.
use ttbot_repo_placeholder.Prelude.{◌||◌, some, [], ◌∷◌, ◌++◌, eqb, if◌then◌else◌}
use ttbot_repo_placeholder.Text.{Text, text}
use ttbot_repo_placeholder.Text.Decimal.{format_int}
use ttbot_repo_placeholder.Models.{Group}
use ttbot_repo_placeholder.Names.{is_empty}
use ttbot_repo_placeholder.Bot.{Env, Act, GoError, Error, send_message, call, error_of}

-- The mention in front of a notification.
unfoldable pub mention : Text → Text
mention username = if is_empty username then [] else b'@' ∷ (username ++ text ", ")

module _ (env : Env) where
  -- SendInGroup; without a matches topic it is an error.
  unfoldable pub send_in_group : Group → Text → Text → Act GoError
  send_in_group g username body b =
      if eqb g.group_id 0 || eqb g.matches_topic_id 0
      then (
        some (
            Error.message (
              text "notify: group has no matches topic (group="
              ++ (format_int g.group_id ++ text ")"))),
        b,
      )
      else (let r =
            call env (send_message g.group_id g.matches_topic_id (mention username ++ body)) b in
          (error_of r.0, r.1))
