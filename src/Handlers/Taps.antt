-- ===== src/Handlers/Taps.antt =====
-- registerInteractiveMatch and the taps of pkg/handlers/match_interactive.go.
pub mod Dispatch
pub mod Callback
use ttbot_repo_placeholder.Prelude.{ℕ, Bool, true, false, List, [], ◌∷◌, eqb, if◌then◌else◌}
use ttbot_repo_placeholder.Text.{Text, text}
use ttbot_repo_placeholder.Models.{Group}
use ttbot_repo_placeholder.Validation.{Score}
use ttbot_repo_placeholder.Bot.{
  Env, Act, Button, Error, Result, ok, err, is_chat_admin, start_refresh, ◌>>=◌, ◌>>◌, return,
}
use ttbot_repo_placeholder.Names.{render_match}
use ttbot_repo_placeholder.Handlers.Register.{
  confirm_button, cancel_match_button, new_match, allocate, confirm_own,
}

module _ (env : Env) where
  -- The end of registerInteractiveMatch.
  unfoldable pub finish_interactive :
      Group → ℕ → ℕ → Bool → Text → Act (Result (Text × List (List Button)))
  finish_interactive g owner mid true body = do start_refresh g; return (ok (body, []))
  finish_interactive g owner mid false body = do
    confirm_own env.now g.group_id mid owner
    return
        (ok (body, (confirm_button g.group_id mid ∷ cancel_match_button g.group_id mid ∷ []) ∷ []))

  -- registerInteractiveMatch: the text and the rows for the prompt, `err` for self-play.
  unfoldable pub register_interactive_match :
      Group → ℕ → ℕ → Score → Act (Result (Text × List (List Button)))
  register_interactive_match g owner opp s =
      if eqb owner opp then return (err (Error.message (text "self-play not allowed"))) else (do
        let admin = is_chat_admin env g.group_id owner
        let build = new_match env.now g.group_id owner opp s owner admin
        mid ← allocate build g.group_id
        body ←
            render_match env g.group_id (build mid)
              (if admin then text "registered" else text "pending")
        finish_interactive g owner mid admin body)
