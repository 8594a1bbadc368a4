-- ===== src/Handlers/Undo/Target.antt =====
-- The match that /undo means when it answers a message of the bot (pkg/handlers/undo.go, with
-- renderMatch of pkg/handlers/match.go).
use ttbot_repo_placeholder.Prelude.{ℕ, ◌≡◌, refl, ◌∙◌, ap, ◌<◌, ◌^◌, none, some, ◌++◌, arith}
use ttbot_repo_placeholder.Text.{Text, text}
use ttbot_repo_placeholder.Text.Decimal.{is_digit, format_uint}
use ttbot_repo_placeholder.Models.{Match}
use ttbot_repo_placeholder.Validation.{extract_match_id}
use ttbot_repo_placeholder.Validation.Ids.{extract_match_id_printed}
use ttbot_repo_placeholder.Messages.{Message, Replied}
use ttbot_repo_placeholder.Bot.{Env, Bot}
use ttbot_repo_placeholder.Names.{scoreboard, render_match}
use ttbot_repo_placeholder.Handlers.Undo.{undo_target}
use mathlib.Core.List.{append_assoc}

scoreboard_id :
    (m : Match) (verb p1 p2 extra : Text)
    → m.match_id < 2 ^ 64
    → extract_match_id (scoreboard m verb p1 p2 ++ extra) ≡ some m.match_id
unfolding scoreboard text is_digit
scoreboard_id m verb p1 p2 extra bound =
    ap (λ x. extract_match_id (text "Match #" ++ x)) (append_assoc (format_uint m.match_id) _ extra)
    ∙ extract_match_id_printed (text "Match ") _ m.match_id
        (refl, (refl, (refl, (refl, (refl, (refl, tt)))))) refl bound

-- A player who answers a message in which the bot shows a match, whatever notes stand behind it, with an
-- /undo that names no id means that match.
pub undo_target_answered :
    (env : Env) (gid : ℕ) (row : Match) (verb notes : Text) (b : Bot) (m : Message) (r : Replied)
    (args : Text)
    → extract_match_id args ≡ none
    → m.reply_to ≡ some r
    → r.text ≡ (render_match env gid row verb b).0 ++ notes
    → row.match_id < 2 ^ 64
    → undo_target m args ≡ some row.match_id
unfolding undo_target render_match
undo_target_answered env gid row verb notes b m r args none_named answers shown bound =
    ground (
      arith,
      none_named,
      answers,
      ap extract_match_id shown ∙ scoreboard_id row verb _ _ notes bound,
    )
