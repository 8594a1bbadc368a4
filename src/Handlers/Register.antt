-- ===== src/Handlers/Register.antt =====
-- What the two ways to register a match share (pkg/handlers/match.go, handleMatch, and
-- pkg/handlers/match_interactive.go, registerInteractiveMatch): the row, its allocation, the author's own
-- confirmation and the two buttons. The store in memory fails in no other way than with ErrNotFound, so
-- the branches on its other errors are not there.
use ttbot_repo_placeholder.Prelude.{ℕ, Bool, ◌∷◌, ◌++◌, if◌then◌else◌}
use ttbot_repo_placeholder.Text.{Text, text}
use ttbot_repo_placeholder.Text.Decimal.{format_int, format_uint}
use ttbot_repo_placeholder.Models.{Match, MatchStatus}
use ttbot_repo_placeholder.Validation.{Score}
use ttbot_repo_placeholder.Store.Matches.{allocate_and_insert_match}
use ttbot_repo_placeholder.Store.Votes.{insert_confirmation}
use ttbot_repo_placeholder.Bot.{Act, Button, writes}

abbrev pub cb_confirm : Text → Text
cb_confirm s = text "m:c:" ++ s

abbrev pub cb_cancel : Text → Text
cb_cancel s = text "m:x:" ++ s

-- The payload of the buttons under a match, "%d:%d".
unfoldable pub match_payload : ℕ → ℕ → Text
match_payload gid mid = format_int gid ++ b':' ∷ format_uint mid

unfoldable pub confirm_button : ℕ → ℕ → Button
confirm_button gid mid = record {
  label = text "Confirm";
  callback = cb_confirm (match_payload gid mid);
}

unfoldable pub cancel_match_button : ℕ → ℕ → Button
cancel_match_button gid mid = record {
  label = text "Cancel";
  callback = cb_cancel (match_payload gid mid);
}

-- The status of a new match.
unfoldable pub initial_status : Bool → MatchStatus
initial_status admin = if admin then MatchStatus.approved else MatchStatus.pending

-- The row that the closure given to AllocateAndInsertMatch builds.
unfoldable pub new_match : ℕ → ℕ → ℕ → ℕ → Score → ℕ → Bool → ℕ → Match
new_match now gid p1 p2 s by admin mid = record {
  group_id = gid;
  match_id = mid;
  player1_id = p1;
  player2_id = p2;
  player1_score = s.p1;
  player2_score = s.p2;
  registered_by = by;
  status = initial_status admin;
  played_at = now;
  created_at = now;
}

-- AllocateAndInsertMatch on the bot's store.
unfoldable pub allocate : (ℕ → Match) → ℕ → Act ℕ
allocate build gid b =
    let r = allocate_and_insert_match gid build b.store in (r.0, record b { store = r.1 })

-- The confirmation of a match by one user.
unfoldable pub confirm_own : ℕ → ℕ → ℕ → ℕ → Act (Unit {0})
confirm_own now gid mid user = writes (
    insert_confirmation
      (record { group_id = gid; match_id = mid; telegram_id = user; confirmed_at = now }))
