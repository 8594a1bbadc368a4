-- ===== src/Ratings/Glicko/Tallies.antt =====
-- The counts that glicko2Engine.Compute of pkg/rating/glicko2.go reports are those of the ELO engine.
use ttbot_repo_placeholder.GoMap
use ttbot_repo_placeholder.GoMap.{GoMap}
use ttbot_repo_placeholder.Text.{Text, text_key}
use ttbot_repo_placeholder.Ratings.{Floats, Tally}
use ttbot_repo_placeholder.Ratings.Glicko.{Players, player_of}

module _ {F : Type 0} (fl : Floats F) (id : Text) where
  -- The player's tally in the engine's state.
  abbrev tally_in : Players F → Tally
  tally_in ps = (player_of fl id ps).tally
