-- ===== src/Ratings/Elo.antt =====
-- pkg/rating/elo.go
pub mod Tallies
use ttbot_repo_placeholder.Prelude.{ℕ, none, some, List, [], ◌∷◌, ltb, if◌then◌else◌}
use ttbot_repo_placeholder.GoMap
use ttbot_repo_placeholder.Text.{Text, text, text_key}
use ttbot_repo_placeholder.Ratings.{
  ℤ, Floats, RatedMatch, Score, score_of, opposite, no_games, count_game, Computed,
  validate_and_sort, Rating, PlayerRatings, Engine,
}

module _ {F : Type 0} (fl : Floats F) where
  -- eloK
  unfoldable pub elo_k : ℕ → F
  elo_k games = if ltb games 30 then fl.of_nat 32 else fl.of_nat 16

  -- The rating of a player that the map does not have yet.
  unfoldable pub first_rating : Rating F
  first_rating = record {
    rating = fl.of_nat 1000;
    deviation = fl.of_nat 0;
    volatility = fl.of_nat 0;
    best_rating = fl.of_nat 0;
    tally = no_games;
  }

  -- The closure `get`.
  unfoldable pub rating_of : Text → PlayerRatings F → Rating F
  rating_of id pr = elim (GoMap.get id pr) [ none ↦ first_rating | some r ↦ r ]

  -- sa and sb as floats.
  unfoldable pub score_value : Score → F
  score_value Score.won = fl.of_nat 1
  score_value Score.lost = fl.of_nat 0
  score_value Score.tied = fl.ratio 1 2

  -- ea
  unfoldable pub expected : Rating F → Rating F → F
  expected ra rb = fl.div (fl.of_nat 1) (
      fl.add (fl.of_nat 1)
        (fl.pow (fl.of_nat 10) (fl.div (fl.sub rb.rating ra.rating) (fl.of_nat 400))))

  -- applyMeta
  unfoldable pub apply_meta : RatedMatch → ℤ → ℤ → Score → Rating F → Rating F
  apply_meta m for against s r = record r {
    tally = count_game m for against s r.tally;
    best_rating = if fl.lt r.best_rating r.rating then r.rating else r.best_rating;
  }

  -- The new rating of a player by the expected score.
  unfoldable pub adjusted : Rating F → Score → F → Rating F
  adjusted r s e = record r {
    rating = fl.add r.rating (fl.mul (elo_k r.tally.games_played) (fl.sub (score_value s) e));
  }

  -- The body of the loop of Compute.
  unfoldable pub play : RatedMatch → PlayerRatings F → PlayerRatings F
  play m pr =
      let ra = rating_of m.player1_id pr in
      let rb = rating_of m.player2_id pr in
      let ea = expected ra rb in
      let s = score_of m in
      GoMap.put m.player2_id
        (apply_meta m m.player2_score m.player1_score (opposite s)
          (adjusted rb (opposite s) (fl.sub (fl.of_nat 1) ea)))
        (GoMap.put m.player1_id (apply_meta m m.player1_score m.player2_score s (adjusted ra s ea))
          pr)

  unfoldable pub play_all : List RatedMatch → PlayerRatings F → PlayerRatings F
  play_all [] pr = pr
  play_all (m ∷ ms) pr = play_all ms (play m pr)

  -- eloEngine.Compute
  unfoldable pub elo_compute : List RatedMatch → Computed (PlayerRatings F)
  elo_compute ms = elim (validate_and_sort ms) [
    | Computed.invalid e ↦ Computed.invalid e
    | Computed.computed sorted ↦ Computed.computed (play_all sorted [])
  ]

  -- NewELO
  unfoldable pub new_elo : Engine F
  new_elo = record { id = text "elo"; compute = elo_compute }
