-- ===== src/Ratings/Glicko.antt =====
-- pkg/rating/glicko2.go but groupByPeriod. Nothing bounds the rounds of the two loops of glicko2Update
-- on float64 numbers, so they run on fuel, and `none` says that it ran out, or
-- that groupByPeriod does not end.
pub mod Update
pub mod Tallies
use ttbot_repo_placeholder.Prelude.{
  ℕ, suc, ◌++◌, Bool, Option, none, some, List, [], ◌∷◌, ltb, if◌then◌else◌, map,
}
use ttbot_repo_placeholder.GoMap
use ttbot_repo_placeholder.GoMap.{GoMap}
use ttbot_repo_placeholder.Text.{Text, text, text_key}
use ttbot_repo_placeholder.Ratings.{
  Floats, RatedMatch, Score, score_of, opposite, Tally, no_games, count_game, Computed,
  validate_and_sort, Rating, PlayerRatings,
}
use ttbot_repo_placeholder.Ratings.Elo.{score_value}
use ttbot_repo_placeholder.Ratings.Periods.{Period, group_by_period}
use ttbot_repo_placeholder.Ratings.Glicko.Update.{Opponent, Strength, glicko2_update, square_sum}

-- NewGlicko2 on its argument.
unfoldable pub period_length : ℕ → ℕ
period_length days = if ltb days 1 then 1 else days

-- g2Player
pub record Player (F : Type 0) : Type 0 where
  pub strength : Strength F
  pub best_rating : F
  pub tally : Tally

abbrev pub Players : Type 0 → Type 0
Players F = GoMap Text (Player F)

module _ {F : Type 0} (fl : Floats F) where
  -- Glicko2Scale
  unfoldable pub scale : F
  scale = fl.ratio 1737178 10000

  -- newG2Player
  unfoldable pub new_player : Player F
  new_player = record {
    strength = record { mu = fl.of_nat 0; phi = fl.ratio 3500000 1737178; sigma = fl.ratio 6 100 };
    best_rating = fl.of_nat 1500;
    tally = no_games;
  }

  -- g2Player.rating
  unfoldable pub rating_of : Player F → F
  unfolding scale
  rating_of p = fl.add (fl.mul p.strength.mu scale) (fl.of_nat 1500)

  -- g2Player.deviation
  unfoldable pub deviation_of : Player F → F
  unfolding scale
  deviation_of p = fl.mul p.strength.phi scale

  -- The closure `get`, which puts a new player into the map.
  unfoldable pub ensure : Text → Players F → Players F
  ensure id ps = elim (GoMap.get id ps) [ none ↦ GoMap.put id new_player ps | some _ ↦ ps ]

  unfoldable pub player_of : Text → Players F → Player F
  player_of id ps = elim (GoMap.get id ps) [ none ↦ new_player | some p ↦ p ]

  -- participants[id] = append(participants[id], o)
  unfoldable pub add_opponent :
      Text → Opponent F → GoMap Text (List (Opponent F)) → GoMap Text (List (Opponent F))
  add_opponent id o m =
      GoMap.put id ((elim (GoMap.get id m) [ none ↦ [] | some os ↦ os ]) ++ o ∷ []) m

  -- The opponents of a period, and the players that it adds.
  unfoldable pub collect :
      List RatedMatch
      → GoMap Text (List (Opponent F))
      → Players F
      → GoMap Text (List (Opponent F)) × Players F
  collect [] m ps = (m, ps)
  collect (r ∷ rs) m ps =
      let ps' = ensure r.player2_id (ensure r.player1_id ps) in
      let a = (player_of r.player1_id ps').strength in
      let b = (player_of r.player2_id ps').strength in
      let s = score_of r in
      collect rs
        (add_opponent r.player2_id
          (record { mu = a.mu; phi = a.phi; score = score_value fl (opposite s) })
          (add_opponent r.player1_id (record { mu = b.mu; phi = b.phi; score = score_value fl s })
            m))
        ps'

  -- The update of one player: by the opponents of the period, or step 6 alone without any.
  unfoldable pub update_player : ℕ → Option (List (Opponent F)) → Player F → Option (Player F)
  update_player fuel none p = some (record p {
    strength = record p.strength { phi = square_sum fl p.strength.phi p.strength.sigma };
  })
  update_player fuel (some os) p = elim (glicko2_update fl fuel p.strength os) [
    | none ↦ none
    | some s ↦ some (record p { strength = s })
  ]

  unfoldable pub kept : Text → Option (Player F) → Option (Players F) → Option (Players F)
  kept id (some p) (some ps) = some ((id, p) ∷ ps)
  kept id (some p) none = none
  kept id none ps = none

  -- The two loops that update the players. Each new value is computed from the player's own value
  -- before the period and from the opponents' values that `collect` has copied, so one pass over the
  -- players does both.
  unfoldable pub update_players :
      ℕ → GoMap Text (List (Opponent F)) → Players F → Option (Players F)
  update_players fuel m [] = some []
  update_players fuel m ((id, p) ∷ ps) =
      kept id (update_player fuel (GoMap.get id m) p) (update_players fuel m ps)

  -- applyG2Meta on the player in the map.
  unfoldable pub count_for : Text → (Tally → Tally) → Players F → Players F
  count_for id f ps = let p = player_of id ps in GoMap.put id (record p { tally = f p.tally }) ps

  -- The closures of metaUpdates, in their order.
  unfoldable pub count_games : List RatedMatch → Players F → Players F
  count_games [] ps = ps
  count_games (m ∷ ms) ps = count_games ms (
      count_for m.player2_id (count_game m m.player2_score m.player1_score (opposite (score_of m)))
        (count_for m.player1_id (count_game m m.player1_score m.player2_score (score_of m)) ps))

  -- The loop of the best ratings.
  unfoldable pub raise_best : Players F → Players F
  raise_best [] = []
  raise_best ((id, p) ∷ ps) =
      (
        id,
        record p {
          best_rating = if fl.lt p.best_rating (rating_of p) then rating_of p else p.best_rating;
        },
      )
      ∷ raise_best ps

  unfoldable pub after_update : List RatedMatch → Option (Players F) → Option (Players F)
  after_update ms none = none
  after_update ms (some ps) = some (raise_best (count_games ms ps))

  -- The body of the loop over the periods.
  unfoldable pub rate_period : ℕ → Period → Players F → Option (Players F)
  rate_period fuel p ps =
      let r = collect p.matches [] ps in after_update p.matches (update_players fuel r.0 r.1)

  unfoldable pub rate_periods : ℕ → List Period → Players F → Option (Players F)
  rate_periods fuel [] ps = some ps
  rate_periods fuel (p ∷ periods) ps = elim (rate_period fuel p ps) [
    | none ↦ none
    | some ps' ↦ rate_periods fuel periods ps'
  ]

  -- The translation of a player at the end of Compute.
  unfoldable pub rating_row : Text × Player F → Text × Rating F
  rating_row e = (
    e.0,
    record {
      rating = rating_of e.1;
      deviation = deviation_of e.1;
      volatility = e.1.strength.sigma;
      best_rating = e.1.best_rating;
      tally = e.1.tally;
    },
  )

  -- glicko2Engine.Compute
  unfoldable pub glicko2_compute : ℕ → ℕ → List RatedMatch → Option (Computed (PlayerRatings F))
  glicko2_compute fuel period_days ms = elim (validate_and_sort ms) [
    | Computed.invalid e ↦ some (Computed.invalid e)
    | Computed.computed sorted ↦ elim (group_by_period sorted period_days) [
      | none ↦ none
      | some periods ↦ elim (rate_periods fuel periods []) [
        | none ↦ none
        | some ps ↦ some (Computed.computed (map rating_row ps))
      ]
    ]
  ]
