-- ===== src/Handlers/Rankings.antt =====
-- pkg/handlers/rankings.go: the ratings of a group and the texts of the stats topic. The engines are
-- those of pkg/rating: the one of NewELO, and `new_glicko2` for NewGlicko2, whose loops need not end.
pub mod StatsTopic
use ttbot_repo_placeholder.Prelude.{
  ℕ, suc, ◌+◌, ◌*◌, Bool, false, not, ◌&&◌, ◌||◌, Option, none, some, List, [], ◌∷◌, ◌++◌, ltb, leb,
  eqb, take, if◌then◌else◌,
}
use ttbot_repo_placeholder.GoMap
use ttbot_repo_placeholder.GoMap.{GoMap, nat_eq}
use ttbot_repo_placeholder.Text.{Text, text, text_key, trim_newlines}
use ttbot_repo_placeholder.Text.Decimal.{format_int, format_uint, parse_int}
use ttbot_repo_placeholder.Validation.{digit_run}
use ttbot_repo_placeholder.Models.{Group, Match, MatchStatus, is_status}
use ttbot_repo_placeholder.Store.{Store}
use ttbot_repo_placeholder.Store.Matches.{found, not_found, list_by_group}
use ttbot_repo_placeholder.Store.Accounts.{get_setting}
use ttbot_repo_placeholder.Bot.{Env, Act, Error, Result, ok, err, reads, ◌>>=◌, return}
use ttbot_repo_placeholder.Names.{has_nickname, player_label}
use ttbot_repo_placeholder.Ratings.{
  ℤ, Floats, RatedMatch, InputError, Computed, Tally, no_games, Rating, PlayerRatings, Engine,
  sorted,
}
use ttbot_repo_placeholder.Ratings.Elo.{new_elo}

-- fmt.Sscanf(s, "%d", &d), as far as d > 0 asks: a number that is not positive reads as 0.
unfoldable pub skip_blanks : Text → Text
skip_blanks [] = []
skip_blanks (c ∷ s) =
    let rest = skip_blanks s in
    if eqb c 32 || (leb 9 c && leb c 13 && not (eqb c 10)) then rest else c ∷ s

unfoldable pub unsigned_part : Text → Text
unsigned_part [] = []
unsigned_part (c ∷ s) = if eqb c b'+' then s else c ∷ s

unfoldable pub scan_positive : Text → ℕ
scan_positive s = elim (parse_int (digit_run (unsigned_part (skip_blanks s)))) [
  | none ↦ 0
  | some n ↦ n
]

-- The rating period of buildEngines.
unfoldable pub period_days : ℕ → Store → ℕ
period_days default s = elim (get_setting (text "rating_period_days") s) [
  | not_found ↦ default
  | found row ↦ if ltb 0 (scan_positive row.value) then scan_positive row.value else default
]

-- The keys that the first loop of computeRatingsFor meets.
unfoldable pub players_of : List Match → List ℕ
players_of [] = []
players_of (m ∷ ms) = m.player1_id ∷ m.player2_id ∷ players_of ms

abbrev pub is_nicknamed : GoMap ℕ Bool → ℕ → Bool
is_nicknamed nicknamed id = elim (GoMap.get id nicknamed) [ none ↦ false | some b ↦ b ]

-- The matches that count.
unfoldable pub counts : GoMap ℕ Bool → Match → Bool
counts nicknamed m =
    is_status m.status MatchStatus.approved
    && (is_nicknamed nicknamed m.player1_id && is_nicknamed nicknamed m.player2_id)

unfoldable pub rated_match : Match → RatedMatch
rated_match m = record {
  player1_id = format_int m.player1_id;
  player2_id = format_int m.player2_id;
  player1_score = ℤ.pos m.player1_score;
  player2_score = ℤ.pos m.player2_score;
  played_at = m.played_at;
}

-- The second loop of computeRatingsFor.
unfoldable pub rated_input : GoMap ℕ Bool → List Match → List RatedMatch
rated_input nicknamed [] = []
rated_input nicknamed (m ∷ ms) =
    let rest = rated_input nicknamed ms in if counts nicknamed m then rated_match m ∷ rest else rest

-- The errors of validateAndSort.
unfoldable pub input_error : InputError → Error
input_error (InputError.empty_player_id i) =
    Error.message (text "match " ++ (format_uint i ++ text ": empty player id"))
input_error (InputError.self_play i) =
    Error.message (text "match " ++ (format_uint i ++ text ": self-play"))
input_error (InputError.negative_score i) =
    Error.message (text "match " ++ (format_uint i ++ text ": negative score"))

unfoldable pub result_of {ℓ} : {A : Type ℓ} → Computed A → Result A
result_of (Computed.computed a) = ok a
result_of (Computed.invalid e) = err (input_error e)

-- MaxRankings
abbrev pub max_rankings : ℕ
max_rankings = 100

module _ {F : Type 0} (fl : Floats F) (env : Env) where
  -- The first loop of computeRatingsFor.
  unfoldable pub check_players : List ℕ → GoMap ℕ Bool → Act (GoMap ℕ Bool)
  check_players [] nicknamed = return nicknamed
  check_players (id ∷ ids) nicknamed = elim (GoMap.get id nicknamed) [
    | some _ ↦ check_players ids nicknamed
    | none ↦ do r ← has_nickname env id; check_players ids (GoMap.put id r nicknamed)
  ]

  -- computeRatingsFor
  unfoldable pub compute_ratings_for : Group → Engine F → Act (Result (PlayerRatings F))
  compute_ratings_for g engine = do
    matches ← reads (list_by_group g.group_id)
    nicknamed ← check_players (players_of matches) []
    return (result_of (engine.compute (rated_input nicknamed matches)))

  -- pr[id]
  unfoldable pub rating_at : Text → PlayerRatings F → Rating F
  rating_at id pr = elim (GoMap.get id pr) [
    | some r ↦ r
    | none ↦ record {
      rating = fl.of_nat 0;
      deviation = fl.of_nat 0;
      volatility = fl.of_nat 0;
      best_rating = fl.of_nat 0;
      tally = no_games;
    }
  ]

  -- playerLabel for the key of a rating.
  unfoldable pub label_for : ℕ → Text → Act Text
  label_for gid id = player_label env gid (elim (parse_int id) [ none ↦ 0 | some uid ↦ uid ])

  -- " (RD %.0f)"
  unfoldable pub deviation_text : Rating F → Text
  deviation_text r = text " (RD " ++ (fl.rounded r.deviation ++ b')' ∷ [])

  -- One line of renderRankings.
  unfoldable pub ranking_line : ℕ → Text → Rating F → Text
  ranking_line i display r =
      format_uint i
      ++ (text ". "
          ++ (display
              ++ (text " — "
                  ++ (fl.rounded r.rating
                      ++ ((if fl.lt (fl.of_nat 0) r.deviation then deviation_text r else [])
                          ++ 10 ∷ [])))))

  -- The loop of renderRankings.
  unfoldable pub ranking_lines : ℕ → PlayerRatings F → ℕ → List Text → Act Text
  ranking_lines gid pr i [] = return []
  ranking_lines gid pr i (id ∷ ids) = do
    display ← label_for gid id
    rest ← ranking_lines gid pr (suc i) ids
    return (ranking_line i display (rating_at id pr) ++ rest)

  unfoldable pub rankings_text : Group → Text → PlayerRatings F → Act Text
  rankings_text g label [] = return (
      label
      ++ text
          "\n\nNo matches counted yet. Once two players with S21 nicknames play and approve a match, this list updates automatically.")
  rankings_text g label (e ∷ pr) = do
    lines ← ranking_lines g.group_id (e ∷ pr) 1 (take max_rankings (sorted fl (e ∷ pr)))
    return (trim_newlines (label ++ 10 ∷ lines))

  unfoldable pub ranked : Group → Text → Result (PlayerRatings F) → Act (Result Text)
  ranked g label (err e) = return (err e)
  ranked g label (ok pr) = do t ← rankings_text g label pr; return (ok t)

  -- renderRankings
  unfoldable pub render_rankings : Group → Engine F → Text → Act (Result Text)
  render_rankings g engine label = do pr ← compute_ratings_for g engine; ranked g label pr

  -- wr
  unfoldable pub win_rate : Tally → Text
  win_rate t =
      if ltb 0 (t.wins + t.losses)
      then fl.rounded
          (fl.div (fl.mul (fl.of_nat 100) (fl.of_nat t.wins)) (fl.of_nat (t.wins + t.losses)))
        ++ b'%' ∷ []
      else text "—"

  unfoldable pub glicko_line : Option (Rating F) → Text
  glicko_line none = []
  glicko_line (some r) = text "\nGlicko-2: " ++ (fl.rounded r.rating ++ deviation_text r)

  -- The block of one player in renderCombinedStats.
  unfoldable pub stats_block : Text → Rating F → Option (Rating F) → Text
  stats_block display elo glicko =
      10 ∷ display
      ++ (text "\nMatches: "
          ++ (format_uint elo.tally.games_played
              ++ (text " | Wins: "
                  ++ (format_uint elo.tally.wins
                      ++ (text " | Losses: "
                          ++ (format_uint elo.tally.losses
                              ++ (text " | Win Rate: "
                                  ++ (win_rate elo.tally
                                      ++ (text "\nELO: "
                                          ++ (fl.rounded elo.rating
                                              ++ (glicko_line glicko ++ 10 ∷ [])))))))))))

  -- The loop of renderCombinedStats.
  unfoldable pub stats_blocks : ℕ → PlayerRatings F → PlayerRatings F → List Text → Act Text
  stats_blocks gid elo glicko [] = return []
  stats_blocks gid elo glicko (id ∷ ids) = do
    display ← label_for gid id
    rest ← stats_blocks gid elo glicko ids
    return (stats_block display (rating_at id elo) (GoMap.get id glicko) ++ rest)

  unfoldable pub stats_text : Group → PlayerRatings F → PlayerRatings F → Act Text
  stats_text g [] [] = return (
      text
        "Stats\n\nNo matches counted yet. Per-player stats will appear here once players with S21 nicknames approve their first match.")
  stats_text g elo glicko = do
    blocks ← stats_blocks g.group_id elo glicko (take max_rankings (sorted fl elo))
    return (trim_newlines (text "Stats\n" ++ blocks))

  unfoldable pub combined :
      Group → Result (PlayerRatings F) → Result (PlayerRatings F) → Act (Result Text)
  combined g (ok elo) (ok glicko) = do t ← stats_text g elo glicko; return (ok t)
  combined g (ok elo) (err e) = return (err e)
  combined g (err e) _ = return (err e)

  -- renderCombinedStats from the first rating on.
  unfoldable pub with_glicko : Group → Engine F → Result (PlayerRatings F) → Act (Result Text)
  with_glicko g glicko (err e) = return (err e)
  with_glicko g glicko (ok pr) = do other ← compute_ratings_for g glicko; combined g (ok pr) other

  -- renderCombinedStats
  unfoldable pub render_combined_stats : Group → Engine F → Engine F → Act (Result Text)
  render_combined_stats g elo glicko = do pr ← compute_ratings_for g elo; with_glicko g glicko pr
