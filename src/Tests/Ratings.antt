-- ===== src/Tests/Ratings.antt =====
-- The theorems on the rating engines, on three matches of two days.
use ttbot_repo_placeholder.Prelude.{
  ℕ, ◌*◌, ◌≡◌, ◌↔◌, refl, List, [], ◌∷◌, true, arith, All, some, false, count,
}
use mathlib.Core.List.{Perm}
use ttbot_repo_placeholder.Text.{Text, text, text_eqb}
use ttbot_repo_placeholder.Models.{hour}
use ttbot_repo_placeholder.Sort.{IsSorted}
use ttbot_repo_placeholder.Ratings.{
  Floats, ℤ, RatedMatch, computed, validate_and_sort, played_before, PlayerRatings, no_games,
  is_negative,
}
use ttbot_repo_placeholder.Ratings.Tallies.{HasMore, plays, wins, loses}
use ttbot_repo_placeholder.Ratings.Elo.{elo_compute, rating_of}
use ttbot_repo_placeholder.Ratings.Elo.Tallies.{elo_tallies}
use ttbot_repo_placeholder.Tests.Data.{floats}
use ttbot_repo_placeholder.Ratings.Order.{is_rateable, validate_and_sort-IsSorted}
use ttbot_repo_placeholder.Ratings.Periods.{day, Period, group_by_period}
use ttbot_repo_placeholder.Ratings.Periods.Windows.{IsGrouping, group_by_period_windows}

abbrev game : ℕ → ℕ → RatedMatch
game at won = record {
  player1_id = text "7";
  player2_id = text "8";
  player1_score = ℤ.pos won;
  player2_score = ℤ.pos 2;
  played_at = at * hour;
}

validate_and_sort-IsSorted_example :
    ((s : List RatedMatch) × (validate_and_sort (game 30 3 ∷ game 9 1 ∷ []) ≡ computed s)
      × IsSorted played_before s
      × Perm s (game 30 3 ∷ game 9 1 ∷ []))
    ↔ All (λ m. is_rateable m ≡ true) (game 30 3 ∷ game 9 1 ∷ [])
validate_and_sort-IsSorted_example = validate_and_sort-IsSorted (game 30 3 ∷ game 9 1 ∷ [])

-- The matches of the first and of the third day; nobody plays on the second.
abbrev games : List RatedMatch
games = game 9 1 ∷ game 10 3 ∷ game 60 3 ∷ []

games-IsSorted : IsSorted played_before games
unfolding played_before
games-IsSorted = ((refl, (refl, tt)), ((refl, tt), (tt, tt)))

group_by_period_windows_example :
    (ps : List Period) × (group_by_period games 1 ≡ some ps) × IsGrouping (1 * day) games ps
group_by_period_windows_example =
    group_by_period_windows games 1 (ground arith) (ground arith) games-IsSorted

games-rateable : All (λ m. is_rateable m ≡ true) games
unfolding text_eqb is_negative text
games-rateable = (refl, (refl, (refl, tt)))

elo_tallies_example :
    (pr : PlayerRatings ℕ) × (elo_compute floats games ≡ computed pr)
    × ((id : Text)
        → HasMore id
            (count (plays id) games)
            (count (wins id) games)
            (count (loses id) games)
            no_games
            (rating_of floats id pr).tally)
elo_tallies_example = elo_tallies floats games games-rateable

-- Floats whose comparisons fail, so that the loops of glicko2Update are entered and left at once.
abbrev blunt : Floats ℕ
blunt = record floats { lt = λ x y. false; eq = λ x y. false }
