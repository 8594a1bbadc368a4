-- ===== src/Ratings.antt =====
-- pkg/rating: what the two engines share. A float64 is an element of a type with the operations that the
-- engines use; nothing is assumed of their rounding. A time is a number of nanoseconds since the Unix
-- epoch.
pub mod Order
pub mod Tallies
pub mod Elo
pub mod Periods
pub mod Glicko
use ttbot_repo_placeholder.Prelude.{
  ℕ, zero, suc, ◌+◌, ◌-◌, Bool, true, false, not, ◌||◌, none, some, Option, List, [], ◌∷◌, ltb, leb,
  eqb, if◌then◌else◌, map,
}
use ttbot_repo_placeholder.GoMap.{GoMap}
use ttbot_repo_placeholder.Text.{Text, text_eqb, text_ltb}
use ttbot_repo_placeholder.Sort.{sort_slice}

-- An `int` that may be negative: `negsuc n` is -(n + 1).
pub data ℤ : Type 0 where
  pos : ℕ → ℤ
  negsuc : ℕ → ℤ

unfoldable pub minus : ℕ → ℕ → ℤ
minus a b = if leb b a then ℤ.pos (a - b) else ℤ.negsuc (b - a - 1)

infixl 60 ◌+ℤ◌
unfoldable pub ◌+ℤ◌ : ℤ → ℤ → ℤ
unfolding minus
◌+ℤ◌ (ℤ.pos a) (ℤ.pos b) = ℤ.pos (a + b)
◌+ℤ◌ (ℤ.pos a) (ℤ.negsuc b) = minus a (suc b)
◌+ℤ◌ (ℤ.negsuc a) (ℤ.pos b) = minus b (suc a)
◌+ℤ◌ (ℤ.negsuc a) (ℤ.negsuc b) = ℤ.negsuc (suc (a + b))

-- a < b
unfoldable pub ltb_int : ℤ → ℤ → Bool
ltb_int (ℤ.pos a) (ℤ.pos b) = ltb a b
ltb_int (ℤ.pos a) (ℤ.negsuc b) = false
ltb_int (ℤ.negsuc a) (ℤ.pos b) = true
ltb_int (ℤ.negsuc a) (ℤ.negsuc b) = ltb b a

-- The operations on float64 that the engines and the rankings use.
pub record Floats (F : Type 0) : Type 0 where
  pub add : F → F → F
  pub sub : F → F → F
  pub mul : F → F → F
  pub div : F → F → F
  pub pow : F → F → F
  pub sqrt : F → F
  pub exp : F → F
  pub log : F → F
  pub abs : F → F
  pub lt : F → F → Bool
  pub eq : F → F → Bool
  pub neg : F → F
  -- the constant math.Pi*math.Pi
  pub pi_squared : F
  -- float64(n), and the constant n / d
  pub of_nat : ℕ → F
  pub ratio : ℕ → ℕ → F
  -- "%.0f"
  pub rounded : F → Text

-- rating.Match
pub record RatedMatch : Type 0 where
  pub player1_id : Text
  pub player2_id : Text
  pub player1_score : ℤ
  pub player2_score : ℤ
  pub played_at : ℕ

-- The values that `sa` and `sb` take: 1, 0 and 0.5.
pub data Score : Type 0 where
  won lost tied : Score

-- The switch on the two scores, for player 1.
unfoldable pub score_of : RatedMatch → Score
score_of m =
    if ltb_int m.player2_score m.player1_score
    then Score.won
    else if ltb_int m.player1_score m.player2_score
    then Score.lost
    else Score.tied

unfoldable pub opposite : Score → Score
opposite Score.won = Score.lost
opposite Score.lost = Score.won
opposite Score.tied = Score.tied

-- The part of the two engines' state that counts games: the fields of Rating and Meta, and of g2Player,
-- that are not floats. `none` is the zero time.
pub record Tally : Type 0 where
  pub games_played : ℕ
  pub wins : ℕ
  pub losses : ℕ
  pub points_for : ℤ
  pub points_against : ℤ
  pub win_streak : ℤ
  pub last_played : Option ℕ

abbrev pub no_games : Tally
no_games = record {
  games_played = 0;
  wins = 0;
  losses = 0;
  points_for = ℤ.pos 0;
  points_against = ℤ.pos 0;
  win_streak = ℤ.pos 0;
  last_played = none;
}

unfoldable pub streak_won : ℤ → ℤ
streak_won (ℤ.pos n) = ℤ.pos (suc n)
streak_won (ℤ.negsuc n) = ℤ.pos 1

unfoldable pub streak_lost : ℤ → ℤ
streak_lost (ℤ.pos zero) = ℤ.negsuc 0
streak_lost (ℤ.pos (suc n)) = ℤ.negsuc 0
streak_lost (ℤ.negsuc n) = ℤ.negsuc (suc n)

-- applyMeta up to the best rating, and all of applyG2Meta.
unfoldable pub count_game : RatedMatch → ℤ → ℤ → Score → Tally → Tally
count_game m for against s t = counted s
  where
    played : Tally
    played = record t {
      games_played = t.games_played + 1;
      points_for = t.points_for +ℤ for;
      points_against = t.points_against +ℤ against;
      last_played = some m.played_at;
    }

    counted : Score → Tally
    counted Score.won = record played { wins = t.wins + 1; win_streak = streak_won t.win_streak }
    counted Score.lost = record played {
      losses = t.losses + 1;
      win_streak = streak_lost t.win_streak;
    }
    counted Score.tied = played

-- The error of validateAndSort; the number is the index of the match.
pub data InputError : Type 0 where
  empty_player_id : ℕ → InputError
  self_play : ℕ → InputError
  negative_score : ℕ → InputError

unfoldable pub is_negative : ℤ → Bool
is_negative (ℤ.pos n) = false
is_negative (ℤ.negsuc n) = true

-- The body of the validation loop.
unfoldable pub match_error : ℕ → RatedMatch → Option InputError
match_error i m =
    if text_eqb m.player1_id [] || text_eqb m.player2_id []
    then some (InputError.empty_player_id i)
    else if text_eqb m.player1_id m.player2_id
    then some (InputError.self_play i)
    else if is_negative m.player1_score || is_negative m.player2_score
    then some (InputError.negative_score i)
    else none

unfoldable pub first_error : ℕ → List RatedMatch → Option InputError
first_error i [] = none
first_error i (m ∷ ms) =
    let later = first_error (suc i) ms in elim (match_error i m) [ some e ↦ some e | none ↦ later ]

-- A result, or the error of validateAndSort.
pub data Computed {ℓ} (A : Type ℓ) : Type ℓ where
  computed : A → Computed A
  invalid : InputError → Computed A

unfoldable pub played_before : RatedMatch → RatedMatch → Bool
played_before a b = ltb a.played_at b.played_at

-- validateAndSort
unfoldable pub validate_and_sort : List RatedMatch → Computed (List RatedMatch)
validate_and_sort ms = elim (first_error 0 ms) [
  | some e ↦ Computed.invalid e
  | none ↦ Computed.computed (sort_slice played_before ms)
]

-- rating.Rating
pub record Rating (F : Type 0) : Type 0 where
  pub rating : F
  pub deviation : F
  pub volatility : F
  pub best_rating : F
  pub tally : Tally

abbrev pub PlayerRatings : Type 0 → Type 0
PlayerRatings F = GoMap Text (Rating F)

-- rating.Engine
pub record Engine (F : Type 0) : Type 0 where
  pub id : Text
  pub compute : List RatedMatch → Computed (PlayerRatings F)

module _ {F : Type 0} (fl : Floats F) where
  -- The `less` of Sorted, on players with their ratings.
  unfoldable pub rated_above : Text × Rating F → Text × Rating F → Bool
  rated_above a b =
      if not (fl.eq a.1.rating b.1.rating) then fl.lt b.1.rating a.1.rating else text_ltb a.0 b.0

  -- Sorted. A map has one entry for a key.
  unfoldable pub sorted : PlayerRatings F → List Text
  sorted pr = map (λ e. e.0) (sort_slice rated_above pr)
