-- ===== src/Ratings/Tallies.antt =====
-- What the counts in a rating mean: the games of a player among the matches, and those that the player
-- won and lost. A tally counts a player's games in the order of a list; the counts do not depend on it.
use ttbot_repo_placeholder.Prelude.{
  ℕ, ◌+◌, ◌≡◌, refl, Bool, true, false, ◌&&◌, ◌||◌, none, some, List, [], ◌∷◌, ◌++◌, All, arith,
  count, if◌then◌else◌,
}
use ttbot_repo_placeholder.GoMap
use ttbot_repo_placeholder.Text.{Text, text_eqb, text_eqb_iff, text_key}
use ttbot_repo_placeholder.Sort.{sort_slice, All-sort_slice, count-sort_slice}
use ttbot_repo_placeholder.Ratings.Order.{is_rateable}
use ttbot_repo_placeholder.Ratings.{
  ℤ, PlayerRatings, RatedMatch, Tally, count_game, score_of, opposite, ltb_int, no_games,
  played_before,
}

ltb_int_asym : (a b : ℤ) → ltb_int a b ≡ true → ltb_int b a ≡ false
unfolding ltb_int
ltb_int_asym (ℤ.pos a) (ℤ.pos b) h = ground arith
ltb_int_asym (ℤ.pos a) (ℤ.negsuc b) h = ground arith
ltb_int_asym (ℤ.negsuc a) (ℤ.pos b) h = ground arith
ltb_int_asym (ℤ.negsuc a) (ℤ.negsuc b) h = ground arith

-- Nobody plays against themselves.
abbrev pub IsPaired : RatedMatch → Type 0
IsPaired m = text_eqb m.player1_id m.player2_id ≡ false

-- So it is for the matches that the engines accept, in the order that they rate them in.
pub sorted-IsPaired :
    (ms : List RatedMatch)
    → All (λ m. is_rateable m ≡ true) ms
    → All IsPaired (sort_slice played_before ms)
sorted-IsPaired ms h = All-sort_slice played_before IsPaired ms (paired ms h)
  where
    paired : (ms : List RatedMatch) → All (λ m. is_rateable m ≡ true) ms → All IsPaired ms
    paired [] h = tt
    paired (m ∷ ms) h = (ground (arith, h.0), paired ms h.1)

-- The tally of a player in a result; a player without a row has not played.
abbrev pub tally_at : {F : Type 0} → Text → PlayerRatings F → Tally
tally_at id pr = elim (GoMap.get id pr) [ none ↦ no_games | some r ↦ r.tally ]

module _ (id : Text) where
  abbrev pub plays : RatedMatch → Bool
  plays m = text_eqb m.player1_id id || text_eqb m.player2_id id

  abbrev pub wins : RatedMatch → Bool
  wins m =
      (text_eqb m.player1_id id && ltb_int m.player2_score m.player1_score)
      || (text_eqb m.player2_id id && ltb_int m.player1_score m.player2_score)

  abbrev pub loses : RatedMatch → Bool
  loses m =
      (text_eqb m.player1_id id && ltb_int m.player1_score m.player2_score)
      || (text_eqb m.player2_id id && ltb_int m.player2_score m.player1_score)

  -- The player's tally after one match.
  unfoldable pub counted : RatedMatch → Tally → Tally
  counted m t =
      if text_eqb m.player1_id id
      then count_game m m.player1_score m.player2_score (score_of m) t
      else if text_eqb m.player2_id id
      then count_game m m.player2_score m.player1_score (opposite (score_of m)) t
      else t

  -- The player's tally after the matches.
  unfoldable pub tally_from : List RatedMatch → Tally → Tally
  tally_from [] t = t
  tally_from (m ∷ ms) t = tally_from ms (counted m t)

  pub tally_from-append :
      (ms ns : List RatedMatch) (t : Tally)
      → tally_from (ms ++ ns) t ≡ tally_from ns (tally_from ms t)
  unfolding tally_from
  tally_from-append [] ns t = refl
  tally_from-append (m ∷ ms) ns t = tally_from-append ms ns (counted m t)

  -- A tally has `n` games more than another one, `w` of them won and `l` lost.
  abbrev pub HasMore : ℕ → ℕ → ℕ → Tally → Tally → Type 0
  HasMore n w l t u =
      (u.games_played ≡ t.games_played + n) × (u.wins ≡ t.wins + w) × (u.losses ≡ t.losses + l)

  counted-HasMore :
      (m : RatedMatch) (t : Tally)
      → IsPaired m
      → HasMore
          (if plays m then 1 else 0)
          (if wins m then 1 else 0)
          (if loses m then 1 else 0)
          t
          (counted m t)
  unfolding counted count_game score_of opposite
  counted-HasMore m t h = ground (
    arith,
    ltb_int_asym m.player1_score m.player2_score,
    text_eqb_iff m.player1_id id,
    text_eqb_iff m.player2_id id,
    text_eqb_iff m.player1_id m.player2_id,
  )

  pub tally_from-HasMore :
      (ms : List RatedMatch) (t : Tally)
      → All IsPaired ms
      → HasMore (count plays ms) (count wins ms) (count loses ms) t (tally_from ms t)
  unfolding tally_from count
  tally_from-HasMore [] t h = ground arith
  tally_from-HasMore (m ∷ ms) t h =
      ground (arith, counted-HasMore m t h.0, tally_from-HasMore ms (counted m t) h.1)

  -- The counts of the matches, of which the tally sees the order of their times.
  pub sorted-HasMore :
      (ms : List RatedMatch)
      → All (λ m. is_rateable m ≡ true) ms
      → HasMore
          (count plays ms)
          (count wins ms)
          (count loses ms)
          no_games
          (tally_from (sort_slice played_before ms) no_games)
  sorted-HasMore ms h = ground (
    arith,
    tally_from-HasMore (sort_slice played_before ms) no_games (sorted-IsPaired ms h),
    count-sort_slice played_before plays ms,
    count-sort_slice played_before wins ms,
    count-sort_slice played_before loses ms,
  )
