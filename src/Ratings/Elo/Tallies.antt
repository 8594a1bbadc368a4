-- ===== src/Ratings/Elo/Tallies.antt =====
-- The counts that eloEngine.Compute of pkg/rating/elo.go reports.
use ttbot_repo_placeholder.Prelude.{
  ◌≡◌, refl, ◌∙◌, ap, if◌then◌else◌, true, List, [], ◌∷◌, All, arith, count,
}
use ttbot_repo_placeholder.GoMap
use ttbot_repo_placeholder.GoMap.{get-put}
use ttbot_repo_placeholder.Sort.{sort_slice}
use ttbot_repo_placeholder.Text.{Text, text_eqb, text_eqb_iff, text_key}
use ttbot_repo_placeholder.Ratings.{
  Floats, RatedMatch, no_games, PlayerRatings, computed, played_before, Rating, score_of, opposite,
}
use ttbot_repo_placeholder.Ratings.Order.{is_rateable, validate_and_sort-cases}
use ttbot_repo_placeholder.Ratings.Tallies.{
  plays, wins, loses, counted, tally_from, HasMore, IsPaired, sorted-IsPaired, sorted-HasMore,
}
use ttbot_repo_placeholder.Ratings.Elo.{
  rating_of, first_rating, expected, adjusted, apply_meta, play, play_all, elo_compute,
}

module _ {F : Type 0} (fl : Floats F) (id : Text) where
  rating_of-put :
      (k : Text) (r : Rating F) (pr : PlayerRatings F)
      → rating_of fl id (GoMap.put k r pr) ≡ (if text_eqb k id then r else rating_of fl id pr)
  unfolding rating_of
  rating_of-put k r pr = ground (arith, get-put k id r pr)

  play-tally :
      (m : RatedMatch) (pr : PlayerRatings F)
      → IsPaired m
      → (rating_of fl id (play fl m pr)).tally ≡ counted id m (rating_of fl id pr).tally
  unfolding play apply_meta adjusted counted
  play-tally m pr h =
      let ra = rating_of fl m.player1_id pr in
      let rb = rating_of fl m.player2_id pr in
      let s = score_of m in
      let e = expected fl ra rb in
      let a = apply_meta fl m m.player1_score m.player2_score s (adjusted fl ra s e) in
      let b =
        apply_meta fl m m.player2_score m.player1_score (opposite s)
          (adjusted fl rb (opposite s) (fl.sub (fl.of_nat 1) e)) in
      ground (
        arith,
        rating_of-put m.player2_id b (GoMap.put m.player1_id a pr),
        rating_of-put m.player1_id a pr,
        text_eqb_iff m.player1_id id,
        text_eqb_iff m.player2_id id,
        text_eqb_iff m.player1_id m.player2_id,
      )

  pub play_all-tally :
      (ms : List RatedMatch) (pr : PlayerRatings F)
      → All IsPaired ms
      → (rating_of fl id (play_all fl ms pr)).tally ≡ tally_from id ms (rating_of fl id pr).tally
  unfolding play_all tally_from
  play_all-tally [] pr h = refl
  play_all-tally (m ∷ ms) pr h =
      play_all-tally ms (play fl m pr) h.1 ∙ ap (tally_from id ms) (play-tally m pr h.0)

-- On rateable matches the ELO engine has a result, and for each player the games, wins and losses in it
-- are the numbers of the matches that the player played, won and lost.
pub elo_tallies :
    {F : Type 0} (fl : Floats F) (ms : List RatedMatch)
    → All (λ m. is_rateable m ≡ true) ms
    → (pr : PlayerRatings F) × (elo_compute fl ms ≡ computed pr)
      × ((id : Text)
          → HasMore id
              (count (plays id) ms)
              (count (wins id) ms)
              (count (loses id) ms)
              no_games
              (rating_of fl id pr).tally)
unfolding elo_compute rating_of first_rating GoMap.get
elo_tallies fl ms h =
    let sorted = sort_slice played_before ms in
    let accepted = (validate_and_sort-cases ms sorted).1 (h, refl) in
    (
      play_all fl sorted [],
      ground (arith, accepted),
      λ id.
          ground
            (arith, play_all-tally fl id sorted [] (sorted-IsPaired ms h), sorted-HasMore id ms h),
    )
