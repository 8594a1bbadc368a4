-- ===== src/Ratings/Order.antt =====
-- What validateAndSort of pkg/rating/rating.go accepts, and the order that it gives.
use mathlib.Core.List.{Perm}
use ttbot_repo_placeholder.Prelude.{
  ℕ, suc, ◌≡◌, refl, ◌↔◌, Bool, true, false, not, ◌&&◌, ◌||◌, none, List, [], ◌∷◌, arith, All,
}
use ttbot_repo_placeholder.Text.{text_eqb}
use ttbot_repo_placeholder.Sort.{IsSorted, sort_slice, sort_slice-perm, sort_slice-IsSorted}
use ttbot_repo_placeholder.Ratings.{
  RatedMatch, computed, is_negative, match_error, first_error, played_before, validate_and_sort,
}

-- Two different players that have ids, and no negative score.
abbrev pub is_rateable : RatedMatch → Bool
is_rateable m =
    not (text_eqb m.player1_id [] || text_eqb m.player2_id [])
    && (not (text_eqb m.player1_id m.player2_id)
        && not (is_negative m.player1_score || is_negative m.player2_score))

match_error-none : (i : ℕ) (m : RatedMatch) → (match_error i m ≡ none) ↔ (is_rateable m ≡ true)
unfolding match_error
match_error-none i m = ground arith

first_error-none :
    (i : ℕ) (ms : List RatedMatch) → (first_error i ms ≡ none) ↔ All (λ m. is_rateable m ≡ true) ms
unfolding first_error
first_error-none i [] = ground arith
first_error-none i (m ∷ ms) = ground (arith, match_error-none i m, first_error-none (suc i) ms)

played_before_asym : (a b : RatedMatch) → played_before a b ≡ true → played_before b a ≡ false
unfolding played_before
played_before_asym a b h = ground arith

played_before_trans :
    (a b c : RatedMatch)
    → played_before b a ≡ false
    → played_before c b ≡ false
    → played_before c a ≡ false
unfolding played_before
played_before_trans a b c h k = ground arith

pub validate_and_sort-cases :
    (ms s : List RatedMatch)
    → (validate_and_sort ms ≡ computed s)
      ↔ (All (λ m. is_rateable m ≡ true) ms × (s ≡ sort_slice played_before ms))
unfolding validate_and_sort
validate_and_sort-cases ms s = ground (arith, first_error-none 0 ms)

pub sort_slice-played_before :
    (ms : List RatedMatch) → IsSorted played_before (sort_slice played_before ms)
sort_slice-played_before ms =
    sort_slice-IsSorted played_before played_before_asym played_before_trans ms

-- validateAndSort fails exactly where some match has an empty player id, one player twice or a negative
-- score. Otherwise its result has the same matches, none of them played before an earlier one.
pub validate_and_sort-IsSorted :
    (ms : List RatedMatch)
    → ((s : List RatedMatch) × (validate_and_sort ms ≡ computed s)
        × IsSorted played_before s
        × Perm s ms)
      ↔ All (λ m. is_rateable m ≡ true) ms
validate_and_sort-IsSorted ms = (
  λ r. ((validate_and_sort-cases ms r.0).0 r.1).0,
  λ h. (
    sort_slice played_before ms,
    (validate_and_sort-cases ms (sort_slice played_before ms)).1 (h, refl),
    sort_slice-played_before ms,
    sort_slice-perm played_before ms,
  ),
)
