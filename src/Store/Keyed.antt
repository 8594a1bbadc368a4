-- ===== src/Store/Keyed.antt =====
-- Every row of the confirmation and undo tables stands under the key of its own fields. Then the lists
-- that the handlers scan say the same as a read of the table.
use ttbot_repo_placeholder.Prelude.{
  ℕ, ◌≡◌, refl, ◌∙◌, Bool, true, false, ◌||◌, Option, none, some, [], ◌∷◌, arith, eqb, any, All,
}
use ttbot_repo_placeholder.GoMap
use ttbot_repo_placeholder.GoMap.{GoMap, get-put}
use ttbot_repo_placeholder.Store.Tables.{VoteKey, vote_key}
use ttbot_repo_placeholder.Store.Matches.{of_match}

abbrev pub is_some {ℓ} : {A : Type ℓ} → Option A → Bool
is_some none = false
is_some (some a) = true

-- The key of one user's vote on a match.
abbrev pub vote : ℕ → ℕ → ℕ → VoteKey
vote gid mid id = record { group = gid; match_id = mid; user = id }

module _ {V : Type 0} (user_of : V → ℕ) where
  -- The user of a row is the user of its key.
  abbrev pub IsKeyed : GoMap VoteKey V → Type 0
  IsKeyed vs = All (λ e. user_of e.1 ≡ e.0.user) vs

  pub delete-IsKeyed :
      (k : VoteKey) (vs : GoMap VoteKey V) → IsKeyed vs → IsKeyed (GoMap.delete k vs)
  unfolding GoMap.delete
  delete-IsKeyed k [] h = tt
  delete-IsKeyed k ((j, v) ∷ vs) h = ground (arith, delete-IsKeyed k vs h.1)

  pub delete_where-IsKeyed :
      (p : VoteKey → Bool) (vs : GoMap VoteKey V) → IsKeyed vs → IsKeyed (GoMap.delete_where p vs)
  unfolding GoMap.delete_where
  delete_where-IsKeyed p [] h = tt
  delete_where-IsKeyed p ((j, v) ∷ vs) h = ground (arith, delete_where-IsKeyed p vs h.1)

  pub put-IsKeyed :
      (k : VoteKey) (v : V) (vs : GoMap VoteKey V)
      → user_of v ≡ k.user
      → IsKeyed vs
      → IsKeyed (GoMap.put k v vs)
  unfolding GoMap.put
  put-IsKeyed k v vs e h = (e, delete-IsKeyed k vs h)

  -- A scan of the rows of a match finds a user exactly when the table has the user's vote.
  pub any-values_where :
      (gid mid id : ℕ) (vs : GoMap VoteKey V)
      → IsKeyed vs
      → any (λ v. eqb (user_of v) id) (GoMap.values_where (of_match gid mid) vs)
        ≡ is_some (GoMap.get (vote gid mid id) vs)
  unfolding any GoMap.values_where GoMap.get
  any-values_where gid mid id [] h = refl
  any-values_where gid mid id ((j, v) ∷ vs) h = ground (arith, any-values_where gid mid id vs h.1)

  -- So after a vote is cast, a scan finds its user and those that it found before.
  pub any-put :
      (gid mid u id : ℕ) (v : V) (vs : GoMap VoteKey V)
      → user_of v ≡ u
      → IsKeyed vs
      → any
          (λ v. eqb (user_of v) id)
          (GoMap.values_where (of_match gid mid) (GoMap.put (vote gid mid u) v vs))
        ≡ (eqb u id || is_some (GoMap.get (vote gid mid id) vs))
  any-put gid mid u id v vs e h =
      any-values_where gid mid id _ (put-IsKeyed (vote gid mid u) v vs e h)
      ∙ ground (arith, get-put (vote gid mid u) (vote gid mid id) v vs)
