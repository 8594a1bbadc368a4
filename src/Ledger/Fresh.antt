-- ===== src/Ledger/Fresh.antt =====
-- The ids of AllocateAndInsertMatch (pkg/store/memstore/memstore.go) are new: no row of a group has an
-- id above the group's counter.
use ttbot_repo_placeholder.Prelude.{
  ℕ, if◌then◌else◌, ◌≡◌, ◌+◌, ◌<◌, ◌^◌, ◌||◌, not, true, none, some, arith, leb,
}
use ttbot_repo_placeholder.GoMap
use ttbot_repo_placeholder.GoMap.{GoMap, nat_eq, get-put}
use ttbot_repo_placeholder.Models.{Match}
use ttbot_repo_placeholder.Store.{Store, MatchKey, match_key, match_key_eqb, match_key_eqb_iff}
use ttbot_repo_placeholder.Store.Keyed.{is_some}
use ttbot_repo_placeholder.Ledger.{Ledger, ledger_of}
use ttbot_repo_placeholder.Store.Matches.{allocate_and_insert_match}

abbrev pub count_of : ℕ → Ledger → ℕ
count_of gid l = elim (GoMap.get gid l.match_counters) [ none ↦ 0 | some n ↦ n ]

-- Every row has an id that its group's counter has reached.
abbrev pub CountedIds : Ledger → Type 0
CountedIds l =
    (k : MatchKey)
    → (not (is_some (GoMap.get k l.matches)) || leb k.match_id (count_of k.group l)) ≡ true

module _ (gid : ℕ) (build : ℕ → Match) (s : Store) (own : (n : ℕ) → (build n).group_id ≡ gid)
    (ids : CountedIds (ledger_of s)) (room : count_of gid (ledger_of s) + 1 < 2 ^ 64) where
  -- The id that the registration gives.
  abbrev given : ℕ
  given = (allocate_and_insert_match gid build s).0

  abbrev given_key : MatchKey
  given_key = record { group = gid; match_id = given }

  abbrev given_row : Match
  given_row = record (build given) { match_id = given }

  given_free : GoMap.get given_key s.matches ≡ none
  unfolding allocate_and_insert_match
  given_free = ground (arith, ids given_key, room)

  get_after :
      (k : MatchKey)
      → GoMap.get k (allocate_and_insert_match gid build s).1.matches
        ≡ (if match_key_eqb given_key k then some given_row else GoMap.get k s.matches)
  unfolding allocate_and_insert_match
  get_after k = ground (
    arith,
    get-put (record { group = (build given).group_id; match_id = given }) k given_row s.matches,
    own given,
  )

  -- AllocateAndInsertMatch for a row of the group, where every row's id is at most its group's counter
  -- and the group's counter has not run out: the id that it gives back was taken by no match of the
  -- group, the new row stands under it, and every match that was there is there as it was.
  pub allocate_and_insert_match-fresh :
      let r = allocate_and_insert_match gid build s in
      (GoMap.get (record { group = gid; match_id = r.0 }) s.matches ≡ none)
      × (GoMap.get (record { group = gid; match_id = r.0 }) r.1.matches
          ≡ some (record (build r.0) { match_id = r.0 }))
      × ((k : MatchKey) (m : Match)
          → GoMap.get k s.matches ≡ some m
          → GoMap.get k r.1.matches ≡ some m)
  allocate_and_insert_match-fresh = (
    given_free,
    ground (arith, get_after given_key, match_key_eqb_iff given_key given_key),
    λ k m h. ground (arith, get_after k, match_key_eqb_iff given_key k, given_free, h),
  )

  -- There, AllocateAndInsertMatch keeps every row's id at most its group's counter, so that the next id
  -- is free again.
  pub allocate_and_insert_match-CountedIds :
      CountedIds (ledger_of (allocate_and_insert_match gid build s).1)
  unfolding allocate_and_insert_match
  allocate_and_insert_match-CountedIds k = ground (
    arith,
    get_after k,
    match_key_eqb_iff given_key k,
    get-put gid k.group given s.match_counters,
    ids k,
    room,
  )
