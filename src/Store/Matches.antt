-- ===== src/Store/Matches.antt =====
-- The match repository of pkg/store/memstore/memstore.go, and AllocateAndInsertMatch.
use ttbot_repo_placeholder.Prelude.{
  ℕ, ◌+◌, ◌-◌, ◌^◌, ◌%◌, Bool, false, not, ◌&&◌, Option, none, some, List, [], ◌∷◌, ltb, leb, eqb,
  if◌then◌else◌,
}
use ttbot_repo_placeholder.GoMap
use ttbot_repo_placeholder.GoMap.{GoMap, nat_eq}
use ttbot_repo_placeholder.Sort.{sort_slice}
use ttbot_repo_placeholder.Models.{Group, Match, MatchStatus, is_status, confirmation_timeout}
use ttbot_repo_placeholder.Store.Tables.{Store, MatchKey, VoteKey, match_key, vote_key}

-- What a method that only fails with store.ErrNotFound returns.
pub data Found {ℓ} (A : Type ℓ) : Type ℓ where
  found : A → Found A
  not_found : Found A

abbrev pub of_option {ℓ} : {A : Type ℓ} → Option A → Found A
of_option none = not_found
of_option (some a) = found a

abbrev pub counter : ℕ → Store → ℕ
counter gid s = elim (GoMap.get gid s.match_counters) [ none ↦ 0 | some n ↦ n ]

-- A key of the given group and match.
abbrev pub of_match : ℕ → ℕ → VoteKey → Bool
of_match gid mid k = eqb k.group gid && eqb k.match_id mid

-- AllocateAndInsertMatch; the counter is a uint64.
unfoldable pub allocate_and_insert_match : ℕ → (ℕ → Match) → Store → ℕ × Store
allocate_and_insert_match gid build s =
    let next = (counter gid s + 1) % 2 ^ 64 in
    let built = build next in
    let row = record built { match_id = next } in
    (
      next,
      record s {
        matches =
            GoMap.put (record { group = row.group_id; match_id = row.match_id }) row s.matches;
        match_counters = GoMap.put gid next s.match_counters;
      },
    )

-- matchRepo.Get
unfoldable pub get_match : ℕ → ℕ → Store → Found Match
get_match gid mid s = of_option (GoMap.get (record { group = gid; match_id = mid }) s.matches)

-- matchRepo.UpdateStatus: whether the row was there, and the store.
unfoldable pub update_status : ℕ → ℕ → MatchStatus → Store → Found (Unit {0}) × Store
update_status gid mid status s =
    let k : MatchKey = record { group = gid; match_id = mid } in
    elim (GoMap.get k s.matches) [
      | none ↦ (not_found, s)
      | some m ↦
          (found tt, record s { matches = GoMap.put k (record m { status = status }) s.matches })
    ]

-- PutMatch, PutMatchExt
unfoldable pub put_match : Match → Store → Store
put_match m s = record s {
  matches = GoMap.put (record { group = m.group_id; match_id = m.match_id }) m s.matches;
}

-- matchRepo.Delete: the row goes with its confirmations and undo commands.
unfoldable pub delete_match : ℕ → ℕ → Store → Found (Unit {0}) × Store
delete_match gid mid s =
    let k : MatchKey = record { group = gid; match_id = mid } in
    elim (GoMap.get k s.matches) [
      | none ↦ (not_found, s)
      | some _ ↦ (
        found tt,
        record s {
          matches = GoMap.delete k s.matches;
          confirmations = GoMap.delete_where (of_match gid mid) s.confirmations;
          undos = GoMap.delete_where (of_match gid mid) s.undos;
        },
      )
    ]

-- The `less` of ListByGroup.
unfoldable pub played_before : Match → Match → Bool
played_before a b =
    if not (eqb a.played_at b.played_at)
    then ltb a.played_at b.played_at
    else ltb a.match_id b.match_id

-- matchRepo.ListByGroup
unfoldable pub list_by_group : ℕ → Store → List Match
list_by_group gid s = sort_slice played_before (GoMap.values_where (λ k. eqb k.group gid) s.matches)

abbrev bump : ℕ → GoMap ℕ ℕ → GoMap ℕ ℕ
bump id counts = GoMap.put id ((elim (GoMap.get id counts) [ none ↦ 0 | some n ↦ n ]) + 1) counts

-- The loop of CountsByPlayer over the rows of the group.
unfoldable pub count_players : List Match → GoMap ℕ ℕ → GoMap ℕ ℕ
count_players [] counts = counts
count_players (m ∷ ms) counts = count_players ms (
    if is_status m.status MatchStatus.undone
    then counts
    else bump m.player2_id (bump m.player1_id counts))

-- matchRepo.CountsByPlayer
unfoldable pub counts_by_player : ℕ → Store → GoMap ℕ ℕ
counts_by_player gid s = count_players (GoMap.values_where (λ k. eqb k.group gid) s.matches) []

-- time.Since(created) > timeout, where the timeout is an int64: from 2^63 on it is negative, and stands
-- for `timeout - 2^64`. A creation time ahead of the clock gives a negative age.
unfoldable pub exceeds : ℕ → ℕ → ℕ → Bool
exceeds now created timeout =
    if leb (2 ^ 63) timeout
    then ltb created (now + (2 ^ 64 - timeout))
    else ltb timeout (now - created)

-- The test of ListPendingExpired on one row; `now` is the clock that time.Since reads.
unfoldable pub pending_expired : ℕ → (Group → Bool) → GoMap ℕ Group → Match → Bool
pending_expired now before groups m =
    is_status m.status MatchStatus.pending && (elim (GoMap.get m.group_id groups) [
      | none ↦ false
      | some g ↦ before g && exceeds now m.created_at (confirmation_timeout g)
    ])

unfoldable pub rows_where : (Match → Bool) → GoMap MatchKey Match → List Match
rows_where p [] = []
rows_where p ((k, m) ∷ rows) = let rest = rows_where p rows in if p m then m ∷ rest else rest

-- matchRepo.ListPendingExpired
unfoldable pub list_pending_expired : ℕ → (Group → Bool) → Store → List Match
list_pending_expired now before s = rows_where (pending_expired now before s.groups) s.matches
