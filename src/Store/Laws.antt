-- ===== src/Store/Laws.antt =====
-- What can be read from the store after its updates.
use ttbot_repo_placeholder.Prelude.{ℕ, ◌≡◌, refl, Option, none, some, arith, if◌then◌else◌}
use ttbot_repo_placeholder.GoMap
use ttbot_repo_placeholder.GoMap.{GoMap, get-put, get-delete, get-delete_where}
use ttbot_repo_placeholder.Models.{Match, MatchStatus}
use ttbot_repo_placeholder.Store.Tables.{
  Store, MatchKey, VoteKey, match_key, vote_key, match_key_eqb, match_key_eqb_iff,
}
use ttbot_repo_placeholder.Store.Matches.{
  found, not_found, of_match, update_status, delete_match, get_match,
}

abbrev pub with_status : MatchStatus → Option Match → Option Match
with_status st none = none
with_status st (some m) = some (record m { status = st })

module _ (gid mid : ℕ) (s : Store) where
  abbrev here : MatchKey
  here = record { group = gid; match_id = mid }

  -- UpdateStatus changes the status of its row and no other row.
  pub get-update_status :
      (st : MatchStatus) (k : MatchKey)
      → GoMap.get k (update_status gid mid st s).1.matches ≡ (
          if match_key_eqb here k
          then with_status st (GoMap.get k s.matches)
          else GoMap.get k s.matches)
  unfolding update_status
  get-update_status st k = elim_row (GoMap.get here s.matches) refl
    where
      elim_row :
          (o : Option Match)
          → GoMap.get here s.matches ≡ o
          → GoMap.get k (update_status gid mid st s).1.matches ≡ (
              if match_key_eqb here k
              then with_status st (GoMap.get k s.matches)
              else GoMap.get k s.matches)
      elim_row none e = rw (e, update_status) (ground (arith, match_key_eqb_iff here k))
      elim_row (some m) e =
          rw (e, update_status)
            (ground (
              arith,
              get-put here k (record m { status = st }) s.matches,
              match_key_eqb_iff here k,
            ))

  -- UpdateStatus writes to no other table of the ledger.
  pub update_status_rest :
      (st : MatchStatus)
      → ((update_status gid mid st s).1.confirmations ≡ s.confirmations)
        × ((update_status gid mid st s).1.undos ≡ s.undos)
        × ((update_status gid mid st s).1.match_counters ≡ s.match_counters)
        × ((update_status gid mid st s).1.groups ≡ s.groups)
  unfolding update_status
  update_status_rest st = ground arith

  -- Delete takes away its row and no other row.
  pub get-delete_match :
      (k : MatchKey)
      → GoMap.get k (delete_match gid mid s).1.matches
        ≡ (if match_key_eqb here k then none else GoMap.get k s.matches)
  unfolding delete_match
  get-delete_match k = ground (arith, get-delete here k s.matches, match_key_eqb_iff here k)

  -- Delete of a row that is there takes its confirmations and undo requests along, and no others.
  pub delete_match_votes :
      (m : Match) (k : VoteKey)
      → get_match gid mid s ≡ found m
      → (GoMap.get k (delete_match gid mid s).1.confirmations
          ≡ (if of_match gid mid k then none else GoMap.get k s.confirmations))
        × (GoMap.get k (delete_match gid mid s).1.undos
            ≡ (if of_match gid mid k then none else GoMap.get k s.undos))
  unfolding delete_match get_match
  delete_match_votes m k h = ground (
    arith,
    get-delete_where (of_match gid mid) k s.confirmations,
    get-delete_where (of_match gid mid) k s.undos,
  )

  -- Delete of a row that is not there changes nothing and says so.
  pub delete_match_missing :
      get_match gid mid s ≡ not_found → delete_match gid mid s ≡ (not_found, s)
  unfolding delete_match get_match
  delete_match_missing h = ground arith

  pub delete_match_rest :
      ((delete_match gid mid s).1.match_counters ≡ s.match_counters)
      × ((delete_match gid mid s).1.groups ≡ s.groups)
  unfolding delete_match
  delete_match_rest = ground arith
