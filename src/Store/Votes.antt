-- ===== src/Store/Votes.antt =====
-- The confirmation and undo repositories of pkg/store/memstore/memstore.go.
use ttbot_repo_placeholder.Prelude.{ℕ, none, some, List, [], ◌∷◌, ltb, if◌then◌else◌}
use ttbot_repo_placeholder.GoMap
use ttbot_repo_placeholder.GoMap.{GoMap}
use ttbot_repo_placeholder.Models.{MatchConfirmation, UndoCommand}
use ttbot_repo_placeholder.Store.Tables.{Store, VoteKey, vote_key}
use ttbot_repo_placeholder.Store.Matches.{Found, found, not_found, of_match}

-- confirmRepo.Insert
unfoldable pub insert_confirmation : MatchConfirmation → Store → Store
insert_confirmation c s = record s {
  confirmations =
      GoMap.put (record { group = c.group_id; match_id = c.match_id; user = c.telegram_id }) c
        s.confirmations;
}

-- confirmRepo.ListForMatch
unfoldable pub list_confirmations : ℕ → ℕ → Store → List MatchConfirmation
list_confirmations gid mid s = GoMap.values_where (of_match gid mid) s.confirmations

-- confirmRepo.DeleteForMatch
unfoldable pub delete_confirmations : ℕ → ℕ → Store → Store
delete_confirmations gid mid s = record s {
  confirmations = GoMap.delete_where (of_match gid mid) s.confirmations;
}

-- undoRepo.Insert
unfoldable pub insert_undo : UndoCommand → Store → Store
insert_undo u s = record s {
  undos =
      GoMap.put (record { group = u.group_id; match_id = u.match_id; user = u.telegram_id }) u
        s.undos;
}

-- undoRepo.Delete
unfoldable pub delete_undo : ℕ → ℕ → ℕ → Store → Found (Unit {0}) × Store
delete_undo gid mid uid s =
    let k : VoteKey = record { group = gid; match_id = mid; user = uid } in
    elim (GoMap.get k s.undos) [
      | none ↦ (not_found, s)
      | some _ ↦ (found tt, record s { undos = GoMap.delete k s.undos })
    ]

-- undoRepo.DeleteForMatch
unfoldable pub delete_undos : ℕ → ℕ → Store → Store
delete_undos gid mid s = record s { undos = GoMap.delete_where (of_match gid mid) s.undos }

-- undoRepo.ListForMatch
unfoldable pub list_undos : ℕ → ℕ → Store → List UndoCommand
list_undos gid mid s = GoMap.values_where (of_match gid mid) s.undos

unfoldable pub requested_before : ℕ → GoMap VoteKey UndoCommand → List UndoCommand
requested_before cutoff [] = []
requested_before cutoff ((k, u) ∷ rows) =
    let rest = requested_before cutoff rows in if ltb u.requested_at cutoff then u ∷ rest else rest

-- undoRepo.ListExpired
unfoldable pub list_expired_undos : ℕ → Store → List UndoCommand
list_expired_undos cutoff s = requested_before cutoff s.undos
