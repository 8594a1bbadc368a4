-- ===== src/Handlers/Periodic.antt =====
-- The clean-up of pkg/handlers/periodic.go: cleanExpiredMatches and cleanExpiredUndo, with
-- participantUsername and uniqueIDs. The store in memory fails in no other way than with ErrNotFound, so
-- the passes always come to their end.
use ttbot_repo_placeholder.Prelude.{
  ℕ, ◌-◌, ◌*◌, Bool, true, ◌||◌, none, some, List, [], ◌∷◌, ◌++◌, eqb, if◌then◌else◌,
}
use ttbot_repo_placeholder.GoMap
use ttbot_repo_placeholder.GoMap.{GoMap, nat_eq}
use ttbot_repo_placeholder.Text.{Text, text}
use ttbot_repo_placeholder.Text.Decimal.{format_uint}
use ttbot_repo_placeholder.Models.{Group, Match, UndoCommand, hour}
use ttbot_repo_placeholder.Store.{Store}
use ttbot_repo_placeholder.Store.Matches.{found, not_found, delete_match, list_pending_expired}
use ttbot_repo_placeholder.Store.Votes.{delete_confirmations, delete_undo, list_expired_undos}
use ttbot_repo_placeholder.Store.Players.{get_participant, get_group}
use ttbot_repo_placeholder.Bot.{Env, Bot}
use ttbot_repo_placeholder.Notify.{send_in_group}

-- participantUsername
unfoldable pub participant_username : ℕ → ℕ → Store → Text
participant_username gid tid s = elim (get_participant gid tid s) [
  | found p ↦ p.telegram_username
  | not_found ↦ []
]

-- The loop of uniqueIDs.
unfoldable pub unseen_ids : GoMap ℕ Bool → List ℕ → List ℕ
unseen_ids seen [] = []
unseen_ids seen (id ∷ ids) =
    let skipped = unseen_ids seen ids in
    let kept = unseen_ids (GoMap.put id true seen) ids in
    if eqb id 0 || (elim (GoMap.get id seen) [ none ↦ Bool.false | some v ↦ v ])
    then skipped
    else id ∷ kept

-- uniqueIDs
unfoldable pub unique_ids : List ℕ → List ℕ
unique_ids ids = unseen_ids [] ids

module _ (env : Env) where
  -- The loop of SendInGroup; the usernames are looked up in the match's group.
  unfoldable pub notify_players : ℕ → Group → Text → List ℕ → Bot → Bot
  notify_players gid g body [] b = b
  notify_players gid g body (uid ∷ uids) b =
      notify_players gid g body uids
        (send_in_group env g (participant_username gid uid b.store) body b).1

  -- The body of the loop of cleanExpiredMatches, after the row has been deleted.
  unfoldable pub after_expiry : Match → Bot → Bot
  after_expiry m b =
      let b' = record b { store = delete_confirmations m.group_id m.match_id b.store } in
      elim (get_group m.group_id b'.store) [
        | not_found ↦ b'
        | found g ↦
            notify_players m.group_id g
              (text "Match #"
                ++ (format_uint m.match_id ++ text " expired (no confirmation within timeout)."))
              (unique_ids (m.registered_by ∷ m.player1_id ∷ m.player2_id ∷ [])) b'
      ]

  -- The body of the loop of cleanExpiredMatches.
  unfoldable pub expire_match : Match → Bot → Bot
  expire_match m b =
      let r = delete_match m.group_id m.match_id b.store in
      elim r.0 [ not_found ↦ b | found _ ↦ after_expiry m (record b { store = r.1 }) ]

  unfoldable pub expire_matches : List Match → Bot → Bot
  expire_matches [] b = b
  expire_matches (m ∷ ms) b = expire_matches ms (expire_match m b)

  -- cleanExpiredMatches. ListPendingExpired reads the wall clock.
  unfoldable pub clean_expired_matches : Bot → Bot
  clean_expired_matches b = expire_matches (list_pending_expired env.wall_now (λ g. true) b.store) b

  -- The body of the loop of cleanExpiredUndo.
  unfoldable pub expire_undo : UndoCommand → Bot → Bot
  expire_undo u b =
      let r = delete_undo u.group_id u.match_id u.telegram_id b.store in
      let b' = record b { store = r.1 } in
      elim r.0 [
        | not_found ↦ b
        | found _ ↦ elim (get_group u.group_id b'.store) [
          | not_found ↦ b'
          | found g ↦
              (send_in_group env g (participant_username u.group_id u.telegram_id b'.store)
                (text "Undo request for Match #" ++ (format_uint u.match_id ++ text " expired."))
                b').1
        ]
      ]

  unfoldable pub expire_undos : List UndoCommand → Bot → Bot
  expire_undos [] b = b
  expire_undos (u ∷ us) b = expire_undos us (expire_undo u b)

  -- cleanExpiredUndo: the requests that are older than a day.
  unfoldable pub clean_expired_undo : Bot → Bot
  clean_expired_undo b = expire_undos (list_expired_undos (env.now - 24 * hour) b.store) b
