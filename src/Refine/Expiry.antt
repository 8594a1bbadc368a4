-- ===== src/Refine/Expiry.antt =====
-- The clean-up of the periodic job, as steps.
use ttbot_repo_placeholder.Prelude.{
  ◌<◌, ◌-◌, ◌*◌, ltb, ◌∙◌, ◌≡◌, refl, sym, subst, Bool, true, ◌⊎◌, inl, inr, none, some, List, [],
  ◌∷◌, arith, All, if_case,
}
use ttbot_repo_placeholder.GoMap
use ttbot_repo_placeholder.GoMap.{GoMap, nat_eq}
use ttbot_repo_placeholder.Models.{Match, MatchStatus, UndoCommand, is_status, hour}
use ttbot_repo_placeholder.Store.{MatchKey, VoteKey, match_key, vote_key}
use ttbot_repo_placeholder.Store.Matches.{
  of_match, delete_match, rows_where, pending_expired, exceeds, list_pending_expired,
}
use ttbot_repo_placeholder.Store.Votes.{
  delete_confirmations, delete_undo, requested_before, list_expired_undos,
}
use ttbot_repo_placeholder.Bot.{Env, Bot}
use ttbot_repo_placeholder.Handlers.Periodic.{
  expire_match, expire_matches, clean_expired_matches, expire_undo, expire_undos,
  clean_expired_undo,
}
use ttbot_repo_placeholder.Ledger.{ledger}
use ttbot_repo_placeholder.Ledger.Expiry.{
  key_of, is_timed_out, store-after_expiry, store-send_in_group, get-expire_match,
  settings-expire_match,
}
use ttbot_repo_placeholder.Ledger.Steps.{
  Steps, stay, one, join, expired, lapsed, timer, without_match,
}
use ttbot_repo_placeholder.Ledger.Steps.WellFormed.{WellFormed}
use ttbot_repo_placeholder.Ledger.UndoCleanup.{request_key, get-expire_undo}
use ttbot_repo_placeholder.Refine.{cause}
use ttbot_repo_placeholder.Refine.Rows.{is_status-pending}

-- A second deletion finds nothing left.
delete_where_twice :
    {K V : Type 0} (p : K → Bool) (m : GoMap K V)
    → GoMap.delete_where p (GoMap.delete_where p m) ≡ GoMap.delete_where p m
unfolding GoMap.delete_where
delete_where_twice p [] = refl
delete_where_twice p ((k, v) ∷ m) = ground (arith, delete_where_twice p m)

module _ (env : Env) where
  -- A listed row: still there, or gone already.
  abbrev IsListed : Bot → Match → Type 0
  IsListed b m =
      (m.status ≡ MatchStatus.pending)
      × (is_timed_out env.wall_now (GoMap.get m.group_id b.store.groups) m ≡ true)
      × ((GoMap.get (key_of m) b.store.matches ≡ none)
          ⊎ (GoMap.get (key_of m) b.store.matches ≡ some m))

  expire_match-missing :
      (m : Match) (b : Bot) → GoMap.get (key_of m) b.store.matches ≡ none → expire_match env m b ≡ b
  unfolding expire_match delete_match
  expire_match-missing m b h = ground (arith, h)

  expire_match-present :
      (m : Match) (b : Bot)
      → GoMap.get (key_of m) b.store.matches ≡ some m
      → ledger (expire_match env m b) ≡ without_match (key_of m) (ledger b)
  unfolding expire_match delete_match delete_confirmations
  expire_match-present m b h =
      let s = (delete_match m.group_id m.match_id b.store).1 in
      ground (
        arith,
        h,
        store-after_expiry env m (record b { store = s }),
        delete_where_twice (of_match m.group_id m.match_id) b.store.confirmations,
      )

  expire_match-Steps :
      (m : Match) (b : Bot)
      → IsListed b m
      → Steps (cause env timer) 0 (ledger b) (ledger (expire_match env m b))
  expire_match-Steps m b (p, t, inl gone) =
      subst (λ c. Steps (cause env timer) 0 (ledger b) (ledger c))
        (sym (expire_match-missing m b gone)) stay
  expire_match-Steps m b (p, t, inr there) =
      subst (Steps (cause env timer) 0 (ledger b)) (sym (expire_match-present m b there))
        (one _ (expired (key_of m) m there p t refl))

  -- The next rows stay listed.
  IsListed-after :
      (m : Match) (ms : List Match) (b : Bot)
      → All (IsListed b) ms
      → All (IsListed (expire_match env m b)) ms
  IsListed-after m [] b h = tt
  IsListed-after m (n ∷ ms) b ((p, t, there), h) = (
    (
      p,
      rw ((settings-expire_match env m b).1) t,
      ground (arith, get-expire_match env m (key_of n) b, there),
    ),
    IsListed-after m ms b h,
  )

  expire_matches-Steps :
      (ms : List Match) (b : Bot)
      → All (IsListed b) ms
      → Steps (cause env timer) 0 (ledger b) (ledger (expire_matches env ms b))
  unfolding expire_matches
  expire_matches-Steps [] b h = stay
  expire_matches-Steps (m ∷ ms) b h =
      join (cause env timer) (expire_match-Steps m b h.0)
        (expire_matches-Steps ms (expire_match env m b) (IsListed-after m ms b h.1))

  test-pending :
      (b : Bot) (m : Match)
      → pending_expired env.wall_now (λ g. true) b.store.groups m ≡ true
      → (is_status m.status MatchStatus.pending ≡ true)
        × (is_timed_out env.wall_now (GoMap.get m.group_id b.store.groups) m ≡ true)
  unfolding pending_expired exceeds
  test-pending b m h = ground arith

  IsListed-rows :
      (b : Bot) (rows : GoMap MatchKey Match)
      → All (λ r. (r.0 ≡ key_of r.1) × (GoMap.get r.0 b.store.matches ≡ some r.1)) rows
      → All (IsListed b) (rows_where (pending_expired env.wall_now (λ g. true) b.store.groups) rows)
  unfolding rows_where
  IsListed-rows b [] h = tt
  IsListed-rows b ((k, m) ∷ rows) ((own, there), h) =
      let rest = IsListed-rows b rows h in
      if_case (All (IsListed b)) (pending_expired env.wall_now (λ g. true) b.store.groups m)
        (λ e.
          let t = test-pending b m e in
          (
            (
              is_status-pending m.status t.0,
              t.1,
              inr (subst (λ k. GoMap.get k b.store.matches ≡ some m) own there),
            ),
            rest,
          ))
        (λ _. rest)

  pub clean_expired_matches-Steps :
      (b : Bot)
      → WellFormed (ledger b)
      → Steps (cause env timer) 0 (ledger b) (ledger (clean_expired_matches env b))
  unfolding clean_expired_matches list_pending_expired
  clean_expired_matches-Steps b w =
      expire_matches-Steps _ b (IsListed-rows b b.store.matches w.rows)

  ledger-expire_undo :
      (u : UndoCommand) (b : Bot)
      → ledger (expire_undo env u b) ≡ (elim (GoMap.get (request_key u) b.store.undos) [
        | none ↦ ledger b
        | some _ ↦ record (ledger b) { undos = GoMap.delete (request_key u) b.store.undos }
      ])
  unfolding expire_undo delete_undo
  ledger-expire_undo u b = grind (arith, store-send_in_group env)

  -- A listed request: made before the cutoff, and still there, or gone already.
  abbrev IsLate : Bot → UndoCommand → Type 0
  IsLate b u =
      (u.requested_at < env.now - 24 * hour)
      × ((GoMap.get (request_key u) b.store.undos ≡ none)
          ⊎ (GoMap.get (request_key u) b.store.undos ≡ some u))

  expire_undo-Steps :
      (u : UndoCommand) (b : Bot)
      → IsLate b u
      → Steps (cause env timer) 0 (ledger b) (ledger (expire_undo env u b))
  expire_undo-Steps u b (late, inl gone) =
      subst (Steps (cause env timer) 0 (ledger b)) (sym (ledger-expire_undo u b ∙ missing)) stay
    where
      missing :
          (elim (GoMap.get (request_key u) b.store.undos) [
            | none ↦ ledger b
            | some _ ↦ record (ledger b) { undos = GoMap.delete (request_key u) b.store.undos }
          ])
          ≡ ledger b
      missing = ground (arith, gone)
  expire_undo-Steps u b (late, inr there) =
      subst (Steps (cause env timer) 0 (ledger b)) (sym (ledger-expire_undo u b ∙ present))
        (one _ (lapsed (request_key u) u there late refl))
    where
      present :
          (elim (GoMap.get (request_key u) b.store.undos) [
            | none ↦ ledger b
            | some _ ↦ record (ledger b) { undos = GoMap.delete (request_key u) b.store.undos }
          ])
          ≡ record (ledger b) { undos = GoMap.delete (request_key u) b.store.undos }
      present = ground (arith, there)

  IsLate-after :
      (u : UndoCommand) (us : List UndoCommand) (b : Bot)
      → All (IsLate b) us
      → All (IsLate (expire_undo env u b)) us
  IsLate-after u [] b h = tt
  IsLate-after u (v ∷ us) b ((late, there), h) = (
    (late, ground (arith, get-expire_undo env u (request_key v) b, there)),
    IsLate-after u us b h,
  )

  expire_undos-Steps :
      (us : List UndoCommand) (b : Bot)
      → All (IsLate b) us
      → Steps (cause env timer) 0 (ledger b) (ledger (expire_undos env us b))
  unfolding expire_undos
  expire_undos-Steps [] b h = stay
  expire_undos-Steps (u ∷ us) b h =
      join (cause env timer) (expire_undo-Steps u b h.0)
        (expire_undos-Steps us (expire_undo env u b) (IsLate-after u us b h.1))

  IsLate-rows :
      (b : Bot) (rows : GoMap VoteKey UndoCommand)
      → All (λ r. (r.0 ≡ request_key r.1) × (GoMap.get r.0 b.store.undos ≡ some r.1)) rows
      → All (IsLate b) (requested_before (env.now - 24 * hour) rows)
  unfolding requested_before
  IsLate-rows b [] h = tt
  IsLate-rows b ((k, u) ∷ rows) ((own, there), h) =
      if_case (All (IsLate b)) (ltb u.requested_at (env.now - 24 * hour))
        (λ late. (
          (ground (arith, late), inr (subst (λ k. GoMap.get k b.store.undos ≡ some u) own there)),
          IsLate-rows b rows h,
        ))
        (λ _. IsLate-rows b rows h)

  pub clean_expired_undo-Steps :
      (b : Bot)
      → WellFormed (ledger b)
      → Steps (cause env timer) 0 (ledger b) (ledger (clean_expired_undo env b))
  unfolding clean_expired_undo list_expired_undos
  clean_expired_undo-Steps b w = expire_undos-Steps _ b (IsLate-rows b b.store.undos w.requests)
