-- ===== src/Ledger/Cleanup.antt =====
-- What cleanExpiredMatches of pkg/handlers/periodic.go does to the ledger.
use ttbot_repo_placeholder.Prelude.{ℕ, ◌≡◌, ◌∙◌, ap, true, none, arith, any, if◌then◌else◌}
use ttbot_repo_placeholder.GoMap
use ttbot_repo_placeholder.GoMap.{GoMap}
use ttbot_repo_placeholder.Store.{Store, MatchKey, VoteKey, match_key, vote_key, match_key_eqb}
use ttbot_repo_placeholder.Store.Matches.{exceeds, pending_expired, list_pending_expired}
use ttbot_repo_placeholder.Bot.{Env, Bot}
use ttbot_repo_placeholder.Ledger.{Ledger, ledger}
use ttbot_repo_placeholder.Handlers.Periodic.{clean_expired_matches}
use ttbot_repo_placeholder.Ledger.Expiry.{
  key_of, match_of, KeyedMatches, is_expired, any-rows_where, get-expire_matches,
  votes-expire_matches, settings-expire_matches,
}

-- The expired matches go with their votes; everything else stays.
pub record CleanupEffect (now : ℕ) (s : Store) (after : Ledger) : Type 0 where
  pub rows :
      (k : MatchKey)
      → GoMap.get k after.matches
        ≡ (if is_expired now s (GoMap.get k s.matches) then none else GoMap.get k s.matches)
  pub votes :
      (k : VoteKey)
      → GoMap.get k after.confirmations ≡ (
          if is_expired now s (GoMap.get (match_of k) s.matches)
          then none
          else GoMap.get k s.confirmations)
  pub requests :
      (k : VoteKey)
      → GoMap.get k after.undos ≡ (
          if is_expired now s (GoMap.get (match_of k) s.matches) then none else GoMap.get k s.undos)
  pub counters : after.match_counters ≡ s.match_counters
  pub groups : after.groups ≡ s.groups

module _ (env : Env) (b : Bot) where
  listed :
      (k : MatchKey)
      → KeyedMatches b.store.matches
      → any
          (λ m. match_key_eqb (key_of m) k)
          (list_pending_expired env.wall_now (λ g. true) b.store)
        ≡ is_expired env.wall_now b.store (GoMap.get k b.store.matches)
  unfolding list_pending_expired pending_expired exceeds
  listed k h =
      any-rows_where (pending_expired env.wall_now (λ g. true) b.store.groups) k b.store.matches
        b.store.matches h
      ∙ ground arith

  listed_votes :
      (k : VoteKey)
      → KeyedMatches b.store.matches
      → any
          (λ m. match_key_eqb (key_of m) (match_of k))
          (list_pending_expired env.wall_now (λ g. true) b.store)
        ≡ true
      → GoMap.get (match_of k) b.store.matches ≡ none
      → (GoMap.get k b.store.confirmations ≡ none) × (GoMap.get k b.store.undos ≡ none)
  listed_votes k h a n = ground (arith, listed (match_of k) h, a, n)

  -- Where the matches stand under the keys of their own fields, the clean-up of expired matches removes
  -- exactly the pending matches whose group is known and whose age exceeds the group's timeout. Their
  -- confirmations and undo requests go with them. Every other match and vote stays, and so do the
  -- counters and the groups.
  pub clean_expired_matches_effect :
      KeyedMatches b.store.matches
      → CleanupEffect env.wall_now b.store (ledger (clean_expired_matches env b))
  unfolding clean_expired_matches
  clean_expired_matches_effect h =
      let ms = list_pending_expired env.wall_now (λ g. true) b.store in
      let rest = settings-expire_matches env ms b in
      record {
        rows = λ k.
            get-expire_matches env ms k b
            ∙ ap (λ x. if x then none else GoMap.get k b.store.matches) (listed k h);
        votes = λ k.
            (votes-expire_matches env ms k b (listed_votes k h)).0
            ∙ ap (λ x. if x then none else GoMap.get k b.store.confirmations)
                (listed (match_of k) h);
        requests = λ k.
            (votes-expire_matches env ms k b (listed_votes k h)).1
            ∙ ap (λ x. if x then none else GoMap.get k b.store.undos) (listed (match_of k) h);
        counters = rest.0;
        groups = rest.1;
      }
