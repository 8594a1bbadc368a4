-- ===== src/Ledger/Expiry.antt =====
-- The loop of cleanExpiredMatches of pkg/handlers/periodic.go, row by row, on the ledger.
use ttbot_repo_placeholder.Prelude.{
  ◌^◌, ◌+◌, ◌-◌, ltb, leb, ℕ, ◌≡◌, refl, ◌∙◌, Bool, true, false, ◌&&◌, Option, none, some, List, [],
  ◌∷◌, arith, any, All, if◌then◌else◌,
}
use ttbot_repo_placeholder.GoMap
use ttbot_repo_placeholder.GoMap.{GoMap, nat_eq, get-delete_where}
use ttbot_repo_placeholder.Text.{Text}
use ttbot_repo_placeholder.Models.{Group, Match, MatchStatus, is_status, confirmation_timeout}
use ttbot_repo_placeholder.Store.{
  Store, MatchKey, VoteKey, match_key, vote_key, match_key_eqb, match_key_eqb_iff,
}
use ttbot_repo_placeholder.Store.Matches.{of_match, delete_match, rows_where}
use ttbot_repo_placeholder.Store.Keyed.{is_some}
use ttbot_repo_placeholder.Store.Votes.{delete_confirmations}
use ttbot_repo_placeholder.Store.Laws.{get-delete_match}
use ttbot_repo_placeholder.Bot.{Env, Bot, call}
use ttbot_repo_placeholder.Notify.{send_in_group}
use ttbot_repo_placeholder.Handlers.Periodic.{
  notify_players, after_expiry, expire_match, expire_matches,
}

-- The key of a row.
abbrev pub key_of : Match → MatchKey
key_of m = record { group = m.group_id; match_id = m.match_id }

-- The matches table is a map with its rows under the keys of their own fields.
abbrev pub KeyedMatches : GoMap MatchKey Match → Type 0
KeyedMatches ms = All (λ e. (e.0 ≡ key_of e.1) × (GoMap.get e.0 ms ≡ some e.1)) ms

-- The age of a match exceeds the timeout of its group; one of an unknown group never expires. A timeout
-- from 2^63 on is a negative duration: then a match expires also while its creation lies ahead of the
-- clock, by less than that duration.
abbrev pub is_timed_out : ℕ → Option Group → Match → Bool
is_timed_out now none m = false
is_timed_out now (some g) m =
    if leb (2 ^ 63) (confirmation_timeout g)
    then ltb m.created_at (now + (2 ^ 64 - confirmation_timeout g))
    else ltb (confirmation_timeout g) (now - m.created_at)

-- A pending match that has timed out.
abbrev pub is_expired : ℕ → Store → Option Match → Bool
is_expired now s none = false
is_expired now s (some m) =
    is_status m.status MatchStatus.pending && is_timed_out now (GoMap.get m.group_id s.groups) m

module _ (env : Env) where
  pub store-send_in_group :
      (g : Group) (u body : Text) (b : Bot) → (send_in_group env g u body b).1.store ≡ b.store
  unfolding send_in_group call
  store-send_in_group g u body b = ground arith

  store-notify_players :
      (gid : ℕ) (g : Group) (body : Text) (ids : List ℕ) (b : Bot)
      → (notify_players env gid g body ids b).store ≡ b.store
  unfolding notify_players
  store-notify_players gid g body [] b = refl
  store-notify_players gid g body (i ∷ ids) b =
      store-notify_players gid g body ids _ ∙ store-send_in_group g _ body b

  pub store-after_expiry :
      (m : Match) (b : Bot)
      → (after_expiry env m b).store ≡ delete_confirmations m.group_id m.match_id b.store
  unfolding after_expiry
  store-after_expiry m b = grind (arith, store-notify_players)

  pub get-expire_match :
      (m : Match) (k : MatchKey) (b : Bot)
      → GoMap.get k (expire_match env m b).store.matches
        ≡ (if match_key_eqb (key_of m) k then none else GoMap.get k b.store.matches)
  unfolding expire_match delete_match delete_confirmations
  get-expire_match m k b = ground (
    arith,
    get-delete_match m.group_id m.match_id b.store k,
    store-after_expiry m (record b { store = (delete_match m.group_id m.match_id b.store).1 }),
    match_key_eqb_iff (key_of m) k,
  )

  pub settings-expire_match :
      (m : Match) (b : Bot)
      → ((expire_match env m b).store.match_counters ≡ b.store.match_counters)
        × ((expire_match env m b).store.groups ≡ b.store.groups)
  unfolding expire_match delete_match delete_confirmations
  settings-expire_match m b = ground (
    arith,
    store-after_expiry m (record b { store = (delete_match m.group_id m.match_id b.store).1 }),
  )

  pub settings-expire_matches :
      (ms : List Match) (b : Bot)
      → ((expire_matches env ms b).store.match_counters ≡ b.store.match_counters)
        × ((expire_matches env ms b).store.groups ≡ b.store.groups)
  unfolding expire_matches
  settings-expire_matches [] b = (refl, refl)
  settings-expire_matches (m ∷ ms) b =
      ground (arith, settings-expire_matches ms (expire_match env m b), settings-expire_match m b)

  pub get-expire_matches :
      (ms : List Match) (k : MatchKey) (b : Bot)
      → GoMap.get k (expire_matches env ms b).store.matches
        ≡ (if any (λ m. match_key_eqb (key_of m) k) ms then none else GoMap.get k b.store.matches)
  unfolding expire_matches any
  get-expire_matches [] k b = refl
  get-expire_matches (m ∷ ms) k b =
      ground (arith, get-expire_matches ms k (expire_match env m b), get-expire_match m k b)

-- The rows that a scan picks have the keys whose row passes the test.
pub any-rows_where :
    (p : Match → Bool) (k : MatchKey) (full rows : GoMap MatchKey Match)
    → All (λ e. (e.0 ≡ key_of e.1) × (GoMap.get e.0 full ≡ some e.1)) rows
    → any (λ m. match_key_eqb (key_of m) k) (rows_where p rows) ≡ (elim (GoMap.get k rows) [
      | none ↦ false
      | some m ↦ elim (GoMap.get k full) [ none ↦ false | some n ↦ p n ]
    ])
unfolding any rows_where GoMap.get
any-rows_where p k full [] h = refl
any-rows_where p k full ((j, m) ∷ rows) h =
    ground (arith, any-rows_where p k full rows h.1, h.0, match_key_eqb_iff j k)

-- The match of a vote.
abbrev pub match_of : VoteKey → MatchKey
match_of k = record { group = k.group; match_id = k.match_id }

module _ (env : Env) where
  votes-expire_match :
      (m : Match) (k : VoteKey) (b : Bot)
      → (GoMap.get k (expire_match env m b).store.confirmations ≡ (
          if is_some (GoMap.get (key_of m) b.store.matches) && match_key_eqb (key_of m) (match_of k)
          then none
          else GoMap.get k b.store.confirmations))
        × (GoMap.get k (expire_match env m b).store.undos ≡ (
            if is_some (GoMap.get (key_of m) b.store.matches)
              && match_key_eqb (key_of m) (match_of k)
            then none
            else GoMap.get k b.store.undos))
  unfolding expire_match delete_match delete_confirmations
  votes-expire_match m k b = ground (
    arith,
    store-after_expiry env m (record b { store = (delete_match m.group_id m.match_id b.store).1 }),
    get-delete_where (of_match m.group_id m.match_id) k b.store.confirmations,
    get-delete_where (of_match m.group_id m.match_id) k
        (GoMap.delete_where (of_match m.group_id m.match_id) b.store.confirmations),
    get-delete_where (of_match m.group_id m.match_id) k b.store.undos,
  )

  -- Where every listed match is there or has no votes, its votes go with it.
  pub votes-expire_matches :
      (ms : List Match) (k : VoteKey) (b : Bot)
      → (any (λ m. match_key_eqb (key_of m) (match_of k)) ms ≡ true
          → GoMap.get (match_of k) b.store.matches ≡ none
          → (GoMap.get k b.store.confirmations ≡ none) × (GoMap.get k b.store.undos ≡ none))
      → (GoMap.get k (expire_matches env ms b).store.confirmations ≡ (
          if any (λ m. match_key_eqb (key_of m) (match_of k)) ms
          then none
          else GoMap.get k b.store.confirmations))
        × (GoMap.get k (expire_matches env ms b).store.undos ≡ (
            if any (λ m. match_key_eqb (key_of m) (match_of k)) ms
            then none
            else GoMap.get k b.store.undos))
  unfolding expire_matches any
  votes-expire_matches [] k b h = (refl, refl)
  votes-expire_matches (m ∷ ms) k b h =
      let v = votes-expire_match m k b in
      let r = get-expire_match env m (match_of k) b in
      let e = match_key_eqb_iff (key_of m) (match_of k) in
      ground (
        arith,
        votes-expire_matches ms k (expire_match env m b) (λ a n. ground (arith, v, r, e, a, n, h)),
        v,
        r,
        e,
        h,
      )
