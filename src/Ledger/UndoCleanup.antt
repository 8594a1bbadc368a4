-- ===== src/Ledger/UndoCleanup.antt =====
-- What cleanExpiredUndo of pkg/handlers/periodic.go does to the ledger.
use ttbot_repo_placeholder.Prelude.{
  ℕ, ◌-◌, ◌*◌, ◌≡◌, refl, ◌∙◌, ap, Bool, false, Option, none, some, List, [], ◌∷◌, arith, any, All,
  ltb, if◌then◌else◌,
}
use ttbot_repo_placeholder.GoMap
use ttbot_repo_placeholder.GoMap.{GoMap, get-delete}
use ttbot_repo_placeholder.Models.{UndoCommand, hour}
use ttbot_repo_placeholder.Store.{VoteKey, vote_key, vote_key_eqb, vote_key_eqb_iff}
use ttbot_repo_placeholder.Store.Votes.{delete_undo, requested_before, list_expired_undos}
use ttbot_repo_placeholder.Bot.{Env, Bot}
use ttbot_repo_placeholder.Handlers.Periodic.{expire_undo, expire_undos, clean_expired_undo}
use ttbot_repo_placeholder.Ledger.{Ledger, ledger}
use ttbot_repo_placeholder.Ledger.Expiry.{store-send_in_group}

-- The key of a request.
abbrev pub request_key : UndoCommand → VoteKey
request_key u = record { group = u.group_id; match_id = u.match_id; user = u.telegram_id }

-- The table of requests is a map with its rows under the keys of their own fields.
abbrev pub KeyedRequests : GoMap VoteKey UndoCommand → Type 0
KeyedRequests us = All (λ e. (e.0 ≡ request_key e.1) × (GoMap.get e.0 us ≡ some e.1)) us

-- A request that was made before the cutoff.
abbrev pub is_outdated : ℕ → Option UndoCommand → Bool
is_outdated cutoff none = false
is_outdated cutoff (some u) = ltb u.requested_at cutoff

-- The outdated requests go; everything else stays.
pub record RequestsEffect (cutoff : ℕ) (before after : Ledger) : Type 0 where
  pub requests :
      (k : VoteKey)
      → GoMap.get k after.undos
        ≡ (if is_outdated cutoff (GoMap.get k before.undos) then none else GoMap.get k before.undos)
  pub rows : after.matches ≡ before.matches
  pub votes : after.confirmations ≡ before.confirmations
  pub counters : after.match_counters ≡ before.match_counters
  pub groups : after.groups ≡ before.groups

any-requested_before :
    (cutoff : ℕ) (k : VoteKey) (full rows : GoMap VoteKey UndoCommand)
    → All (λ e. (e.0 ≡ request_key e.1) × (GoMap.get e.0 full ≡ some e.1)) rows
    → any (λ u. vote_key_eqb (request_key u) k) (requested_before cutoff rows)
      ≡ (elim (GoMap.get k rows) [ none ↦ false | some m ↦ is_outdated cutoff (GoMap.get k full) ])
unfolding any requested_before GoMap.get
any-requested_before cutoff k full [] h = refl
any-requested_before cutoff k full ((j, u) ∷ rows) h =
    ground (arith, any-requested_before cutoff k full rows h.1, h.0, vote_key_eqb_iff j k)

module _ (env : Env) where
  pub get-expire_undo :
      (u : UndoCommand) (k : VoteKey) (b : Bot)
      → GoMap.get k (expire_undo env u b).store.undos
        ≡ (if vote_key_eqb (request_key u) k then none else GoMap.get k b.store.undos)
  unfolding expire_undo delete_undo
  get-expire_undo u k b = grind (
    arith,
    get-delete (request_key u) k b.store.undos,
    store-send_in_group env,
    vote_key_eqb_iff (request_key u) k,
  )

  rest-expire_undo :
      (u : UndoCommand) (b : Bot)
      → ((expire_undo env u b).store.matches ≡ b.store.matches)
        × ((expire_undo env u b).store.confirmations ≡ b.store.confirmations)
        × ((expire_undo env u b).store.match_counters ≡ b.store.match_counters)
        × ((expire_undo env u b).store.groups ≡ b.store.groups)
  unfolding expire_undo delete_undo
  rest-expire_undo u b = grind (arith, store-send_in_group env)

  get-expire_undos :
      (us : List UndoCommand) (k : VoteKey) (b : Bot)
      → GoMap.get k (expire_undos env us b).store.undos
        ≡ (if any (λ u. vote_key_eqb (request_key u) k) us then none else GoMap.get k b.store.undos)
  unfolding expire_undos any
  get-expire_undos [] k b = refl
  get-expire_undos (u ∷ us) k b =
      ground (arith, get-expire_undos us k (expire_undo env u b), get-expire_undo u k b)

  rest-expire_undos :
      (us : List UndoCommand) (b : Bot)
      → ((expire_undos env us b).store.matches ≡ b.store.matches)
        × ((expire_undos env us b).store.confirmations ≡ b.store.confirmations)
        × ((expire_undos env us b).store.match_counters ≡ b.store.match_counters)
        × ((expire_undos env us b).store.groups ≡ b.store.groups)
  unfolding expire_undos
  rest-expire_undos [] b = (refl, refl, refl, refl)
  rest-expire_undos (u ∷ us) b =
      ground (arith, rest-expire_undos us (expire_undo env u b), rest-expire_undo u b)

  -- Where the undo requests stand under the keys of their own fields, the clean-up of undo requests
  -- removes exactly those that are older than a day, and changes nothing else in the ledger.
  pub clean_expired_undo-RequestsEffect :
      (b : Bot)
      → KeyedRequests b.store.undos
      → RequestsEffect (env.now - 24 * hour) (ledger b) (ledger (clean_expired_undo env b))
  unfolding clean_expired_undo list_expired_undos
  clean_expired_undo-RequestsEffect b h =
      let us = list_expired_undos (env.now - 24 * hour) b.store in
      let rest = rest-expire_undos us b in
      record {
        requests = λ k.
            get-expire_undos us k b
            ∙ ap (λ x. if x then none else GoMap.get k b.store.undos)
                (any-requested_before (env.now - 24 * hour) k b.store.undos b.store.undos h
                  ∙ ground arith);
        rows = rest.0;
        votes = rest.1;
        counters = rest.2;
        groups = rest.3;
      }
