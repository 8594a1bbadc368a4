-- ===== src/Refine/Rows.antt =====
-- The operations of the store on one match, as the tables of the steps.
use ttbot_repo_placeholder.Prelude.{ℕ, ◌≡◌, refl, sym, ◌∙◌, ap, true, some, [], ◌∷◌, arith}
use ttbot_repo_placeholder.GoMap
use ttbot_repo_placeholder.GoMap.{GoMap}
use ttbot_repo_placeholder.Models.{Match, MatchStatus, is_status}
use ttbot_repo_placeholder.Store.{Store, MatchKey, match_key, VoteKey, vote_key}
use ttbot_repo_placeholder.Store.Keyed.{IsKeyed}
use ttbot_repo_placeholder.Store.Matches.{found, get_match, update_status, delete_match}
use ttbot_repo_placeholder.Ledger.{ledger_of}
use ttbot_repo_placeholder.Ledger.Expiry.{key_of}
use ttbot_repo_placeholder.Ledger.Steps.{with_row, without_match}
use ttbot_repo_placeholder.Ledger.Steps.Tables.{Linked, get-Linked}
use ttbot_repo_placeholder.Ledger.Steps.WellFormed.{WellFormed}

abbrev pub key : ℕ → ℕ → MatchKey
key gid mid = record { group = gid; match_id = mid }

pub is_status-pending :
    (s : MatchStatus) → is_status s MatchStatus.pending ≡ true → s ≡ MatchStatus.pending
unfolding is_status
is_status-pending MatchStatus.pending h = refl
is_status-pending MatchStatus.approved h = cc
is_status-pending MatchStatus.undone h = cc

-- Rows under their own keys have the users of their keys.
pub Linked-IsKeyed :
    {V : Type 0} (key_of : V → VoteKey) (user_of : V → ℕ)
    → ((v : V) → (key_of v).user ≡ user_of v)
    → (full rows : GoMap VoteKey V) → Linked key_of full rows
    → IsKeyed user_of rows
Linked-IsKeyed key_of user_of u full [] h = tt
Linked-IsKeyed key_of user_of u full ((k, c) ∷ rows) h =
    (sym (u c) ∙ ap (λ k. k.user) (sym h.0.0), Linked-IsKeyed key_of user_of u full rows h.1)

module _ (gid mid : ℕ) (m : Match) (s : Store) (h : get_match gid mid s ≡ found m) where
  pub get_match_row : GoMap.get (key gid mid) s.matches ≡ some m
  unfolding get_match
  get_match_row = ground arith

  -- A row that is read stands under its own key.
  pub key_of_row : WellFormed (ledger_of s) → key gid mid ≡ key_of m
  key_of_row w = get-Linked key_of (key gid mid) m s.matches s.matches w.rows get_match_row

  pub update_status_row :
      (status : MatchStatus)
      → WellFormed (ledger_of s)
      → ledger_of (update_status gid mid status s).1
        ≡ with_row (record m { status = status }) (ledger_of s)
  unfolding update_status
  update_status_row status w = ground (arith, get_match_row, key_of_row w)

  pub delete_match_row :
      ledger_of (delete_match gid mid s).1 ≡ without_match (key gid mid) (ledger_of s)
  unfolding delete_match
  delete_match_row = ground (arith, get_match_row)
