-- ===== src/Ledger/Cancel.antt =====
-- What a tap on the Cancel button under a match does to the ledger (pkg/handlers/match.go).
use ttbot_repo_placeholder.Prelude.{
  ℕ, ◌^◌, ◌<◌, ◌≡◌, refl, sym, subst, ◌∙◌, true, false, ◌&&◌, Option, none, some, [], arith,
  if◌then◌else◌,
}
use ttbot_repo_placeholder.GoMap
use ttbot_repo_placeholder.Text.{Text}
use ttbot_repo_placeholder.Models.{Match, MatchStatus, is_status}
use ttbot_repo_placeholder.Store.{Store, MatchKey, VoteKey, match_key, vote_key, match_key_eqb}
use ttbot_repo_placeholder.Store.Matches.{
  Found, found, not_found, of_match, get_match, delete_match,
}
use ttbot_repo_placeholder.Store.Laws.{get-delete_match, delete_match_votes, delete_match_rest}
use ttbot_repo_placeholder.Messages.{CallbackQuery}
use ttbot_repo_placeholder.Bot.{Env, Bot, call, writes}
use ttbot_repo_placeholder.Ledger.{Ledger, ledger, ledger_of}
use ttbot_repo_placeholder.Ledger.Confirm.{if_both, ledger-answer}
use ttbot_repo_placeholder.Handlers.Replies.{call_error, call_ignored, answer}
use ttbot_repo_placeholder.Handlers.Register.{match_payload}
use ttbot_repo_placeholder.Handlers.Confirm.{
  parse_group_match_payload, may_decide, cancel_match, handle_cancel_tap,
}
use ttbot_repo_placeholder.Handlers.Confirm.Payload.{parse_group_match_payload-match_payload}

-- The ledger `l` is that of `s` without one match, its confirmations and its undo requests.
pub record Gone (gid mid : ℕ) (s : Store) (l : Ledger) : Type 0 where
  pub rows :
      (k : MatchKey)
      → GoMap.get k l.matches ≡ (
          if match_key_eqb (record { group = gid; match_id = mid }) k
          then none
          else GoMap.get k s.matches)
  pub votes :
      (k : VoteKey)
      → GoMap.get k l.confirmations
        ≡ (if of_match gid mid k then none else GoMap.get k s.confirmations)
  pub requests :
      (k : VoteKey)
      → GoMap.get k l.undos ≡ (if of_match gid mid k then none else GoMap.get k s.undos)
  pub counters : l.match_counters ≡ s.match_counters
  pub groups : l.groups ≡ s.groups

-- Delete of a row that is there.
pub delete_match-Gone :
    (gid mid : ℕ) (m : Match) (s : Store)
    → get_match gid mid s ≡ found m
    → Gone gid mid s (ledger_of (delete_match gid mid s).1)
delete_match-Gone gid mid m s h = record {
  rows = get-delete_match gid mid s;
  votes = λ k. (delete_match_votes gid mid s m k h).0;
  requests = λ k. (delete_match_votes gid mid s m k h).1;
  counters = (delete_match_rest gid mid s).0;
  groups = (delete_match_rest gid mid s).1;
}

module _ (env : Env) (q : CallbackQuery) where
  pub ledger-cancel_match :
      (gid mid : ℕ) (m : Match) (b : Bot)
      → ledger (cancel_match env q gid mid m b).1 ≡ (
          if may_decide env gid q.from.id m && is_status m.status MatchStatus.pending
          then ledger_of (delete_match gid mid b.store).1
          else ledger b)
  unfolding cancel_match writes call_ignored answer call_error call
  ledger-cancel_match gid mid m b = ground arith

  pub ledger-handle_cancel_tap :
      (payload : Text) (gid mid : ℕ) (m : Match) (b : Bot)
      → parse_group_match_payload payload ≡ some (gid, mid)
      → get_match gid mid b.store ≡ found m
      → ledger (handle_cancel_tap env q payload b).1 ≡ ledger (cancel_match env q gid mid m b).1
  unfolding handle_cancel_tap
  ledger-handle_cancel_tap payload gid mid m b p h = ground arith

  -- A tap on the Cancel button of a pending match, by one of its players or an admin of the chat, where
  -- the ids are in range, takes the match, its confirmations and its undo requests out of the store, and
  -- changes no other match, confirmation or request, no group, and no counter, so that the id is not
  -- given out again.
  pub cancel_tap_effect :
      (gid mid : ℕ) (m : Match) (b : Bot)
      → gid < 2 ^ 64
      → mid < 2 ^ 64
      → get_match gid mid b.store ≡ found m
      → m.status ≡ MatchStatus.pending
      → may_decide env gid q.from.id m ≡ true
      → Gone gid mid b.store (ledger (handle_cancel_tap env q (match_payload gid mid) b).1)
  unfolding is_status
  cancel_tap_effect gid mid m b hg hm h pend allowed =
      let read = parse_group_match_payload-match_payload gid mid hg hm in
      let still_pending : is_status m.status MatchStatus.pending ≡ true = rw pend in
      let effect =
        ledger-handle_cancel_tap (match_payload gid mid) gid mid m b read h
        ∙ ledger-cancel_match gid mid m b
        ∙ if_both _ _ _ _ allowed still_pending in
      subst (Gone gid mid b.store) (sym effect) (delete_match-Gone gid mid m b.store h)

  -- A tap on the Cancel button leaves the whole ledger as it was where the payload does not parse, the
  -- match is not there, the user is neither a player of it nor an admin of the chat, or the match is
  -- not pending.
  pub cancel_tap_refused :
      (payload : Text) (b : Bot)
      → ((gid mid : ℕ) (m : Match)
          → parse_group_match_payload payload ≡ some (gid, mid)
          → get_match gid mid b.store ≡ found m
          → (may_decide env gid q.from.id m && is_status m.status MatchStatus.pending) ≡ false)
      → ledger (handle_cancel_tap env q payload b).1 ≡ ledger b
  unfolding handle_cancel_tap
  cancel_tap_refused payload b refused = elim_payload (parse_group_match_payload payload) refl
    where
      elim_row :
          (gid mid : ℕ) (r : Found Match)
          → parse_group_match_payload payload ≡ some (gid, mid)
          → get_match gid mid b.store ≡ r
          → ledger (handle_cancel_tap env q payload b).1 ≡ ledger b
      elim_row gid mid not_found p e = ground (arith, ledger-answer env q [] b)
      elim_row gid mid (found m) p e =
          ledger-handle_cancel_tap payload gid mid m b p e
          ∙ ledger-cancel_match gid mid m b
          ∙ ground (arith, refused gid mid m p e)

      elim_payload :
          (o : Option (ℕ × ℕ))
          → parse_group_match_payload payload ≡ o
          → ledger (handle_cancel_tap env q payload b).1 ≡ ledger b
      elim_payload none p = rw (p, handle_cancel_tap) (ledger-answer env q [] b)
      elim_payload (some (gid, mid)) p = elim_row gid mid (get_match gid mid b.store) p refl
