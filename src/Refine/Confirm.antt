-- ===== src/Refine/Confirm.antt =====
-- The taps on the two buttons under a pending match, as steps.
use ttbot_repo_placeholder.Prelude.{
  ℕ, ◌≡◌, refl, sym, subst, ◌∙◌, Bool, true, false, ◌&&◌, ◌||◌, ◌⊎◌, inl, inr, arith, if◌then◌else◌,
  Bool-cases, option_case,
}
use ttbot_repo_placeholder.GoMap.{get-put}
use ttbot_repo_placeholder.Text.{Text}
use ttbot_repo_placeholder.Models.{Match, MatchStatus, is_status}
use ttbot_repo_placeholder.Store.{Store, vote_key}
use ttbot_repo_placeholder.Store.Matches.{found, get_match, update_status, delete_match}
use ttbot_repo_placeholder.Store.Votes.{insert_confirmation}
use ttbot_repo_placeholder.Messages.{CallbackQuery}
use ttbot_repo_placeholder.Bot.{Env, is_chat_admin, call}
use ttbot_repo_placeholder.Handlers.Replies.{call_error, answer}
use ttbot_repo_placeholder.Handlers.Confirm.{
  parse_group_match_payload, may_decide, handle_confirm_tap, handle_cancel_tap,
}
use ttbot_repo_placeholder.Ledger.{ledger, ledger_of}
use ttbot_repo_placeholder.Ledger.Confirm.{
  with_tap, both_confirmed, ledger-confirm_match, voted, both_voted,
}
use ttbot_repo_placeholder.Ledger.Cancel.{ledger-cancel_match}
use ttbot_repo_placeholder.Ledger.Steps.{
  person, Step, Steps, stay, then_step, one, confirmed, approved, cancelled, HasVoted, vote_on,
}
use ttbot_repo_placeholder.Ledger.Steps.WellFormed.{WellFormed, Step-WellFormed, confirmation_key}
use ttbot_repo_placeholder.Refine.{cause, Refines, Reached, found_case}
use ttbot_repo_placeholder.Refine.Rows.{
  key, Linked-IsKeyed, is_status-pending, get_match_row, update_status_row, delete_match_row,
}

module _ (env : Env) (q : CallbackQuery) where
  -- The votes of the two players after the tap.
  with_tap-voted :
      (gid mid id : ℕ) (s : Store)
      → voted env q gid mid id s ≡ true
      → HasVoted (key gid mid) id (ledger_of (with_tap env q gid mid s))
  unfolding insert_confirmation
  with_tap-voted gid mid id s h = ground (
    arith,
    get-put (vote_on (key gid mid) q.from.id) (vote_on (key gid mid) id)
        (record { group_id = gid; match_id = mid; telegram_id = q.from.id; confirmed_at = env.now })
        s.confirmations,
  )

  -- Why a tap approves.
  approval :
      (gid mid : ℕ) (m : Match) (s : Store)
      → WellFormed (ledger_of s)
      → (is_chat_admin env gid q.from.id
          || both_confirmed env q gid mid m (with_tap env q gid mid s))
        ≡ true
      → let l = ledger_of (with_tap env q gid mid s) in
        (is_chat_admin env gid q.from.id ≡ true)
        ⊎ (HasVoted (key gid mid) m.player1_id l × HasVoted (key gid mid) m.player2_id l)
  approval gid mid m s w h =
      let keyed =
        Linked-IsKeyed confirmation_key (λ c. c.telegram_id) (λ c. refl) s.confirmations
          s.confirmations w.votes in
      let e = sym (both_voted env q gid mid m s keyed) ∙ h in
      elim (Bool-cases (is_chat_admin env gid q.from.id)) [
        | inl a ↦ inl a
        | inr n ↦ inr (
          with_tap-voted gid mid m.player1_id s (ground (arith, e, n)),
          with_tap-voted gid mid m.player2_id s (ground (arith, e, n)),
        )
      ]

  module _ (gid mid : ℕ) (m : Match) (s : Store) (h : get_match gid mid s ≡ found m)
      (w : WellFormed (ledger_of s)) where
    confirm_step :
        is_status m.status MatchStatus.pending ≡ true
        → may_decide env gid q.from.id m ≡ true
        → Step (cause env (person q.from.id)) (ledger_of s) (ledger_of (with_tap env q gid mid s))
    unfolding insert_confirmation may_decide
    confirm_step p d =
        confirmed q.from.id (key gid mid) m (get_match_row gid mid m s h)
          (is_status-pending m.status p) (inl (refl, d))

    with_tap-row : get_match gid mid (with_tap env q gid mid s) ≡ found m
    unfolding get_match insert_confirmation
    with_tap-row = ground (arith, h)

    approve_step :
        is_status m.status MatchStatus.pending ≡ true
        → may_decide env gid q.from.id m ≡ true
        → (is_chat_admin env gid q.from.id
            || both_confirmed env q gid mid m (with_tap env q gid mid s))
          ≡ true
        → Step
            (cause env (person q.from.id))
            (ledger_of (with_tap env q gid mid s))
            (ledger_of (update_status gid mid MatchStatus.approved (with_tap env q gid mid s)).1)
    unfolding may_decide
    approve_step p d a =
        let s' = with_tap env q gid mid s in
        let row : get_match gid mid s' ≡ found m = with_tap-row in
        let w' = Step-WellFormed (cause env (person q.from.id)) (confirm_step p d) w in
        subst (Step (cause env (person q.from.id)) (ledger_of s'))
          (sym (update_status_row gid mid m s' row MatchStatus.approved w'))
          (approved q.from.id (key gid mid) m (get_match_row gid mid m s' row)
            (is_status-pending m.status p) (refl, d) (approval gid mid m s w a))

    -- The three outcomes of a tap on Confirm.
    confirm_steps :
        (d p a : Bool)
        → may_decide env gid q.from.id m ≡ d
        → is_status m.status MatchStatus.pending ≡ p
        → (is_chat_admin env gid q.from.id
            || both_confirmed env q gid mid m (with_tap env q gid mid s))
          ≡ a
        → Steps (cause env (person q.from.id)) 1 (ledger_of s) (
            if d && p
            then (if a
                then ledger_of
                    (update_status gid mid MatchStatus.approved (with_tap env q gid mid s)).1
                else ledger_of (with_tap env q gid mid s))
            else ledger_of s)
    confirm_steps true true true d p a = then_step (one _ (confirm_step p d)) (approve_step p d a)
    confirm_steps true true false d p a = one _ (confirm_step p d)
    confirm_steps true false a d p e = stay
    confirm_steps false p a d e f = stay

    cancel_steps :
        (d p : Bool)
        → may_decide env gid q.from.id m ≡ d
        → is_status m.status MatchStatus.pending ≡ p
        → Steps
            (cause env (person q.from.id))
            1
            (ledger_of s)
            (if d && p then ledger_of (delete_match gid mid s).1 else ledger_of s)
    unfolding may_decide
    cancel_steps true true d p =
        subst (Steps (cause env (person q.from.id)) 1 (ledger_of s))
          (sym (delete_match_row gid mid m s h))
          (one _ (
            cancelled q.from.id (key gid mid) m (get_match_row gid mid m s h)
              (is_status-pending m.status p) (refl, d)))
    cancel_steps true false d p = stay
    cancel_steps false p d e = stay

  pub confirm_tap-Refines :
      (payload : Text) → Refines env (person q.from.id) 1 (handle_confirm_tap env q payload)
  unfolding handle_confirm_tap answer call_error call
  confirm_tap-Refines payload b w =
      option_case (Reached env (person q.from.id) 1 b) (parse_group_match_payload payload)
        (λ _. stay)
        (λ r _.
          found_case (Reached env (person q.from.id) 1 b) (get_match r.0 r.1 b.store)
            (λ m h.
              subst (Steps (cause env (person q.from.id)) 1 (ledger b))
                (sym (ledger-confirm_match env q payload r.0 r.1 m b))
                (confirm_steps r.0 r.1 m b.store h w _ _ _ refl refl refl))
            (λ _. stay))

  pub cancel_tap-Refines :
      (payload : Text) → Refines env (person q.from.id) 1 (handle_cancel_tap env q payload)
  unfolding handle_cancel_tap answer call_error call
  cancel_tap-Refines payload b w =
      option_case (Reached env (person q.from.id) 1 b) (parse_group_match_payload payload)
        (λ _. stay)
        (λ r _.
          found_case (Reached env (person q.from.id) 1 b) (get_match r.0 r.1 b.store)
            (λ m h.
              subst (Steps (cause env (person q.from.id)) 1 (ledger b))
                (sym (ledger-cancel_match env q r.0 r.1 m b))
                (cancel_steps r.0 r.1 m b.store h w _ _ refl refl))
            (λ _. stay))
