-- ===== src/Refine/Taps.antt =====
-- The taps on the picker, as steps.
use ttbot_repo_placeholder.Prelude.{
  ℕ, ◌≡◌, sym, subst, ◌∙◌, false, not, none, some, Option, [], eqb, arith, option_case, if_case,
}
use ttbot_repo_placeholder.Text.{Text, text, text_eqb, strip_prefix}
use ttbot_repo_placeholder.Store.Players.{get_group}
use ttbot_repo_placeholder.Messages.{CallbackQuery}
use ttbot_repo_placeholder.Bot.{Env, Act, GoError, Draft, call}
use ttbot_repo_placeholder.Models.{Group}
use ttbot_repo_placeholder.Handlers.Replies.{call_error, answer}
use ttbot_repo_placeholder.Handlers.Taps.{register_interactive_match}
use ttbot_repo_placeholder.Handlers.Taps.Dispatch.{
  ack, tap_cancel, tap_nav, tap_opp, tap_back, tap_score, after_registration, register_scores,
  confirm_scores, tap_confirm, draft_key_of,
}
use ttbot_repo_placeholder.Handlers.Taps.Callback.{
  dispatch_score, dispatch_pick, dispatch_tap, tap_draft, tap_restored,
  handle_match_interactive_callback,
}
use ttbot_repo_placeholder.Interactive.Drafts.{load_or_restore_draft}
use ttbot_repo_placeholder.Ledger.{ledger}
use ttbot_repo_placeholder.Ledger.Steps.{person, Steps, stay}
use ttbot_repo_placeholder.Ledger.Taps.{
  ledger-ack, ledger-tap_cancel, ledger-tap_nav, ledger-tap_opp, ledger-tap_back, ledger-tap_score,
  ledger-save_draft, ledger-settle_tap, ledger-load_or_restore_draft,
}
use ttbot_repo_placeholder.Ledger.TapConfirm.{ledger-after_registration}
use ttbot_repo_placeholder.Refine.{
  cause, Reached, Refines, found_case, keeps-Refines, then-Refines, if-Refines,
}
use ttbot_repo_placeholder.Refine.Register.{register_interactive-Refines}

module _ (env : Env) (q : CallbackQuery) where
  ack-Refines : (d : Draft) (t : Text) → Refines env (person q.from.id) 1 (ack env q d t)
  ack-Refines d t = keeps-Refines env (person q.from.id) (ack env q d t) (ledger-ack env q d t)

  -- The owner of the draft registers it.
  owned :
      (g : Group) (d : Draft) (s1 s2 : ℕ)
      → q.from.id ≡ d.owner_id
      → eqb s1 s2 ≡ false
      → Refines env
          (person q.from.id)
          1
          (register_interactive_match env g d.owner_id d.opp_id (record { p1 = s1; p2 = s2 }))
  owned g d s1 s2 o e =
      subst
        (λ i.
          Refines env (person i) 1
            (register_interactive_match env g d.owner_id d.opp_id (record { p1 = s1; p2 = s2 })))
        (sym o)
        (register_interactive-Refines env g d.owner_id d.opp_id (record { p1 = s1; p2 = s2 }) e)

  register_scores-Refines :
      (d : Draft) (s1 s2 : ℕ)
      → q.from.id ≡ d.owner_id
      → eqb s1 s2 ≡ false
      → Refines env (person q.from.id) 1 (register_scores env q d s1 s2)
  unfolding register_scores
  register_scores-Refines d s1 s2 o e b w =
      found_case (Reached env (person q.from.id) 1 b) (get_group q.prompt.chat_id b.store)
        (λ g _.
          then-Refines env (person q.from.id) {d = 0}
            (register_interactive_match env g d.owner_id d.opp_id (record { p1 = s1; p2 = s2 }))
            (after_registration env q d) (owned g d s1 s2 o e)
            (λ r.
              keeps-Refines env (person q.from.id) (after_registration env q d r)
                (ledger-after_registration env q d r))
            b w)
        (λ _. stay)

  confirm_scores-Refines :
      (d : Draft) (one two : Option ℕ)
      → q.from.id ≡ d.owner_id
      → Refines env (person q.from.id) 1 (confirm_scores env q d one two)
  unfolding confirm_scores
  confirm_scores-Refines d none two o = ack-Refines d _
  confirm_scores-Refines d (some s1) none o = ack-Refines d _
  confirm_scores-Refines d (some s1) (some s2) o =
      if_case (Refines env (person q.from.id) 1) (eqb s1 s2) (λ _. ack-Refines d _)
        (register_scores-Refines d s1 s2 o)

  tap_confirm-Refines :
      (d : Draft) → q.from.id ≡ d.owner_id → Refines env (person q.from.id) 1 (tap_confirm env q d)
  unfolding tap_confirm
  tap_confirm-Refines d o =
      if-Refines env (person q.from.id) (not d.is_score) (ack env q d [])
        (confirm_scores env q d d.p1 d.p2) (ack-Refines d []) (confirm_scores-Refines d d.p1 d.p2 o)

  dispatch_score-Refines :
      (d : Draft) (payload : Text)
      → q.from.id ≡ d.owner_id
      → Refines env (person q.from.id) 1 (dispatch_score env q d payload)
  unfolding dispatch_score
  dispatch_score-Refines d payload o =
      option_case (Refines env (person q.from.id) 1) (strip_prefix (text "s:") payload)
        (λ _.
          if-Refines env (person q.from.id) (text_eqb payload (text "confirm"))
            (tap_confirm env q d) (ack env q d []) (tap_confirm-Refines d o) (ack-Refines d []))
        (λ arg _.
          keeps-Refines env (person q.from.id) (tap_score env q d arg)
            (ledger-tap_score env q d arg))

  dispatch_pick-Refines :
      (d : Draft) (payload : Text)
      → q.from.id ≡ d.owner_id
      → Refines env (person q.from.id) 1 (dispatch_pick env q d payload)
  unfolding dispatch_pick
  dispatch_pick-Refines d payload o =
      option_case (Refines env (person q.from.id) 1) (strip_prefix (text "nav:") payload)
        (λ _.
          option_case (Refines env (person q.from.id) 1) (strip_prefix (text "opp:") payload)
            (λ _.
              if-Refines env (person q.from.id) (text_eqb payload (text "back")) (tap_back env q d)
                (dispatch_score env q d payload)
                (keeps-Refines env (person q.from.id) (tap_back env q d) (ledger-tap_back env q d))
                (dispatch_score-Refines d payload o))
            (λ arg _.
              keeps-Refines env (person q.from.id) (tap_opp env q d arg)
                (ledger-tap_opp env q d arg)))
        (λ arg _.
          keeps-Refines env (person q.from.id) (tap_nav env q d arg) (ledger-tap_nav env q d arg))

  dispatch_tap-Refines :
      (d : Draft) (payload : Text)
      → q.from.id ≡ d.owner_id
      → Refines env (person q.from.id) 1 (dispatch_tap env q d payload)
  unfolding dispatch_tap
  dispatch_tap-Refines d payload o =
      let d' = record d { touched_at = env.now } in
      if-Refines env (person q.from.id) (text_eqb payload (text "cancel")) (tap_cancel env q d') _
        (keeps-Refines env (person q.from.id) (tap_cancel env q d') (ledger-tap_cancel env q d'))
        (if-Refines env (person q.from.id) (text_eqb payload (text "noop")) (ack env q d' [])
          (dispatch_pick env q d' payload) (ack-Refines d' []) (dispatch_pick-Refines d' payload o))

  tap_draft-Refines :
      (payload : Text) (d : Draft) → Refines env (person q.from.id) 1 (tap_draft env q payload d)
  unfolding tap_draft answer call_error call
  tap_draft-Refines payload d =
      if_case {R = Act GoError} (Refines env (person q.from.id) 1) (not (eqb q.from.id d.owner_id))
        (λ _ b w. stay)
        (λ own b w.
          let r = dispatch_tap env q d payload b in
          subst (Steps (cause env (person q.from.id)) 1 (ledger b))
            (sym (ledger-settle_tap env q r.0.0 _ ∙ ledger-save_draft env q r.0.1 r.1))
            (dispatch_tap-Refines d payload (ground (arith, own)) b w))

  tap_restored-Refines :
      (payload : Text) (r : Option Draft)
      → Refines env (person q.from.id) 1 (tap_restored env q payload r)
  unfolding tap_restored answer call_error call
  tap_restored-Refines payload none b w = stay
  tap_restored-Refines payload (some d) b w = tap_draft-Refines payload d b w

  pub interactive-Refines :
      (payload : Text)
      → Refines env (person q.from.id) 1 (handle_match_interactive_callback env q payload)
  unfolding handle_match_interactive_callback
  interactive-Refines payload =
      then-Refines env (person q.from.id) {c = 0}
        (load_or_restore_draft env.now (draft_key_of env q) q.prompt.text)
        (tap_restored env q payload)
        (keeps-Refines env (person q.from.id)
          (load_or_restore_draft env.now (draft_key_of env q) q.prompt.text)
          (ledger-load_or_restore_draft env q env.now q.prompt.text))
        (tap_restored-Refines payload)
