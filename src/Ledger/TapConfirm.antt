-- ===== src/Ledger/TapConfirm.antt =====
-- What the confirm button of the interactive picker does to the ledger
-- (pkg/handlers/match_interactive.go).
use ttbot_repo_placeholder.Prelude.{
  ℕ, ◌≡◌, refl, sym, subst, ◌∙◌, ap, true, false, some, List, arith, eqb,
}
use ttbot_repo_placeholder.GoMap
use ttbot_repo_placeholder.Text.{Text, text, text_eqb, strip_prefix}
use ttbot_repo_placeholder.Models.{Group}
use ttbot_repo_placeholder.Store.Matches.{found}
use ttbot_repo_placeholder.Store.Players.{get_group}
use ttbot_repo_placeholder.Messages.{CallbackQuery}
use ttbot_repo_placeholder.Bot.{Env, Bot, Draft, Button, Result, ok, err, call, is_chat_admin}
use ttbot_repo_placeholder.Interactive.Drafts.{
  drop_draft, gc_drafts, load_or_restore_draft, draft_key,
}
use ttbot_repo_placeholder.Ledger.{ledger}
use ttbot_repo_placeholder.Ledger.Register.{RegisterEffect, next_id, register_interactive_effect}
use ttbot_repo_placeholder.Ledger.Taps.{Keeps, ledger-ack, ledger-save_draft, ledger-settle_tap}
use ttbot_repo_placeholder.Handlers.Replies.{call_ignored}
use ttbot_repo_placeholder.Handlers.Register.{new_match}
use ttbot_repo_placeholder.Handlers.Taps.{register_interactive_match}
use ttbot_repo_placeholder.Handlers.Taps.Dispatch.{
  after_registration, register_scores, confirm_scores, tap_confirm, draft_key_of,
}
use ttbot_repo_placeholder.Handlers.Taps.Callback.{
  dispatch_score, dispatch_pick, dispatch_tap, tap_draft, tap_restored,
  handle_match_interactive_callback,
}

module _ (env : Env) (q : CallbackQuery) where
  pub ledger-after_registration :
      (d : Draft) (r : Result (Text × List (List Button))) → Keeps (after_registration env q d r)
  unfolding after_registration drop_draft call_ignored call
  ledger-after_registration d (err e) b = refl
  ledger-after_registration d (ok (t, rows)) b = ledger-ack env q d (text "Match registered") _

  dispatch_tap-confirm :
      (d : Draft) (b : Bot)
      → dispatch_tap env q d (text "confirm") b
        ≡ tap_confirm env q (record d { touched_at = env.now }) b
  unfolding dispatch_tap dispatch_pick dispatch_score text text_eqb strip_prefix
  dispatch_tap-confirm d b = refl

  register_scores-found :
      (d : Draft) (s1 s2 : ℕ) (g : Group) (b : Bot)
      → get_group q.prompt.chat_id b.store ≡ found g
      → let r =
          register_interactive_match env g d.owner_id d.opp_id (record { p1 = s1; p2 = s2 }) b in
        register_scores env q d s1 s2 b ≡ after_registration env q d r.0 r.1
  unfolding register_scores
  register_scores-found d s1 s2 g b h = ground arith

  tap_confirm-scores :
      (d : Draft) (s1 s2 : ℕ) (b : Bot)
      → d.is_score ≡ true
      → d.p1 ≡ some s1
      → d.p2 ≡ some s2
      → eqb s1 s2 ≡ false
      → tap_confirm env q d b ≡ register_scores env q d s1 s2 b
  unfolding tap_confirm confirm_scores
  tap_confirm-scores d s1 s2 b step one two differ = ground arith

  ledger-tap_confirm :
      (d : Draft) (s1 s2 : ℕ) (g : Group) (b : Bot)
      → d.is_score ≡ true
      → d.p1 ≡ some s1
      → d.p2 ≡ some s2
      → eqb s1 s2 ≡ false
      → get_group q.prompt.chat_id b.store ≡ found g
      → ledger (tap_confirm env q d b).1
        ≡ ledger
            (register_interactive_match env g d.owner_id d.opp_id (record { p1 = s1; p2 = s2 }) b).1
  ledger-tap_confirm d s1 s2 g b step one two differ h =
      ap (λ x. ledger x.1)
        (tap_confirm-scores d s1 s2 b step one two differ ∙ register_scores-found d s1 s2 g b h)
      ∙ ledger-after_registration d _ _

  ledger-tap_draft_confirm :
      (d : Draft) (b : Bot)
      → q.from.id ≡ d.owner_id
      → ledger (tap_draft env q (text "confirm") d b).1
        ≡ ledger (tap_confirm env q (record d { touched_at = env.now }) b).1
  unfolding tap_draft
  ledger-tap_draft_confirm d b own =
      let mine : eqb q.from.id d.owner_id ≡ true = ground (arith, own) in
      let r = dispatch_tap env q d (text "confirm") b in
      rw (mine) (
        ledger-settle_tap env q r.0.0 _
        ∙ ledger-save_draft env q r.0.1 r.1
        ∙ ap (λ x. ledger x.1) (dispatch_tap-confirm d b))

  load-found :
      (d : Draft) (b : Bot)
      → GoMap.get (draft_key_of env q) b.drafts ≡ some d
      → load_or_restore_draft env.now (draft_key_of env q) q.prompt.text b
        ≡ (some d, record b { drafts = gc_drafts env.now b.drafts })
  unfolding load_or_restore_draft
  load-found d b h = ground arith

  ledger-callback :
      (payload : Text) (d : Draft) (b : Bot)
      → GoMap.get (draft_key_of env q) b.drafts ≡ some d
      → ledger (handle_match_interactive_callback env q payload b).1
        ≡ ledger (tap_draft env q payload d (record b { drafts = gc_drafts env.now b.drafts })).1
  unfolding handle_match_interactive_callback tap_restored
  ledger-callback payload d b h =
      ap (λ r. ledger (tap_restored env q payload r.0 r.1).1) (load-found d b h)

  -- The confirm button of a picker whose draft is there, tapped by its owner with two different scores
  -- selected against another player in a known group, registers exactly that match: one match is added
  -- under the next id of the group, with the owner's confirmation unless they are an admin of the chat,
  -- and nothing else in the ledger changes.
  pub confirm_registers :
      (d : Draft) (s1 s2 : ℕ) (g : Group) (b : Bot)
      → GoMap.get (draft_key_of env q) b.drafts ≡ some d
      → q.from.id ≡ d.owner_id
      → d.is_score ≡ true
      → d.p1 ≡ some s1
      → d.p2 ≡ some s2
      → eqb s1 s2 ≡ false
      → get_group q.prompt.chat_id b.store ≡ found g
      → eqb d.owner_id d.opp_id ≡ false
      → let admin = is_chat_admin env g.group_id d.owner_id in
        RegisterEffect env.now
          (new_match env.now g.group_id d.owner_id d.opp_id
            (record { p1 = s1; p2 = s2 })
            d.owner_id
            admin
            (next_id g.group_id (ledger b)))
          admin
          (ledger b)
          (ledger (handle_match_interactive_callback env q (text "confirm") b).1)
  confirm_registers d s1 s2 g b there own step one two differ hg other =
      let admin = is_chat_admin env g.group_id d.owner_id in
      let swept = record b { drafts = gc_drafts env.now b.drafts } in
      let run =
        ledger-callback (text "confirm") d b there
        ∙ ledger-tap_draft_confirm d swept own
        ∙ ledger-tap_confirm (record d { touched_at = env.now }) s1 s2 g swept step one two differ
            hg in
      subst
        (RegisterEffect env.now
          (new_match env.now g.group_id d.owner_id d.opp_id (record { p1 = s1; p2 = s2 }) d.owner_id
            admin (next_id g.group_id (ledger b)))
          admin (ledger b))
        (sym run)
        (register_interactive_effect env g d.owner_id d.opp_id (record { p1 = s1; p2 = s2 }) swept
          other)
