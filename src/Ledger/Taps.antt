-- ===== src/Ledger/Taps.antt =====
-- What the taps on the interactive picker do to the ledger (pkg/handlers/match_interactive.go).
use ttbot_repo_placeholder.Prelude.{
  ℕ, ◌≡◌, refl, sym, subst, ◌∙◌, Bool, true, false, Option, none, some, [], arith, eqb, leb, not,
  if◌then◌else◌,
}
use ttbot_repo_placeholder.Text.{Text, text, text_eqb, strip_prefix, split_at}
use ttbot_repo_placeholder.Text.Decimal.{parse_int}
use ttbot_repo_placeholder.Messages.{CallbackQuery}
use ttbot_repo_placeholder.Bot.{Env, Bot, Draft, GoError, call}
use ttbot_repo_placeholder.Interactive.Drafts.{
  drop_draft, restore_draft, load_or_restore_draft, draft_key,
}
use ttbot_repo_placeholder.Interactive.Picker.{View, score_max_val}
use ttbot_repo_placeholder.Ledger.{ledger}
use ttbot_repo_placeholder.Ledger.Frame.{ledger-player_label}
use ttbot_repo_placeholder.Handlers.Replies.{call_error, call_ignored, answer}
use ttbot_repo_placeholder.Handlers.Taps.Dispatch.{
  ack, edit_and_ack, show_opponents, tap_cancel, tap_nav, tap_opp, tap_back, tap_score, tap_confirm,
  owner_label_of, pick_opponent, pick_score, draft_key_of,
}
use ttbot_repo_placeholder.Handlers.Taps.Callback.{
  dispatch_score, dispatch_pick, dispatch_tap, save_draft, fail_tap_gracefully, settle_tap,
  tap_draft, tap_restored, handle_match_interactive_callback,
}

-- A step that leaves the ledger alone.
abbrev pub Keeps {ℓ} : {A : Type ℓ} → (Bot → A × Bot) → Type 0
Keeps step = (b : Bot) → ledger (step b).1 ≡ ledger b

module _ {ℓ} {A : Type ℓ} where
  if-Keeps : (c : Bool) (x y : Bot → A × Bot) → Keeps x → Keeps y → Keeps (if c then x else y)
  if-Keeps true x y h k = h
  if-Keeps false x y h k = k

  option-Keeps {κ} :
      {B : Type κ} (o : Option B) (x : Bot → A × Bot) (f : B → Bot → A × Bot)
      → Keeps x
      → ((a : B) → Keeps (f a))
      → Keeps {A = A} (elim o [ none ↦ x | some a ↦ f a ])
  option-Keeps none x f h k = h
  option-Keeps (some a) x f h k = k a

module _ (env : Env) (q : CallbackQuery) where
  pub ledger-ack : (d : Draft) (t : Text) (b : Bot) → ledger (ack env q d t b).1 ≡ ledger b
  unfolding ack answer call_error call
  ledger-ack d t b = refl

  ledger-edit_and_ack : (v : View) (b : Bot) → ledger (edit_and_ack env q v b).1 ≡ ledger b
  unfolding edit_and_ack answer call_error call
  ledger-edit_and_ack v b = refl

  pub ledger-show_opponents : (d : Draft) (b : Bot) → ledger (show_opponents env q d b).1 ≡ ledger b
  unfolding show_opponents ack edit_and_ack answer call_error call
  ledger-show_opponents d b = ground arith

  pub ledger-tap_cancel : (d : Draft) (b : Bot) → ledger (tap_cancel env q d b).1 ≡ ledger b
  unfolding tap_cancel ack drop_draft answer call_error call
  ledger-tap_cancel d b = ground arith

  pub ledger-tap_nav :
      (d : Draft) (arg : Text) (b : Bot) → ledger (tap_nav env q d arg b).1 ≡ ledger b
  unfolding tap_nav
  ledger-tap_nav d arg b =
      option-Keeps (parse_int arg) _ _ (ledger-ack d []) (λ page. ledger-show_opponents _) b

  ledger-owner_label_of : (d : Draft) (b : Bot) → ledger (owner_label_of env q d b).1 ≡ ledger b
  unfolding owner_label_of
  ledger-owner_label_of d b = ground (arith, ledger-player_label env q.prompt.chat_id d.owner_id b)

  ledger-pick_opponent :
      (d : Draft) (tid : ℕ) (b : Bot) → ledger (pick_opponent env q d tid b).1 ≡ ledger b
  unfolding pick_opponent
  ledger-pick_opponent d tid b =
      ledger-edit_and_ack _ _
      ∙ ledger-player_label env q.prompt.chat_id tid _
      ∙ ledger-owner_label_of d b

  pub ledger-tap_opp :
      (d : Draft) (arg : Text) (b : Bot) → ledger (tap_opp env q d arg b).1 ≡ ledger b
  unfolding tap_opp
  ledger-tap_opp d arg b =
      option-Keeps (parse_int arg) _ _ (ledger-ack d [])
        (λ tid. if-Keeps (eqb tid d.owner_id) _ _ (ledger-ack d []) (ledger-pick_opponent d tid)) b

  pub ledger-tap_back : (d : Draft) (b : Bot) → ledger (tap_back env q d b).1 ≡ ledger b
  unfolding tap_back
  ledger-tap_back d b = if-Keeps (not d.is_score) _ _ (ledger-ack d []) (ledger-show_opponents _) b

  ledger-pick_score :
      (d : Draft) (side v : ℕ) (b : Bot) → ledger (pick_score env q d side v b).1 ≡ ledger b
  unfolding pick_score
  ledger-pick_score d side v b =
      if-Keeps (not (leb v score_max_val)) _ _ (ledger-ack d [])
        (if-Keeps (eqb side 1) _ _ (ledger-edit_and_ack _)
          (if-Keeps (eqb side 2) _ _ (ledger-edit_and_ack _) (ledger-ack d [])))
        b

  pub ledger-tap_score :
      (d : Draft) (arg : Text) (b : Bot) → ledger (tap_score env q d arg b).1 ≡ ledger b
  unfolding tap_score
  ledger-tap_score d arg b =
      if-Keeps (not d.is_score) _ _ (ledger-ack d [])
        (option-Keeps (split_at b':' arg) _ _ (ledger-ack d []) (λ r.
          option-Keeps (parse_int r.0) _ _ (ledger-ack d []) (λ side.
            option-Keeps (parse_int r.1) _ _ (ledger-ack d []) (ledger-pick_score d side))))
        b

  ledger-dispatch_score :
      (d : Draft) (payload : Text)
      → text_eqb payload (text "confirm") ≡ false
      → Keeps (dispatch_score env q d payload)
  unfolding dispatch_score
  ledger-dispatch_score d payload n =
      option-Keeps (strip_prefix (text "s:") payload) _ _
        (subst (λ c. Keeps (if c then tap_confirm env q d else ack env q d [])) (sym n)
          (ledger-ack d []))
        (ledger-tap_score d)

  ledger-dispatch_pick :
      (d : Draft) (payload : Text)
      → text_eqb payload (text "confirm") ≡ false
      → Keeps (dispatch_pick env q d payload)
  unfolding dispatch_pick
  ledger-dispatch_pick d payload n =
      option-Keeps (strip_prefix (text "nav:") payload) _ _
        (option-Keeps (strip_prefix (text "opp:") payload) _ _
          (if-Keeps (text_eqb payload (text "back")) _ _ (ledger-tap_back d)
            (ledger-dispatch_score d payload n))
          (ledger-tap_opp d))
        (ledger-tap_nav d)

  ledger-dispatch_tap :
      (d : Draft) (payload : Text)
      → text_eqb payload (text "confirm") ≡ false
      → Keeps (dispatch_tap env q d payload)
  unfolding dispatch_tap
  ledger-dispatch_tap d payload n =
      if-Keeps (text_eqb payload (text "cancel")) _ _ (ledger-tap_cancel _) (
        if-Keeps (text_eqb payload (text "noop")) _ _ (ledger-ack _ [])
          (ledger-dispatch_pick _ payload n))

  pub ledger-save_draft : (d : Draft) (b : Bot) → ledger (save_draft env q d b) ≡ ledger b
  unfolding save_draft
  ledger-save_draft d b = ground arith

  pub ledger-settle_tap : (e : GoError) → Keeps (settle_tap env q e)
  unfolding settle_tap fail_tap_gracefully drop_draft call_ignored answer call_error call
  ledger-settle_tap none b = refl
  ledger-settle_tap (some e) b = refl

  ledger-tap_draft :
      (payload : Text) (d : Draft)
      → text_eqb payload (text "confirm") ≡ false
      → Keeps (tap_draft env q payload d)
  unfolding tap_draft answer call_error call
  ledger-tap_draft payload d n =
      if-Keeps (not (eqb q.from.id d.owner_id)) _ _ (λ b. refl)
        (λ b.
          let r = dispatch_tap env q d payload b in
          ledger-settle_tap r.0.0 _
          ∙ ledger-save_draft r.0.1 r.1
          ∙ ledger-dispatch_tap d payload n b)

  pub ledger-load_or_restore_draft :
      (now : ℕ) (t : Text) → Keeps (load_or_restore_draft now (draft_key_of env q) t)
  unfolding load_or_restore_draft restore_draft
  ledger-load_or_restore_draft now t b = ground arith

  ledger-tap_restored :
      (payload : Text) (r : Option Draft)
      → text_eqb payload (text "confirm") ≡ false
      → Keeps (tap_restored env q payload r)
  unfolding tap_restored answer call_error call
  ledger-tap_restored payload none n b = refl
  ledger-tap_restored payload (some d) n b = ledger-tap_draft payload d n b

  -- A tap on any button of the picker but its confirm button leaves the ledger as it is, whoever taps,
  -- whatever the payload and the draft, and whether the calls of the messenger fail or not.
  pub browsing_keeps_ledger :
      (payload : Text) (b : Bot)
      → text_eqb payload (text "confirm") ≡ false
      → ledger (handle_match_interactive_callback env q payload b).1 ≡ ledger b
  unfolding handle_match_interactive_callback
  browsing_keeps_ledger payload b n =
      ledger-tap_restored payload _ n _ ∙ ledger-load_or_restore_draft env.now q.prompt.text b
