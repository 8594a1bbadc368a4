-- ===== src/Handlers/Taps/Callback.antt =====
-- handleMatchInteractiveCallback, dispatchTap and failTapGracefully of
-- pkg/handlers/match_interactive.go. A callback here has a message, since it is a tap on a button.
use ttbot_repo_placeholder.Prelude.{not, Option, none, some, [], ◌++◌, eqb, if◌then◌else◌}
use ttbot_repo_placeholder.GoMap
use ttbot_repo_placeholder.Text.{Text, text, text_eqb, strip_prefix}
use ttbot_repo_placeholder.Messages.{CallbackQuery}
use ttbot_repo_placeholder.Bot.{
  Env, Act, Bot, Draft, Error, GoError, error_text, edit_grid, ◌>>=◌, ◌>>◌, return,
}
use ttbot_repo_placeholder.Interactive.Drafts.{draft_key, drop_draft, load_or_restore_draft}
use ttbot_repo_placeholder.Handlers.Replies.{call_ignored, answer}
use ttbot_repo_placeholder.Handlers.Taps.Dispatch.{
  truncate, draft_key_of, ack, tap_cancel, tap_nav, tap_opp, tap_back, tap_score, tap_confirm,
}

module _ (env : Env) (q : CallbackQuery) where
  -- The switch of dispatchTap behind "back".
  unfoldable pub dispatch_score : Draft → Text → Act (GoError × Draft)
  dispatch_score d payload = elim (strip_prefix (text "s:") payload) [
    | some arg ↦ tap_score env q d arg
    | none ↦ if text_eqb payload (text "confirm") then tap_confirm env q d else ack env q d []
  ]

  -- The switch of dispatchTap from "nav:" on.
  unfoldable pub dispatch_pick : Draft → Text → Act (GoError × Draft)
  dispatch_pick d payload = elim (strip_prefix (text "nav:") payload) [
    | some arg ↦ tap_nav env q d arg
    | none ↦ elim (strip_prefix (text "opp:") payload) [
      | some arg ↦ tap_opp env q d arg
      | none ↦ if text_eqb payload (text "back") then tap_back env q d else dispatch_score d payload
    ]
  ]

  -- dispatchTap
  unfoldable pub dispatch_tap : Draft → Text → Act (GoError × Draft)
  dispatch_tap d payload =
      let d' = record d { touched_at = env.now } in
      if text_eqb payload (text "cancel")
      then tap_cancel env q d'
      else if text_eqb payload (text "noop")
      then ack env q d' []
      else dispatch_pick d' payload

  -- The draft's changes, where the map still holds it.
  unfoldable pub save_draft : Draft → Bot → Bot
  save_draft d b = elim (GoMap.get (draft_key_of env q) b.drafts) [
    | none ↦ b
    | some _ ↦ record b { drafts = GoMap.put (draft_key_of env q) d b.drafts }
  ]

  -- failTapGracefully
  unfoldable pub fail_tap_gracefully : Error → Act (Unit {0})
  fail_tap_gracefully cause = do
    drop_draft (draft_key_of env q)
    call_ignored env (
        edit_grid q.prompt.chat_id q.prompt.message_id
          (text "/match — failed.\nError: "
            ++ (truncate (error_text env cause) 300 ++ text "\n\nRun /match again to retry."))
          [])
    answer env q (text "Error: " ++ truncate (error_text env cause) 150)
    return tt

  -- The end of handleMatchInteractiveCallback; it always returns nil.
  unfoldable pub settle_tap : GoError → Act GoError
  settle_tap none = return none
  settle_tap (some e) = do fail_tap_gracefully e; return none

  -- handleMatchInteractiveCallback on a draft that is there.
  unfoldable pub tap_draft : Text → Draft → Act GoError
  tap_draft payload d =
      if not (eqb q.from.id d.owner_id)
      then answer env q (text "Only the person who ran /match can use these buttons.")
      else (λ b. let r = dispatch_tap d payload b in settle_tap r.0.0 (save_draft r.0.1 r.1))

  -- handleMatchInteractiveCallback from the draft on.
  unfoldable pub tap_restored : Text → Option Draft → Act GoError
  tap_restored payload none = answer env q []
  tap_restored payload (some d) = tap_draft payload d

  -- handleMatchInteractiveCallback
  unfoldable pub handle_match_interactive_callback : Text → Act GoError
  handle_match_interactive_callback payload = do
    r ← load_or_restore_draft env.now (draft_key_of env q) q.prompt.text
    tap_restored payload r
