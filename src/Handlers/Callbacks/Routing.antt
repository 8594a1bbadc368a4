-- ===== src/Handlers/Callbacks/Routing.antt =====
-- The buttons of pkg/handlers lead to the handlers that they were made for.
use ttbot_repo_placeholder.Prelude.{ℕ, ◌≡◌, refl}
use ttbot_repo_placeholder.Text.{Text, text, strip_prefix}
use ttbot_repo_placeholder.Messages.{CallbackQuery}
use ttbot_repo_placeholder.Bot.{Env}
use ttbot_repo_placeholder.Interactive.Picker.{mi}
use ttbot_repo_placeholder.Handlers.Register.{match_payload, confirm_button, cancel_match_button}
use ttbot_repo_placeholder.Handlers.Confirm.{handle_confirm_tap, handle_cancel_tap}
use ttbot_repo_placeholder.Handlers.Taps.Callback.{handle_match_interactive_callback}
use ttbot_repo_placeholder.Handlers.Callbacks.{dispatch_rest, dispatch_data}

module _ (env : Env) (q : CallbackQuery) where
  -- A tap with the payload of a match's Confirm button is the confirmation of that match, one with the
  -- payload of its Cancel button is its cancellation, and one with a payload of the picker is a tap on
  -- the picker, each with the rest of the payload.
  pub buttons_reach_handlers :
      (gid mid : ℕ) (s : Text)
      → (dispatch_data env q (confirm_button gid mid).callback
          ≡ handle_confirm_tap env q (match_payload gid mid))
        × (dispatch_data env q (cancel_match_button gid mid).callback
            ≡ handle_cancel_tap env q (match_payload gid mid))
        × (dispatch_data env q (mi s) ≡ handle_match_interactive_callback env q s)
  unfolding confirm_button cancel_match_button mi dispatch_data dispatch_rest text strip_prefix
  buttons_reach_handlers gid mid s = (refl, refl, refl)
