-- ===== src/Ledger/Buttons.antt =====
-- The two buttons under a pending match: from the payload that the bot puts on them, through
-- dispatchCallback of pkg/handlers/match.go, to the ledger.
use ttbot_repo_placeholder.Prelude.{ℕ, ◌≡◌, ◌<◌, ◌^◌, true, [], sym, subst}
use ttbot_repo_placeholder.Text.{Text}
use ttbot_repo_placeholder.Models.{Match, MatchStatus}
use ttbot_repo_placeholder.Store.Matches.{found, get_match}
use ttbot_repo_placeholder.Messages.{CallbackQuery}
use ttbot_repo_placeholder.Bot.{Env, Bot, Act, GoError}
use ttbot_repo_placeholder.Handlers.Register.{confirm_button, cancel_match_button}
use ttbot_repo_placeholder.Handlers.Confirm.{may_decide}
use ttbot_repo_placeholder.Handlers.Callbacks.{dispatch_callback}
use ttbot_repo_placeholder.Handlers.Callbacks.Routing.{buttons_reach_handlers}
use ttbot_repo_placeholder.Ledger.{ledger}
use ttbot_repo_placeholder.Ledger.Confirm.{KeyedConfirmations, TapEffect, confirm-TapEffect}
use ttbot_repo_placeholder.Ledger.Cancel.{Gone, cancel_tap_effect}

-- A tap on a button by the sender of `q`.
abbrev pub tapped : CallbackQuery → Text → CallbackQuery
tapped q payload = record q { payload = payload }

-- The two buttons that an announced match carries, tapped by one of its players or an admin of the chat
-- while it is pending, its ids in range: the first records the vote and approves the match exactly when
-- an admin taps or both players have confirmed, and the second takes the match and its votes away;
-- neither changes anything else in the ledger.
pub tapped_buttons_effect :
    (env : Env) (q : CallbackQuery) (gid mid : ℕ) (m : Match) (b : Bot)
    → gid < 2 ^ 64
    → mid < 2 ^ 64
    → get_match gid mid b.store ≡ found m
    → m.status ≡ MatchStatus.pending
    → may_decide env gid q.from.id m ≡ true
    → KeyedConfirmations env q b.store
    → TapEffect env
        (tapped q (confirm_button gid mid).callback)
        gid
        mid
        m
        b.store
        (ledger (dispatch_callback env (tapped q (confirm_button gid mid).callback) b).1)
      × Gone gid mid b.store
          (ledger (dispatch_callback env (tapped q (cancel_match_button gid mid).callback) b).1)
unfolding dispatch_callback
tapped_buttons_effect env q gid mid m b hg hm h p d keyed =
    let confirm = tapped q (confirm_button gid mid).callback in
    let cancel = tapped q (cancel_match_button gid mid).callback in
    (
      subst (λ (step : Act GoError). TapEffect env confirm gid mid m b.store (ledger (step b).1))
          (sym (buttons_reach_handlers env confirm gid mid []).0)
          (confirm-TapEffect env confirm gid mid m b hg hm h p d keyed),
      subst (λ (step : Act GoError). Gone gid mid b.store (ledger (step b).1))
          (sym (buttons_reach_handlers env cancel gid mid []).1)
          (cancel_tap_effect env cancel gid mid m b hg hm h p d),
    )
