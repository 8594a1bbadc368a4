-- ===== src/Tests/Matches.antt =====
-- The theorems on the ledger, run on the bot of the tests.
use ttbot_repo_placeholder.Prelude.{◌-◌, ◌*◌, ◌∷◌, [], ◌≡◌, refl, none, some, false, ℕ, arith}
use ttbot_repo_placeholder.GoMap
use ttbot_repo_placeholder.Text.{text, text_eqb}
use ttbot_repo_placeholder.Models.{Match, hour, is_status}
use ttbot_repo_placeholder.Store.{MatchKey, vote_key, match_key}
use ttbot_repo_placeholder.Store.Matches.{get_match, allocate_and_insert_match}
use ttbot_repo_placeholder.Bot.{Bot, is_chat_admin}
use ttbot_repo_placeholder.Handlers.Register.{
  match_payload, new_match, confirm_button, cancel_match_button,
}
use ttbot_repo_placeholder.Handlers.Confirm.{may_decide, handle_confirm_tap, handle_cancel_tap}
use ttbot_repo_placeholder.Handlers.Periodic.{clean_expired_matches, clean_expired_undo}
use ttbot_repo_placeholder.Ledger.UndoCleanup.{RequestsEffect, clean_expired_undo-RequestsEffect}
use ttbot_repo_placeholder.Handlers.Taps.Callback.{handle_match_interactive_callback}
use ttbot_repo_placeholder.Ledger.{ledger, ledger_of}
use ttbot_repo_placeholder.Ledger.Confirm.{TapEffect, confirm-TapEffect, confirm_tap_refused}
use ttbot_repo_placeholder.Ledger.Cancel.{Gone, cancel_tap_effect, cancel_tap_refused}
use ttbot_repo_placeholder.Ledger.Cleanup.{CleanupEffect, clean_expired_matches_effect}
use ttbot_repo_placeholder.Ledger.Register.{RegisterEffect, next_id}
use ttbot_repo_placeholder.Ledger.Taps.{browsing_keeps_ledger}
use ttbot_repo_placeholder.Ledger.TapConfirm.{confirm_registers}
use ttbot_repo_placeholder.Ledger.Fresh.{
  CountedIds, allocate_and_insert_match-fresh, allocate_and_insert_match-CountedIds,
}
use ttbot_repo_placeholder.Ledger.Buttons.{tapped, tapped_buttons_effect}
use ttbot_repo_placeholder.Handlers.Callbacks.{dispatch_callback}
use ttbot_repo_placeholder.Interactive.Drafts.{draft_key}
use ttbot_repo_placeholder.Handlers.Taps.Dispatch.{draft_key_of}
use ttbot_repo_placeholder.Handlers.Confirm.Payload.{parse_group_match_payload-match_payload}
use ttbot_repo_placeholder.Store.Players.{get_group}
use ttbot_repo_placeholder.Tests.Data.{env, store, bot, group, tap_by, pending_row, today, draft}

-- User 8 confirms the match that user 7 has confirmed.
confirm-TapEffect_example :
    TapEffect env
      (tap_by 8)
      100
      3
      pending_row
      store
      (ledger (handle_confirm_tap env (tap_by 8) (match_payload 100 3) bot).1)
unfolding get_match GoMap.get may_decide is_chat_admin
confirm-TapEffect_example =
    confirm-TapEffect env (tap_by 8) 100 3 pending_row bot (ground arith) (ground arith) refl refl
      refl (refl, tt)

-- User 6 is no player of the match.
confirm_tap_refused_example :
    ledger (handle_confirm_tap env (tap_by 6) (match_payload 100 3) bot).1 ≡ ledger bot
unfolding get_match GoMap.get may_decide is_chat_admin is_status
confirm_tap_refused_example =
    confirm_tap_refused env (tap_by 6) (match_payload 100 3) bot (λ gid mid m p h.
      ground
        (arith, p, h, parse_group_match_payload-match_payload 100 3 (ground arith) (ground arith)))

cancel_tap_effect_example :
    Gone 100 3 store (ledger (handle_cancel_tap env (tap_by 8) (match_payload 100 3) bot).1)
unfolding get_match GoMap.get may_decide is_chat_admin
cancel_tap_effect_example =
    cancel_tap_effect env (tap_by 8) 100 3 pending_row bot (ground arith) (ground arith) refl refl
      refl

cancel_tap_refused_example :
    ledger (handle_cancel_tap env (tap_by 6) (match_payload 100 3) bot).1 ≡ ledger bot
unfolding get_match GoMap.get may_decide is_chat_admin is_status
cancel_tap_refused_example =
    cancel_tap_refused env (tap_by 6) (match_payload 100 3) bot (λ gid mid m p h.
      ground
        (arith, p, h, parse_group_match_payload-match_payload 100 3 (ground arith) (ground arith)))

-- The match of the first hour has expired.
clean_expired_matches_effect_example :
    CleanupEffect today store (ledger (clean_expired_matches env bot))
unfolding GoMap.get
clean_expired_matches_effect_example =
    clean_expired_matches_effect env bot ((refl, refl), ((refl, refl), ((refl, refl), tt)))

browsing_keeps_ledger_example :
    ledger (handle_match_interactive_callback env (tap_by 7) (text "s:1:4") bot).1 ≡ ledger bot
unfolding text text_eqb
browsing_keeps_ledger_example = browsing_keeps_ledger env (tap_by 7) (text "s:1:4") bot refl

confirm_registers_example :
    RegisterEffect today
      (new_match today 100 7 8
        (record { p1 = 3; p2 = 1 })
        7
        (is_chat_admin env 100 7)
        (next_id 100 (ledger bot)))
      (is_chat_admin env 100 7)
      (ledger bot)
      (ledger (handle_match_interactive_callback env (tap_by 7) (text "confirm") bot).1)
unfolding draft_key_of GoMap.get get_group
confirm_registers_example =
    confirm_registers env (tap_by 7) draft 3 1 group bot refl refl refl refl refl refl refl refl

counted : CountedIds (ledger bot)
unfolding GoMap.get
counted k = ground arith

-- A new match of the players 7 and 8.
abbrev build : ℕ → Match
build = new_match today 100 7 8 (record { p1 = 3; p2 = 1 }) 7 false

build_lem : (n : ℕ) → (build n).group_id ≡ 100
unfolding new_match
build_lem n = refl

allocate_and_insert_match-fresh_example :
    let r = allocate_and_insert_match 100 build store in
    (GoMap.get (record { group = 100; match_id = r.0 }) store.matches ≡ none)
    × (GoMap.get (record { group = 100; match_id = r.0 }) r.1.matches
        ≡ some (record (build r.0) { match_id = r.0 }))
    × ((k : MatchKey) (m : Match)
        → GoMap.get k store.matches ≡ some m
        → GoMap.get k r.1.matches ≡ some m)
unfolding GoMap.get
allocate_and_insert_match-fresh_example =
    allocate_and_insert_match-fresh 100 build store build_lem counted (ground arith)

allocate_and_insert_match-CountedIds_example :
    CountedIds (ledger_of (allocate_and_insert_match 100 build store).1)
unfolding GoMap.get
allocate_and_insert_match-CountedIds_example =
    allocate_and_insert_match-CountedIds 100 build store build_lem counted (ground arith)

-- User 8 taps the buttons under the pending match that user 7 has confirmed.
tapped_buttons_effect_example :
    TapEffect env
      (tapped (tap_by 8) (confirm_button 100 3).callback)
      100
      3
      pending_row
      store
      (ledger (dispatch_callback env (tapped (tap_by 8) (confirm_button 100 3).callback) bot).1)
    × Gone 100 3 store (
        ledger
          (dispatch_callback env (tapped (tap_by 8) (cancel_match_button 100 3).callback) bot).1)
unfolding GoMap.get get_match may_decide
tapped_buttons_effect_example =
    tapped_buttons_effect env (tap_by 8) 100 3 pending_row bot (ground arith) (ground arith) refl
      refl refl (refl, tt)

-- User 8 asked in the first hour to undo match 2, and user 7 just now.
abbrev asked : Bot
asked = record bot {
  store = record store {
    undos =
        (
          record { group = 100; match_id = 2; user = 8 },
          record { group_id = 100; match_id = 2; telegram_id = 8; requested_at = hour },
        )
        ∷ (
          record { group = 100; match_id = 2; user = 7 },
          record { group_id = 100; match_id = 2; telegram_id = 7; requested_at = today },
        )
        ∷ [];
  };
}

clean_expired_undo-RequestsEffect_example :
    RequestsEffect (today - 24 * hour) (ledger asked) (ledger (clean_expired_undo env asked))
unfolding GoMap.get
clean_expired_undo-RequestsEffect_example =
    clean_expired_undo-RequestsEffect env asked ((refl, refl), ((refl, refl), tt))
