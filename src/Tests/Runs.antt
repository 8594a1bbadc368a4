-- ===== src/Tests/Runs.antt =====
-- The theorems on updates and runs, on the bot of the tests. The ledger depends neither on the floats nor
-- on the logins.
use ttbot_repo_placeholder.Prelude.{◌≡◌, refl, true, none, some, [], ◌∷◌, List, arith}
use ttbot_repo_placeholder.GoMap
use ttbot_repo_placeholder.Text.{text}
use ttbot_repo_placeholder.Models.{MatchStatus, is_status}
use ttbot_repo_placeholder.Store.{match_key}
use ttbot_repo_placeholder.Store.Matches.{found, get_match}
use ttbot_repo_placeholder.Messages.{Update}
use ttbot_repo_placeholder.Bot.{Bot}
use ttbot_repo_placeholder.Handlers.Confirm.{handle_confirm_tap}
use ttbot_repo_placeholder.Handlers.Register.{match_payload, confirm_button}
use ttbot_repo_placeholder.Handlers.Cron.{periodic_job}
use ttbot_repo_placeholder.Ledger.{ledger}
use ttbot_repo_placeholder.Ledger.Fresh.{CountedIds}
use ttbot_repo_placeholder.Ledger.Steps.{Steps, timer}
use ttbot_repo_placeholder.Ledger.Steps.Legal.{HasLegalRows}
use ttbot_repo_placeholder.Ledger.Steps.Settled.{HasRoom, is_settled}
use ttbot_repo_placeholder.Ledger.Steps.WellFormed.{WellFormed}
use ttbot_repo_placeholder.Refine.{cause}
use ttbot_repo_placeholder.Refine.Updates.{periodic_job-Steps}
use ttbot_repo_placeholder.Refine.Runs.{Event, run, run-WellFormed, run-is_settled}
use ttbot_repo_placeholder.Refine.Agreement.{both_taps_approve}
use ttbot_repo_placeholder.Tests.Data.{
  floats, engine, logins, env, store, bot, user, tap_by, message, pending_row, approved_row,
}

-- User 8 confirms match 3, which user 7 has confirmed.
abbrev confirms : Update
confirms = record {
  message = none;
  callback_query = some (some (record (tap_by 8) { payload = (confirm_button 100 3).callback }));
  my_chat_member = none;
  chat_member = none;
}

-- User 9, an admin, undoes match 2.
abbrev undoes : Update
undoes = record {
  message = some (some (record message { from = user 9; text = text "/undo #2" }));
  callback_query = none;
  my_chat_member = none;
  chat_member = none;
}

tables-WellFormed : WellFormed (ledger bot)
unfolding GoMap.get
tables-WellFormed = record {
  rows = ((refl, refl), ((refl, refl), ((refl, refl), tt)));
  votes = ((refl, refl), tt);
  requests = tt;
  groups = ((refl, refl), tt);
}

rows-HasLegalRows : HasLegalRows (ledger bot)
unfolding GoMap.get
rows-HasLegalRows k = ground arith

rows-CountedIds : CountedIds (ledger bot)
unfolding GoMap.get
rows-CountedIds k = ground arith

counters-HasRoom : HasRoom 3 (ledger bot)
unfolding GoMap.get
counters-HasRoom gid = ground arith

periodic_job-Steps_example :
    Steps (cause env timer) 0 (ledger bot) (ledger (periodic_job env logins bot).1)
periodic_job-Steps_example = periodic_job-Steps env logins bot tables-WellFormed

-- The clean-up, the confirmation of match 3, and the undo of match 2.
abbrev day : List Event
day = Event.ticked env ∷ Event.updated env confirms ∷ Event.updated env undoes ∷ []

run-WellFormed_example :
    WellFormed (ledger (run floats logins engine 7 day bot))
    × HasLegalRows (ledger (run floats logins engine 7 day bot))
run-WellFormed_example =
    run-WellFormed floats logins engine 7 day bot tables-WellFormed rows-HasLegalRows

run-is_settled_example :
    is_settled approved_row (
      GoMap.get
        (record { group = 100; match_id = 2 })
        (run floats logins engine 7 day bot).store.matches)
    ≡ true
unfolding GoMap.get is_status
run-is_settled_example =
    run-is_settled floats logins engine 7 day bot (record { group = 100; match_id = 2 })
      approved_row tables-WellFormed rows-CountedIds counters-HasRoom refl

-- Match 3 before anybody has confirmed it.
abbrev fresh : Bot
fresh = record bot { store = record store { confirmations = [] } }

fresh-WellFormed : WellFormed (ledger fresh)
unfolding GoMap.get
fresh-WellFormed = record {
  rows = ((refl, refl), ((refl, refl), ((refl, refl), tt)));
  votes = tt;
  requests = tt;
  groups = ((refl, refl), tt);
}

both_taps_approve_example :
    let b1 = (handle_confirm_tap env (tap_by 7) (match_payload 100 3) fresh).1 in
    let b2 = (handle_confirm_tap env (tap_by 8) (match_payload 100 3) b1).1 in
    get_match 100 3 b2.store ≡ found (record pending_row { status = MatchStatus.approved })
unfolding GoMap.get get_match
both_taps_approve_example =
    both_taps_approve env env (tap_by 7) (tap_by 8) 100 3 pending_row fresh (ground arith)
      (ground arith) refl refl refl refl fresh-WellFormed
