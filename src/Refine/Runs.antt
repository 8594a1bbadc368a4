-- ===== src/Refine/Runs.antt =====
-- Runs of the bot: any updates, runs of the periodic job and detached refreshes, in any order, each with
-- its own answers from outside. A handler runs to its end before the next starts.
use ttbot_repo_placeholder.Prelude.{ℕ, inl, refl, ◌≡◌, true, List, [], ◌∷◌, length, arith}
use ttbot_repo_placeholder.GoMap
use ttbot_repo_placeholder.Models.{Group, Match}
use ttbot_repo_placeholder.Store.{MatchKey, match_key}
use ttbot_repo_placeholder.Messages.{Update}
use ttbot_repo_placeholder.Bot.{Env, Bot}
use ttbot_repo_placeholder.Ratings.{Floats, Engine}
use ttbot_repo_placeholder.Handlers.Accounts.{Logins}
use ttbot_repo_placeholder.Handlers.Rankings.StatsTopic.{refresh_stats_topic}
use ttbot_repo_placeholder.Handlers.Dispatch.{dispatch}
use ttbot_repo_placeholder.Handlers.Cron.{periodic_job}
use ttbot_repo_placeholder.Ledger.{ledger}
use ttbot_repo_placeholder.Ledger.Fresh.{CountedIds}
use ttbot_repo_placeholder.Ledger.Steps.{Cause, timer, nobody, Steps, weaken}
use ttbot_repo_placeholder.Ledger.Steps.Legal.{HasLegalRows, Steps-HasLegalRows}
use ttbot_repo_placeholder.Ledger.Steps.Settled.{HasRoom, is_settled, Steps-Kept}
use ttbot_repo_placeholder.Ledger.Steps.WellFormed.{WellFormed, Steps-WellFormed}
use ttbot_repo_placeholder.Refine.{cause}
use ttbot_repo_placeholder.Refine.StatsTopic.{refresh-Refines}
use ttbot_repo_placeholder.Refine.Updates.{sender_of, dispatch-Steps, periodic_job-Steps}

pub data Event : Type 0 where
  updated : Env → Update → Event
  ticked : Env → Event
  refreshed : Env → Group → Event

-- What the steps of an event depend on.
abbrev pub event_cause : Event → Cause
event_cause (Event.updated env u) = cause env (sender_of u)
event_cause (Event.ticked env) = cause env timer
event_cause (Event.refreshed env g) = cause env nobody

module _ {F : Type 0} (fl : Floats F) (logins : Logins) (new_glicko2 : ℕ → Engine F)
    (default : ℕ) where
  unfoldable pub run_event : Event → Bot → Bot
  run_event (Event.updated env u) b = (dispatch fl env logins new_glicko2 default u b).1
  run_event (Event.ticked env) b = (periodic_job env logins b).1
  run_event (Event.refreshed env g) b = (refresh_stats_topic fl env new_glicko2 default g b).1

  unfoldable pub run : List Event → Bot → Bot
  run [] b = b
  run (e ∷ es) b = run es (run_event e b)

  -- One event is at most one registration.
  run_event-Steps :
      (e : Event) (b : Bot)
      → WellFormed (ledger b)
      → Steps (event_cause e) 1 (ledger b) (ledger (run_event e b))
  unfolding run_event
  run_event-Steps (Event.updated env u) b w = dispatch-Steps fl env logins new_glicko2 default u b w
  run_event-Steps (Event.ticked env) b w =
      weaken (cause env timer) 1 (periodic_job-Steps env logins b w)
  run_event-Steps (Event.refreshed env g) b w =
      weaken (cause env nobody) 1
        (refresh-Refines fl env nobody new_glicko2 default g (inl refl) b w)

  run_event-WellFormed :
      (e : Event) (b : Bot) → WellFormed (ledger b) → WellFormed (ledger (run_event e b))
  run_event-WellFormed e b w = Steps-WellFormed (event_cause e) (run_event-Steps e b w) w

  -- A run that starts from tables in order, in which every match has two different players and two
  -- different scores, ends so: each match, confirmation, undo request and group stands under the key of
  -- its own fields, once, and each match has two different players and a winner. The run may have any
  -- updates, runs of the periodic job and refreshes of the stats topic, in any order, and any answers
  -- from outside.
  pub run-WellFormed :
      (es : List Event) (b : Bot)
      → WellFormed (ledger b)
      → HasLegalRows (ledger b)
      → WellFormed (ledger (run es b)) × HasLegalRows (ledger (run es b))
  unfolding run
  run-WellFormed [] b w h = (w, h)
  run-WellFormed (e ∷ es) b w h =
      run-WellFormed es (run_event e b) (run_event-WellFormed e b w)
        (Steps-HasLegalRows (event_cause e) (run_event-Steps e b w) h)

  -- A match that is approved or undone is never lost and never becomes pending again: after any run it
  -- is there, approved or undone, with the same players and scores. This holds where the tables are in
  -- order, no row's id is above its group's counter, and each counter stays below 2^64 even if every
  -- event of the run registers a match.
  pub run-is_settled :
      (es : List Event) (b : Bot) (k : MatchKey) (row : Match)
      → WellFormed (ledger b)
      → CountedIds (ledger b)
      → HasRoom (length es) (ledger b)
      → is_settled row (GoMap.get k b.store.matches) ≡ true
      → is_settled row (GoMap.get k (run es b).store.matches) ≡ true
  unfolding run
  run-is_settled [] b k row w ids room h = h
  run-is_settled (e ∷ es) b k row w ids room h =
      let kept =
        Steps-Kept (event_cause e) (length es) k row (run_event-Steps e b w) w
          (λ gid. omega (arith, room gid)) ids h in
      run-is_settled es (run_event e b) k row (run_event-WellFormed e b w) kept.counted kept.room
        kept.settled
