-- ===== src/Ledger.antt =====
-- The part of the bot's state that decides what counts as played: matches, their confirmations and undo
-- requests, the id counters and the groups. Rendering names and sending messages leave it alone.
pub mod Frame
pub mod Confirm
pub mod Cancel
pub mod Undo
pub mod Register
pub mod Fresh
pub mod Expiry
pub mod Cleanup
pub mod UndoCleanup
pub mod Taps
pub mod TapConfirm
pub mod Buttons
pub mod MatchCommand
pub mod Steps
use ttbot_repo_placeholder.Prelude.{ℕ}
use ttbot_repo_placeholder.GoMap.{GoMap}
use ttbot_repo_placeholder.Models.{Group, Match, MatchConfirmation, UndoCommand}
use ttbot_repo_placeholder.Store.{Store, MatchKey, VoteKey}
use ttbot_repo_placeholder.Bot.{Bot}

pub record Ledger : Type 0 where
  pub matches : GoMap MatchKey Match
  pub confirmations : GoMap VoteKey MatchConfirmation
  pub undos : GoMap VoteKey UndoCommand
  pub match_counters : GoMap ℕ ℕ
  pub groups : GoMap ℕ Group

abbrev pub ledger_of : Store → Ledger
ledger_of s = record {
  matches = s.matches;
  confirmations = s.confirmations;
  undos = s.undos;
  match_counters = s.match_counters;
  groups = s.groups;
}

abbrev pub ledger : Bot → Ledger
ledger b = ledger_of b.store
