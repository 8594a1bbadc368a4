-- ===== src/Handlers.antt =====
-- pkg/handlers: the commands, the taps and the periodic job, as functions of the bot's state.
pub mod Replies
pub mod Register
pub mod Resolve
pub mod MatchCommand
pub mod Taps
pub mod Confirm
pub mod Undo
pub mod Periodic
pub mod Callbacks
pub mod Rankings
pub mod Group
pub mod Usernames
pub mod Backfill
pub mod Accounts
pub mod Start
pub mod Cron
pub mod Dispatch
