-- ===== src/Store.antt =====
-- pkg/store/memstore/memstore.go: the in-memory store. Each repository is a child module; an
-- operation returns what the Go method returns and the store that it leaves. Every Go method takes
-- the one mutex for its whole body, so a call is one step. The context argument is not modelled:
-- no method reads it.
mod Tables
pub mod Matches
pub mod Votes
pub mod Players
pub mod Accounts
pub mod Laws
pub mod Keyed
pub use Tables.{
  S21Account, ParticipantKey, MatchKey, VoteKey, participant_key, match_key, vote_key, Store,
  match_key_eqb, match_key_eqb_iff, vote_key_eqb, vote_key_eqb_iff, participant_key_eqb,
  participant_key_eqb_iff,
}
unfoldable pub use Tables.{new_store}
