-- ===== src/Tests.antt =====
-- Runs of the theorems on concrete data: a group with two players, a pending, an approved and an old
-- match.
mod Data
mod Matches
mod Runs
mod Messages
mod Ratings
mod Inputs
mod Commands
