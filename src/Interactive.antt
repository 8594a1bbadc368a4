-- ===== src/Interactive.antt =====
-- The interactive /match of pkg/handlers/match_interactive.go: the drafts in memory, the header in the
-- prompt's text that mirrors a draft, the two pickers, and the taps on their buttons.
pub mod Header
pub mod Drafts
pub mod Picker
