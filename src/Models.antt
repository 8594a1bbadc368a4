-- ===== src/Models.antt =====
-- pkg/models/models.go and the cache row of pkg/store/store.go. An int64 id is its 64-bit pattern, a
-- number below 2^64; a time is a number of nanoseconds, and 0 is the zero time.
use ttbot_repo_placeholder.Prelude.{ℕ, ◌*◌, ◌%◌, ◌^◌, Bool, not, ◌&&◌, ltb, eqb, if◌then◌else◌}
use ttbot_repo_placeholder.Text.{Text}

pub data MatchStatus : Type 0 where
  pending approved undone : MatchStatus

unfoldable pub is_status : MatchStatus → MatchStatus → Bool
is_status MatchStatus.pending MatchStatus.pending = Bool.true
is_status MatchStatus.approved MatchStatus.approved = Bool.true
is_status MatchStatus.undone MatchStatus.undone = Bool.true
is_status _ _ = Bool.false

pub record Participant : Type 0 where
  pub group_id : ℕ
  pub telegram_id : ℕ
  pub telegram_username : Text
  pub activated_at : ℕ

pub record Admin : Type 0 where
  pub telegram_id : ℕ
  pub campus_id : Text
  pub campus_name : Text
  pub s21_login : Text
  pub s21_credentials_encrypted : Text
  pub created_at : ℕ

pub record Group : Type 0 where
  pub group_id : ℕ
  pub campus_id : Text
  pub campus_name : Text
  pub admin_telegram_id : ℕ
  pub matches_topic_id : ℕ
  pub stats_topic_id : ℕ
  pub rankings_message_id : ℕ
  pub stats_message_id : ℕ
  pub rankings_elo_message_id : ℕ
  pub rankings_glicko_message_id : ℕ
  pub stats_elo_message_id : ℕ
  pub stats_glicko_message_id : ℕ
  pub confirmation_timeout_hours : ℕ
  pub created_at : ℕ

abbrev pub hour : ℕ
hour = 3600 * 1_000_000_000

unfoldable pub fully_configured : Group → Bool
fully_configured g = not (eqb g.matches_topic_id 0) && not (eqb g.stats_topic_id 0)

-- A time.Duration, an int64 of nanoseconds: the product wraps.
unfoldable pub confirmation_timeout : Group → ℕ
confirmation_timeout g =
    if eqb g.confirmation_timeout_hours 0
    then 24 * hour
    else (g.confirmation_timeout_hours * hour) % 2 ^ 64

pub record Match : Type 0 where
  pub group_id : ℕ
  pub match_id : ℕ
  pub player1_id : ℕ
  pub player2_id : ℕ
  pub player1_score : ℕ
  pub player2_score : ℕ
  pub registered_by : ℕ
  pub status : MatchStatus
  pub played_at : ℕ
  pub created_at : ℕ

unfoldable pub winner : Match → ℕ
winner m =
    if ltb m.player2_score m.player1_score
    then m.player1_id
    else if ltb m.player1_score m.player2_score
    then m.player2_id
    else 0

unfoldable pub loser : Match → ℕ
loser m =
    if ltb m.player2_score m.player1_score
    then m.player2_id
    else if ltb m.player1_score m.player2_score
    then m.player1_id
    else 0

pub record MatchConfirmation : Type 0 where
  pub group_id : ℕ
  pub match_id : ℕ
  pub telegram_id : ℕ
  pub confirmed_at : ℕ

pub record UndoCommand : Type 0 where
  pub group_id : ℕ
  pub match_id : ℕ
  pub telegram_id : ℕ
  pub requested_at : ℕ

pub record BotSetting : Type 0 where
  pub key : Text
  pub value : Text
  pub updated_at : ℕ
  pub updated_by : ℕ

pub record S21NickCacheEntry : Type 0 where
  pub telegram_id : ℕ
  pub found : Bool
  pub nickname : Text
  pub campus_id : Text
  pub campus_name : Text
  pub coalition_name : Text
  pub cached_at : ℕ
