-- ===== src/Store/Tables.antt =====
-- pkg/store/memstore/memstore.go: the state of the in-memory store, with the keys
-- of its maps, and the rows of s21_accounts.
use ttbot_repo_placeholder.Prelude.{ℕ, ◌≡◌, ◌↔◌, ◌&&◌, Option, [], arith, eqb, Bool, true}
use ttbot_repo_placeholder.GoMap.{Key, GoMap}
use ttbot_repo_placeholder.Text.{Text}
use ttbot_repo_placeholder.Models.{
  Participant, Admin, Group, Match, MatchConfirmation, UndoCommand, BotSetting, S21NickCacheEntry,
}

-- The fields of s21account.S21Account, as pkg/store/ydbstore/ydbstore.go reads them all.
pub record S21Account : Type 0 where
  pub telegram_id : ℕ
  pub s21_login : Text
  pub s21_creds_encrypted : Text
  pub campus_id : Text
  pub campus_name : Text
  pub created_at : ℕ
  pub updated_at : ℕ
  pub last_used_at : Option ℕ
  pub s21_creds_failed_at : Option ℕ
  pub s21_creds_last_warned_at : Option ℕ

pub record ParticipantKey : Type 0 where
  pub group : ℕ
  pub user : ℕ

pub record MatchKey : Type 0 where
  pub group : ℕ
  pub match_id : ℕ

-- `confirmKey` and `undoKey`, which have the same fields.
pub record VoteKey : Type 0 where
  pub group : ℕ
  pub match_id : ℕ
  pub user : ℕ

abbrev pub participant_key_eqb : ParticipantKey → ParticipantKey → Bool
participant_key_eqb a b = eqb a.group b.group && eqb a.user b.user

abbrev pub match_key_eqb : MatchKey → MatchKey → Bool
match_key_eqb a b = eqb a.group b.group && eqb a.match_id b.match_id

abbrev pub vote_key_eqb : VoteKey → VoteKey → Bool
vote_key_eqb a b = eqb a.group b.group && eqb a.match_id b.match_id && eqb a.user b.user

pub participant_key_eqb_iff : (a b : ParticipantKey) → (participant_key_eqb a b ≡ true) ↔ (a ≡ b)
participant_key_eqb_iff a b = ground arith

pub match_key_eqb_iff : (a b : MatchKey) → (match_key_eqb a b ≡ true) ↔ (a ≡ b)
match_key_eqb_iff a b = ground arith

pub vote_key_eqb_iff : (a b : VoteKey) → (vote_key_eqb a b ≡ true) ↔ (a ≡ b)
vote_key_eqb_iff a b = ground arith

instance abbrev pub participant_key : Key ParticipantKey
participant_key = record { same = participant_key_eqb; same_iff = participant_key_eqb_iff }

instance abbrev pub match_key : Key MatchKey
match_key = record { same = match_key_eqb; same_iff = match_key_eqb_iff }

instance abbrev pub vote_key : Key VoteKey
vote_key = record { same = vote_key_eqb; same_iff = vote_key_eqb_iff }

pub record Store : Type 0 where
  pub participants : GoMap ParticipantKey Participant
  pub admins : GoMap ℕ Admin
  pub s21_accounts : GoMap ℕ S21Account
  pub groups : GoMap ℕ Group
  pub matches : GoMap MatchKey Match
  pub confirmations : GoMap VoteKey MatchConfirmation
  pub undos : GoMap VoteKey UndoCommand
  pub settings : GoMap Text BotSetting
  pub match_counters : GoMap ℕ ℕ
  pub nick_cache : GoMap ℕ S21NickCacheEntry

-- New
unfoldable pub new_store : Store
new_store = record {
  participants = [];
  admins = [];
  s21_accounts = [];
  groups = [];
  matches = [];
  confirmations = [];
  undos = [];
  settings = [];
  match_counters = [];
  nick_cache = [];
}
