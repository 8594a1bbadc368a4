-- ===== src/Tests/Data.antt =====
-- The data of the tests: a bot with one group, two players and three matches.
use ttbot_repo_placeholder.Prelude.{
  ℕ, Bool, true, false, none, some, [], ◌∷◌, ◌+◌, ◌-◌, ◌*◌, ◌/◌, ◌^◌, ltb, eqb, length,
  if◌then◌else◌,
}
use ttbot_repo_placeholder.Text.{text}
use ttbot_repo_placeholder.Text.Decimal.{format_uint}
use ttbot_repo_placeholder.Ratings.{Floats, Engine}
use ttbot_repo_placeholder.Ratings.Elo.{new_elo}
use ttbot_repo_placeholder.Handlers.Accounts.{Logins, AuthAnswer, StoreAnswer}
use ttbot_repo_placeholder.Models.{Group, Match, MatchStatus, hour}
use ttbot_repo_placeholder.Store.{Store}
use ttbot_repo_placeholder.NickCache.{NickCache, User}
use ttbot_repo_placeholder.Messages.{ChatUser, Message, CallbackQuery}
use ttbot_repo_placeholder.Bot.{Env, Bot, Draft, ok, Answer}

abbrev pub today : ℕ
today = 1000 * hour

-- Nobody is an admin of the chat but user 9.
abbrev pub is_nine : ℕ → Bool
is_nine id = eqb id 9

abbrev pub env : Env
env = record {
  now = today;
  wall_now = today;
  deliver = λ sent c. ok 55;
  chat_admin = λ chat user. ok (is_nine user);
  member_username = λ chat user. ok [];
  identity_configured = false;
  error_string = λ e. [];
  user_by_telegram = λ accounts tid. (Answer.unknown, accounts);
  users_by_nickname = λ accounts nick. (Answer.unknown, accounts);
}

abbrev pub group : Group
group = record {
  group_id = 100;
  campus_id = [];
  campus_name = [];
  admin_telegram_id = 9;
  matches_topic_id = 1;
  stats_topic_id = 2;
  rankings_message_id = 0;
  stats_message_id = 0;
  rankings_elo_message_id = 0;
  rankings_glicko_message_id = 0;
  stats_elo_message_id = 0;
  stats_glicko_message_id = 0;
  confirmation_timeout_hours = 24;
  created_at = 1;
}

-- A match between users 7 and 8, registered by 7.
abbrev pub row : ℕ → MatchStatus → ℕ → Match
row mid status created = record {
  group_id = 100;
  match_id = mid;
  player1_id = 7;
  player2_id = 8;
  player1_score = 3;
  player2_score = 1;
  registered_by = 7;
  status = status;
  played_at = created;
  created_at = created;
}

abbrev pub pending_row : Match
pending_row = row 3 MatchStatus.pending (999 * hour)

abbrev pub approved_row : Match
approved_row = row 2 MatchStatus.approved (998 * hour)

abbrev pub old_row : Match
old_row = row 1 MatchStatus.pending hour

-- User 7 has confirmed the pending match.
abbrev pub store : Store
store = record {
  participants = [];
  admins = [];
  s21_accounts = [];
  groups = (100, group) ∷ [];
  matches =
      (record { group = 100; match_id = 3 }, pending_row)
      ∷ (record { group = 100; match_id = 2 }, approved_row)
      ∷ (record { group = 100; match_id = 1 }, old_row)
      ∷ [];
  confirmations =
      (
        record { group = 100; match_id = 3; user = 7 },
        record { group_id = 100; match_id = 3; telegram_id = 7; confirmed_at = 999 * hour },
      )
      ∷ [];
  undos = [];
  settings = [];
  match_counters = (100, 3) ∷ [];
  nick_cache = [];
}

abbrev pub user : ℕ → ChatUser
user id = record { id = id; is_bot = false; username = text "ada" }

-- The picker of user 7, with the scores 3 and 1 against user 8.
abbrev pub draft : Draft
draft = record {
  owner_id = 7;
  owner_label = [];
  is_score = true;
  page = 1;
  opp_id = 8;
  opp_label = [];
  p1 = some 3;
  p2 = some 1;
  touched_at = today;
}

abbrev pub cache : NickCache
cache = record { ttl = 10; max_entries = 1; entries = []; lru = []; next_handle = 0 }

abbrev pub bot : Bot
bot = record {
  store = store;
  nicks = cache;
  drafts = (record { chat = 100; message_id = 55 }, draft) ∷ [];
  sent = [];
  refreshes = [];
}

abbrev pub tap_by : ℕ → CallbackQuery
tap_by id = record {
  id = [];
  from = user id;
  prompt = record { chat_id = 100; message_id = 55; text = [] };
  payload = [];
}

-- A message of user 7 in the matches topic.
abbrev pub message : Message
message = record {
  message_id = 56;
  chat = record { id = 100; kind = text "supergroup"; is_forum = true };
  from = user 7;
  text = [];
  thread_id = 1;
  reply_to = none;
  forward_from = none;
  forward_sender_name = [];
}

abbrev pub named : ℕ → User
named id = record {
  telegram_id = id;
  nickname = text "ann";
  campus_id = [];
  campus_name = [];
  coalition_name = [];
  found = true;
}

-- The identity service knows "ann" as user 7, and any other nickname as user 8's.
abbrev pub online : Env
online = record env {
  identity_configured = true;
  users_by_nickname =
      λ accounts nick. (Answer.known (named (if eqb (length nick) 3 then 7 else 8) ∷ []), accounts);
}

-- Numbers in place of floats.
abbrev pub floats : Floats ℕ
floats = record {
  add = ◌+◌;
  sub = ◌-◌;
  mul = ◌*◌;
  div = ◌/◌;
  pow = ◌^◌;
  sqrt = λ x. x;
  exp = λ x. x + 1;
  log = λ x. x - 1;
  abs = λ x. x;
  lt = ltb;
  eq = eqb;
  neg = λ x. 0;
  pi_squared = 10;
  of_nat = λ n. n;
  ratio = λ n d. n / d;
  rounded = format_uint;
}

abbrev pub engine : ℕ → Engine ℕ
engine days = new_elo floats

-- No login is known.
abbrev pub logins : Logins
logins = record {
  authenticate = λ login password. AuthAnswer.invalid_credentials;
  decrypt = λ cipher. none;
  validate_and_store = λ client accounts tid login password now. (StoreAnswer.rejected, accounts);
  render_whoami = λ account others. [];
  apply_auth_result = λ account answer now. record {
    logout = false;
    logout_dm = [];
    persist_update = false;
    updated_account = account;
    warning_dm = [];
  };
}
