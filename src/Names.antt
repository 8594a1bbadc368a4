-- ===== src/Names.antt =====
-- The names under which the bot shows players: GetByTelegram and GetUsersByNickname of
-- pkg/identity/identity.go, and lookupS21Nickname, displayFor, playerLabel and renderMatch of
-- pkg/handlers/match.go. A lookup goes through the in-process cache, the durable table and the identity
-- service, and writes what it learns back to the first two.
use ttbot_repo_placeholder.Prelude.{
  ℕ, ◌-◌, ◌*◌, Bool, true, false, not, ◌&&◌, Option, none, some, [], ◌∷◌, ◌++◌, leb, ltb,
  if◌then◌else◌,
}
use ttbot_repo_placeholder.GoMap.{GoMap}
use ttbot_repo_placeholder.Text.{Text, text}
use ttbot_repo_placeholder.Text.Decimal.{format_int, format_uint}
use ttbot_repo_placeholder.Models.{Match, S21NickCacheEntry, hour}
use ttbot_repo_placeholder.Store.{S21Account}
use ttbot_repo_placeholder.Store.Matches.{found, not_found}
use ttbot_repo_placeholder.Store.Players.{get_participant}
use ttbot_repo_placeholder.Store.Accounts.{get_nick, upsert_nick}
use ttbot_repo_placeholder.NickCache
use ttbot_repo_placeholder.NickCache.{NickCache, User}
use ttbot_repo_placeholder.Bot.{Env, Bot, Act, Answer, known, unknown, failed, ◌>>=◌, return}

abbrev pub s21_nick_durable_ttl : ℕ
s21_nick_durable_ttl = 30 * 24 * hour

unfoldable pub is_empty : Text → Bool
is_empty [] = true
is_empty (c ∷ s) = false

-- `u.Nickname, u.Found && u.Nickname != ""`
unfoldable pub nickname_of : User → Text × Bool
unfolding is_empty
nickname_of u = (u.nickname, u.found && not (is_empty u.nickname))

-- The user that a row of the durable table stands for.
unfoldable pub user_of_row : ℕ → S21NickCacheEntry → User
user_of_row tid row = record {
  telegram_id = row.telegram_id;
  nickname = row.nickname;
  campus_id = row.campus_id;
  campus_name = row.campus_name;
  coalition_name = row.coalition_name;
  found = row.found;
}

-- The row that is written for a user.
unfoldable pub row_of_user : ℕ → ℕ → User → S21NickCacheEntry
row_of_user tid now u = record {
  telegram_id = tid;
  found = u.found;
  nickname = u.nickname;
  campus_id = u.campus_id;
  campus_name = u.campus_name;
  coalition_name = u.coalition_name;
  cached_at = now;
}

-- GetByTelegram on what the client answered; a fresh Service has an empty cache. `none` is an error.
unfoldable pub get_by_telegram : ℕ → Answer User → Option User
get_by_telegram tid (known u) = some (record u { found = true })
get_by_telegram tid unknown = some (record {
  telegram_id = tid;
  nickname = [];
  campus_id = [];
  campus_name = [];
  coalition_name = [];
  found = false;
})
get_by_telegram tid (failed e) = none

module _ (env : Env) where
  -- tryIdentity with GetByTelegram: the user, and the account rows that PickHealthy leaves.
  unfoldable pub fetch_user : ℕ → GoMap ℕ S21Account → Option User × GoMap ℕ S21Account
  unfolding get_by_telegram
  fetch_user tid accounts =
      if env.identity_configured
      then (let r = env.user_by_telegram accounts tid in (get_by_telegram tid r.0, r.1))
      else (none, accounts)

  -- The end of lookupS21Nickname: write the user through to both layers.
  unfoldable pub remember : ℕ → Option User → Act (Text × Bool)
  remember tid none b = (([], false), b)
  remember tid (some u) b = (
    nickname_of u,
    record b {
      nicks = NickCache.put env.now tid u b.nicks;
      store = upsert_nick (row_of_user tid env.now u) b.store;
    },
  )

  -- The identity service, behind both caches.
  unfoldable pub lookup_remote : ℕ → Act (Text × Bool)
  lookup_remote tid b =
      let r = fetch_user tid b.store.s21_accounts in
      remember tid r.0 (record b { store = record b.store { s21_accounts = r.1 } })

  -- The durable table, behind the in-process cache. An old row is left to the next write.
  unfoldable pub lookup_durable : ℕ → Act (Text × Bool)
  lookup_durable tid b = elim (get_nick tid b.store) [
    | not_found ↦ lookup_remote tid b
    | found row ↦
        if leb (env.now - row.cached_at) s21_nick_durable_ttl
        then (
          nickname_of (user_of_row tid row),
          record b { nicks = NickCache.put env.now tid (user_of_row tid row) b.nicks },
        )
        else lookup_remote tid b
  ]

  -- lookupS21Nickname
  unfoldable pub lookup_s21_nickname : ℕ → Act (Text × Bool)
  lookup_s21_nickname tid b =
      let r = NickCache.get env.now tid b.nicks in
      let b' = record b { nicks = r.1 } in
      elim r.0 [ none ↦ lookup_durable tid b' | some u ↦ (nickname_of u, b') ]

  -- hasNickname
  unfoldable pub has_nickname : ℕ → Act Bool
  has_nickname tid = do r ← lookup_s21_nickname tid; return r.1

  -- The cached @username of a player, "" if there is none.
  unfoldable pub participant_username : ℕ → ℕ → Bot → Text
  participant_username gid tid b = elim (get_participant gid tid b.store) [
    | not_found ↦ []
    | found p ↦ p.telegram_username
  ]

  numbered : ℕ → Text
  numbered tid = text "Player " ++ format_int tid

  -- The texts of playerLabel, by what is known of the player.
  unfoldable pub label_of : Text → Text → ℕ → Text
  unfolding numbered
  label_of nickname username tid =
      if is_empty nickname
      then (if is_empty username then numbered tid else b'@' ∷ username)
      else if is_empty username
      then nickname
      else nickname ++ (text " (@" ++ (username ++ b')' ∷ []))

  -- playerLabel
  unfoldable pub player_label : ℕ → ℕ → Act Text
  player_label gid tid = do
    r ← lookup_s21_nickname tid
    λ b. (label_of r.0 (participant_username gid tid b) tid, b)

  -- displayFor
  unfoldable pub display_for : ℕ → ℕ → Text → Act Text
  unfolding numbered
  display_for gid tid fallback = do
    r ← lookup_s21_nickname tid
    λ b. (
      if r.1
          then r.0
          else if not (is_empty fallback)
          then b'@' ∷ fallback
          else if not (is_empty (participant_username gid tid b))
          then b'@' ∷ participant_username gid tid b
          else numbered tid,
      b,
    )

-- The scoreboard of renderMatch, with the winner on the left.
unfoldable pub scoreboard : Match → Text → Text → Text → Text
scoreboard m verb p1 p2 =
    text "Match #"
    ++ (format_uint m.match_id
        ++ (b' ' ∷ verb
            ++ (text ".\n"
                ++ (if ltb m.player1_score m.player2_score
                    then line p2 m.player2_score m.player1_score p1
                    else line p1 m.player1_score m.player2_score p2))))
  where
    line : Text → ℕ → ℕ → Text → Text
    line left left_score right_score right =
        left
        ++ (b' ' ∷ format_uint left_score
            ++ (text " — " ++ (format_uint right_score ++ b' ' ∷ right)))

-- renderMatch
unfoldable pub render_match : Env → ℕ → Match → Text → Act Text
render_match env gid m verb = do
  p1 ← player_label env gid m.player1_id
  p2 ← player_label env gid m.player2_id
  return (scoreboard m verb p1 p2)
