-- ===== src/Store/Accounts.antt =====
-- The admin, account, setting and nickname-cache repositories of pkg/store/memstore/memstore.go.
use ttbot_repo_placeholder.Prelude.{
  ℕ, ◌+◌, ◌^◌, ◌%◌, List, [], ◌∷◌, ltb, eqb, not, true, if◌then◌else◌, Bool,
}
use ttbot_repo_placeholder.GoMap
use ttbot_repo_placeholder.GoMap.{GoMap, nat_eq}
use ttbot_repo_placeholder.Sort.{sort_slice}
use ttbot_repo_placeholder.Text.{Text, text_eqb, text_key}
use ttbot_repo_placeholder.Models.{Admin, BotSetting, S21NickCacheEntry}
use ttbot_repo_placeholder.Store.Tables.{Store, S21Account}
use ttbot_repo_placeholder.Store.Matches.{Found, found, not_found, of_option}

-- a < b for two int64 values, given by their bit patterns.
unfoldable pub lt_int64 : ℕ → ℕ → Bool
lt_int64 a b = ltb ((a + 2 ^ 63) % 2 ^ 64) ((b + 2 ^ 63) % 2 ^ 64)

-- adminRepo.Get
unfoldable pub get_admin : ℕ → Store → Found Admin
get_admin id s = of_option (GoMap.get id s.admins)

unfoldable pub first_admin_of : Text → GoMap ℕ Admin → Found Admin
first_admin_of cid [] = not_found
first_admin_of cid ((k, a) ∷ rows) =
    if text_eqb a.campus_id cid then found a else first_admin_of cid rows

-- adminRepo.GetByCampus
unfoldable pub get_admin_by_campus : Text → Store → Found Admin
get_admin_by_campus cid s = first_admin_of cid s.admins

-- adminRepo.Upsert
unfoldable pub upsert_admin : Admin → Store → Store
upsert_admin a s = record s { admins = GoMap.put a.telegram_id a s.admins }

-- adminRepo.List
unfoldable pub list_admins : Store → List Admin
list_admins s =
    sort_slice (λ a b. lt_int64 a.telegram_id b.telegram_id)
      (GoMap.values_where (λ _. true) s.admins)

-- s21AccountRepo.Get
unfoldable pub get_account : ℕ → Store → Found S21Account
get_account tid s = of_option (GoMap.get tid s.s21_accounts)

-- The `less` of s21AccountRepo.List.
unfoldable pub created_before : S21Account → S21Account → Bool
created_before a b =
    if not (eqb a.created_at b.created_at)
    then ltb a.created_at b.created_at
    else lt_int64 a.telegram_id b.telegram_id

-- s21AccountRepo.List
unfoldable pub list_accounts : Store → List S21Account
list_accounts s = sort_slice created_before (GoMap.values_where (λ _. true) s.s21_accounts)

-- s21AccountRepo.Upsert
unfoldable pub upsert_account : S21Account → Store → Store
upsert_account a s = record s { s21_accounts = GoMap.put a.telegram_id a s.s21_accounts }

-- s21AccountRepo.Delete
unfoldable pub delete_account : ℕ → Store → Store
delete_account tid s = record s { s21_accounts = GoMap.delete tid s.s21_accounts }

-- settingsRepo.Get
unfoldable pub get_setting : Text → Store → Found BotSetting
get_setting key s = of_option (GoMap.get key s.settings)

-- settingsRepo.Set; `now` is time.Now().
unfoldable pub set_setting : ℕ → Text → Text → ℕ → Store → Store
set_setting now key value by s = record s {
  settings =
      GoMap.put key (record { key = key; value = value; updated_at = now; updated_by = by })
        s.settings;
}

-- nickCacheRepo.Get
unfoldable pub get_nick : ℕ → Store → Found S21NickCacheEntry
get_nick tid s = of_option (GoMap.get tid s.nick_cache)

-- nickCacheRepo.Upsert
unfoldable pub upsert_nick : S21NickCacheEntry → Store → Store
upsert_nick e s = record s { nick_cache = GoMap.put e.telegram_id e s.nick_cache }
