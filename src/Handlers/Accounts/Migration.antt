-- ===== src/Handlers/Accounts/Migration.antt =====
-- MigrateAdminsToS21Accounts of pkg/handlers/migrate.go: what the accounts are after the migration.
use ttbot_repo_placeholder.Prelude.{
  ℕ, ◌≡◌, refl, sym, subst, ◌∙◌, true, Option, none, some, List, [], ◌∷◌, eqb, if◌then◌else◌, any,
  All, arith,
}
use ttbot_repo_placeholder.GoMap
use ttbot_repo_placeholder.GoMap.{GoMap, nat_eq, get-put}
use ttbot_repo_placeholder.Sort.{All-sort_slice, any-sort_slice}
use ttbot_repo_placeholder.Models.{Admin}
use ttbot_repo_placeholder.Store.{Store, S21Account}
use ttbot_repo_placeholder.Store.Keyed.{is_some}
use ttbot_repo_placeholder.Store.Accounts.{get_account, upsert_account, list_admins, lt_int64}
use ttbot_repo_placeholder.Ledger.Steps.Tables.{Linked}
use ttbot_repo_placeholder.Handlers.Accounts.{migrated, migrate_admin, migrate_each, migrate_admins}

abbrev pub admin_key : Admin → ℕ
admin_key a = a.telegram_id

-- The account of a user: the one that is there, or else that of the admin's row.
abbrev pub account_after : Option S21Account → Option Admin → Option S21Account
account_after (some a) _ = some a
account_after none none = none
account_after none (some a) = some (migrated a)

module _ (admins : GoMap ℕ Admin) (tid : ℕ) where
  IsRow : Admin → Type 0
  IsRow a = GoMap.get a.telegram_id admins ≡ some a

  migrate_each_lem :
      (legacy : List Admin) (s : Store)
      → All IsRow legacy
      → GoMap.get tid (migrate_each legacy s).s21_accounts
        ≡ account_after
            (GoMap.get tid s.s21_accounts)
            (if any (λ a. eqb a.telegram_id tid) legacy then GoMap.get tid admins else none)
  unfolding migrate_each migrate_admin get_account upsert_account any IsRow migrated
  migrate_each_lem [] s h = ground arith
  migrate_each_lem (a ∷ legacy) s h = ground (
    arith,
    migrate_each_lem legacy (migrate_admin a s) h.1,
    get-put a.telegram_id tid (migrated a) s.s21_accounts,
    h.0,
  )

  rows-IsRow :
      (rows : GoMap ℕ Admin)
      → Linked admin_key admins rows
      → All IsRow (GoMap.values_where (λ k. true) rows)
  unfolding GoMap.values_where IsRow
  rows-IsRow [] h = tt
  rows-IsRow ((k, a) ∷ rows) h =
      (subst (λ j. GoMap.get j admins ≡ some a) h.0.0 h.0.1, rows-IsRow rows h.1)

  any-rows :
      (rows : GoMap ℕ Admin)
      → Linked admin_key admins rows
      → any (λ a. eqb a.telegram_id tid) (GoMap.values_where (λ k. true) rows)
        ≡ is_some (GoMap.get tid rows)
  unfolding GoMap.values_where GoMap.get any
  any-rows [] h = refl
  any-rows ((k, a) ∷ rows) h = ground (arith, any-rows rows h.1, h.0)

migrate_each-admins : (legacy : List Admin) (s : Store) → (migrate_each legacy s).admins ≡ s.admins
unfolding migrate_each migrate_admin get_account upsert_account
migrate_each-admins [] s = refl
migrate_each-admins (a ∷ legacy) s = ground (arith, migrate_each-admins legacy (migrate_admin a s))

migrated_account :
    (s : Store) (tid : ℕ)
    → Linked admin_key s.admins s.admins
    → GoMap.get tid (migrate_admins s).s21_accounts
      ≡ account_after (GoMap.get tid s.s21_accounts) (GoMap.get tid s.admins)
unfolding migrate_admins list_admins
migrated_account s tid h =
    let rows = GoMap.values_where (λ k. true) s.admins in
    let less = λ (a b : Admin). lt_int64 a.telegram_id b.telegram_id in
    let each =
      migrate_each_lem s.admins tid (list_admins s) s
        (All-sort_slice less (IsRow s.admins tid) rows (rows-IsRow s.admins tid s.admins h)) in
    let listed =
      any-sort_slice less (λ a. eqb a.telegram_id tid) rows ∙ any-rows s.admins tid s.admins h in
    ground (arith, each, listed)

-- Where each admin stands under their own id, once: after the migration a user who had an account has the
-- same one, an admin without one has the one that their row gives, and nobody else has got one. A second
-- migration changes no user's account.
pub migrate_admins_lem :
    (s : Store) (tid : ℕ)
    → Linked admin_key s.admins s.admins
    → (GoMap.get tid (migrate_admins s).s21_accounts
        ≡ account_after (GoMap.get tid s.s21_accounts) (GoMap.get tid s.admins))
      × (GoMap.get tid (migrate_admins (migrate_admins s)).s21_accounts
          ≡ GoMap.get tid (migrate_admins s).s21_accounts)
unfolding migrate_admins
migrate_admins_lem s tid h =
    let same = migrate_each-admins (list_admins s) s in
    let once = migrated_account s tid h in
    let twice =
      migrated_account (migrate_admins s) tid
        (subst (λ rows. Linked admin_key rows rows) (sym same) h) in
    (once, ground (arith, once, twice, same))
