-- ===== src/Validation/Ids.antt =====
-- ExtractMatchID and ParseAdminCredentials of pkg/validation/validation.go.
use ttbot_repo_placeholder.Prelude.{
  ℕ, ◌^◌, ◌<◌, ◌≡◌, ◌≢◌, ◌↔◌, refl, sym, subst, ◌∙◌, ap, true, false, Option, none, some, [], ◌∷◌,
  ◌++◌, arith, eqb, All, inl, inr, Option-cases, Bool-cases,
}
use ttbot_repo_placeholder.Text.{Text, split_at}
use ttbot_repo_placeholder.Text.Decimal.{
  is_digit, format_uint, parse_uint, parse_uint-format_uint, format_uint_digits,
  format_uint_nonempty, split_at-append, split_at_inverse,
}
use ttbot_repo_placeholder.Validation.{
  digit_run, match_id_regex, extract_match_id, parse_admin_credentials,
}

-- The text does not go on with a digit.
abbrev pub EndsRun : Text → Type 0
EndsRun [] = Unit {0}
EndsRun (c ∷ s) = is_digit c ≡ false

digit_run-append :
    (ds rest : Text) → All (λ c. is_digit c ≡ true) ds → EndsRun rest → digit_run (ds ++ rest) ≡ ds
unfolding digit_run
digit_run-append [] [] h e = refl
digit_run-append [] (c ∷ s) h e = rw e
digit_run-append (d ∷ ds) rest h e = ground (arith, digit_run-append ds rest h.1 e)

match_id_here :
    (d : ℕ) (ds s : Text) → digit_run s ≡ d ∷ ds → match_id_regex (b'#' ∷ s) ≡ some (d ∷ ds)
unfolding match_id_regex
match_id_here d ds s e = ground arith

match_id_later : (c : ℕ) (s : Text) → eqb c b'#' ≡ false → match_id_regex (c ∷ s) ≡ match_id_regex s
unfolding match_id_regex
match_id_later c s e = elim_run (digit_run s) refl
  where
    elim_run : (ds : Text) → digit_run s ≡ ds → match_id_regex (c ∷ s) ≡ match_id_regex s
    elim_run [] p = rw (p, match_id_regex)
    elim_run (d ∷ ds) p = rw (p, match_id_regex) (rw e)

match_id_regex-append :
    (pre s : Text)
    → All (λ c. eqb c b'#' ≡ false) pre
    → match_id_regex (pre ++ s) ≡ match_id_regex s
match_id_regex-append [] s h = refl
match_id_regex-append (c ∷ pre) s h =
    match_id_later c (pre ++ s) h.0 ∙ match_id_regex-append pre s h.1

extract_match_id_of :
    (t : Text) {ds : Text} → match_id_regex t ≡ some ds → extract_match_id t ≡ parse_uint ds
unfolding extract_match_id
extract_match_id_of t e = ground arith

-- In any text, behind any words without a '#', an id that is printed as '#' and its decimal digits,
-- with no digit behind them, is the id that ExtractMatchID finds. Ids are below 2^64.
pub extract_match_id_printed :
    (pre rest : Text) (n : ℕ)
    → All (λ c. eqb c b'#' ≡ false) pre
    → EndsRun rest
    → n < 2 ^ 64
    → extract_match_id (pre ++ b'#' ∷ (format_uint n ++ rest)) ≡ some n
extract_match_id_printed pre rest n h e bound =
    let (d, ds, printed) = format_uint_nonempty n in
    let run = digit_run-append (format_uint n) rest (format_uint_digits n) e ∙ printed in
    let matched =
      match_id_regex-append pre (b'#' ∷ (format_uint n ++ rest)) h
      ∙ match_id_here d ds (format_uint n ++ rest) run in
    extract_match_id_of _ matched ∙ ap parse_uint (sym printed) ∙ parse_uint-format_uint n bound

pub record IsCredentials (token login password : Text) : Type 0 where
  pub joined : token ≡ login ++ b':' ∷ password
  pub first_colon : All (λ c. eqb c b':' ≡ false) login
  pub has_login : login ≢ []
  pub has_password : password ≢ []

-- No separator stands before the first one.
abbrev Before : ℕ → Option (Text × Text) → Type 0
Before sep none = Unit {0}
Before sep (some (a, b)) = All (λ c. eqb c sep ≡ false) a

split_at-Before : (sep : ℕ) (t : Text) → Before sep (split_at sep t)
unfolding split_at
split_at-Before sep [] = tt
split_at-Before sep (c ∷ t) = elim (Bool-cases (eqb c sep)) [
  | inl e ↦ ground arith
  | inr e ↦ elim (Option-cases (split_at sep t)) [
    | inl p ↦ ground arith
    | inr ((a, b), p) ↦ ground (arith, split_at-Before sep t)
  ]
]

credentials_joined :
    (login password : Text)
    → All (λ c. eqb c b':' ≡ false) login
    → login ≢ []
    → password ≢ []
    → parse_admin_credentials (login ++ b':' ∷ password) ≡ some (login, password)
unfolding parse_admin_credentials
credentials_joined [] password h l p = absurd (l refl)
credentials_joined (c ∷ s) [] h l p = absurd (p refl)
credentials_joined (c ∷ s) (d ∷ t) h l p = ground (arith, split_at-append b':' (c ∷ s) (d ∷ t) h)

credentials_parts :
    (token login password : Text)
    → parse_admin_credentials token ≡ some (login, password)
    → (split_at b':' token ≡ some (login, password)) × (login ≢ []) × (password ≢ [])
unfolding parse_admin_credentials
credentials_parts token login password h = elim (Option-cases (split_at b':' token)) [
  | inl e ↦ ground arith
  | inr (([], b), e) ↦ ground arith
  | inr ((a ∷ as', []), e) ↦ ground arith
  | inr ((a ∷ as', b ∷ bs), e) ↦ ground arith
]

-- ParseAdminCredentials splits a token into `login` and `password` exactly when the token is the two
-- with a colon between, neither is empty, and no colon stands in the login.
pub parse_admin_credentials_iff :
    (token login password : Text)
    → (parse_admin_credentials token ≡ some (login, password)) ↔ IsCredentials token login password
parse_admin_credentials_iff token login password = (
  λ h.
      let parts = credentials_parts token login password h in
      record {
        joined = split_at_inverse b':' token parts.0;
        first_colon = subst (Before b':') parts.0 (split_at-Before b':' token);
        has_login = parts.1;
        has_password = parts.2;
      },
  λ c. rw (c.joined) (credentials_joined login password c.first_colon c.has_login c.has_password),
)
