-- ===== src/Validation.antt =====
-- pkg/validation/validation.go: scores, player references, match ids and credentials, out of the text
-- that users type. Each regular expression is a recogniser of the texts that it matches.
pub mod Scores
pub mod Ids
use ttbot_repo_placeholder.Prelude.{
  ℕ, ◌+◌, ◌-◌, ◌^◌, Bool, true, false, ◌&&◌, ◌||◌, Option, none, some, List, [], ◌∷◌, leb, ltb, eqb,
  length, if◌then◌else◌,
}
use ttbot_repo_placeholder.Text.{Text, split_at}
use ttbot_repo_placeholder.Text.Decimal.{is_digit, parse_uint}

pub record Score : Type 0 where
  pub p1 : ℕ
  pub p2 : ℕ

pub data ScoreError : Type 0 where
  score_format score_tie score_range : ScoreError

pub data Parsed {ℓ κ} (E : Type κ) (A : Type ℓ) : Type (ℓ ⊔ κ) where
  parsed : A → Parsed E A
  refused : E → Parsed E A

unfoldable pub all_chars : (ℕ → Bool) → Text → Bool
all_chars p [] = true
all_chars p (c ∷ s) = p c && all_chars p s

-- (0|[1-9][0-9]*)
unfoldable pub number_part : Text → Bool
number_part [] = false
number_part (c ∷ []) = is_digit c
number_part (c ∷ d ∷ s) = leb b'1' c && leb c b'9' && all_chars is_digit (d ∷ s)

-- ScoreRegex: the two numbers round the dash.
unfoldable pub score_regex : Text → Option (Text × Text)
score_regex token = elim (split_at b'-' token) [
  | none ↦ none
  | some (a, b) ↦ if number_part a && number_part b then some (a, b) else none
]

abbrev pub score_max : ℕ
score_max = 99

-- strconv.ParseUint(s, 10, 32)
unfoldable pub parse_uint32 : Text → Option ℕ
parse_uint32 s = elim (parse_uint s) [
  | none ↦ none
  | some v ↦ if ltb v (2 ^ 32) then some v else none
]

unfoldable pub check_score : ℕ → ℕ → Parsed ScoreError Score
check_score p1 p2 =
    if ltb score_max p1 || ltb score_max p2
    then refused score_range
    else if eqb p1 p2
    then refused score_tie
    else parsed (record { p1 = p1; p2 = p2 })

unfoldable pub score_of : Option ℕ → Option ℕ → Parsed ScoreError Score
score_of none _ = refused score_format
score_of (some p1) none = refused score_format
score_of (some p1) (some p2) = check_score p1 p2

-- ParseScore
unfoldable pub parse_score : Text → Parsed ScoreError Score
parse_score token = elim (score_regex token) [
  | none ↦ refused score_format
  | some (a, b) ↦ score_of (parse_uint32 a) (parse_uint32 b)
]

pub record Identifier : Type 0 where
  pub is_telegram : Bool
  pub value : Text

unfoldable pub is_letter : ℕ → Bool
is_letter c = (leb b'A' c && leb c b'Z') || (leb b'a' c && leb c b'z')

unfoldable pub username_char : ℕ → Bool
username_char c = is_letter c || (is_digit c || eqb c b'_')

-- usernameRegex: ^[A-Za-z][A-Za-z0-9_]{4,31}$
unfoldable pub username_regex : Text → Bool
username_regex [] = false
username_regex (c ∷ s) =
    is_letter c && (all_chars username_char s && (leb 4 (length s) && leb (length s) 31))

-- s21NicknameRegex: ^[A-Za-z0-9][A-Za-z0-9_-]{0,63}$
unfoldable pub s21_nickname_regex : Text → Bool
s21_nickname_regex [] = false
s21_nickname_regex (c ∷ s) =
    (is_letter c || is_digit c)
    && (all_chars (λ d. username_char d || eqb d b'-') s && leb (length s) 63)

pub data IdentifierError : Type 0 where
  empty_identifier invalid_username invalid_nickname : IdentifierError

-- ParseIdentifier
unfoldable pub parse_identifier : Text → Parsed IdentifierError Identifier
parse_identifier [] = refused empty_identifier
parse_identifier (c ∷ s) =
    if eqb c b'@'
    then (if username_regex s
        then parsed (record { is_telegram = true; value = s })
        else refused invalid_username)
    else if s21_nickname_regex (c ∷ s)
    then parsed (record { is_telegram = false; value = c ∷ s })
    else refused invalid_nickname

-- The longest run of digits at the front.
unfoldable pub digit_run : Text → Text
digit_run [] = []
digit_run (c ∷ s) = let rest = digit_run s in if is_digit c then c ∷ rest else []

-- MatchIDRegex: the digits behind the first '#' that has a digit behind it.
unfoldable pub match_id_regex : Text → Option Text
match_id_regex [] = none
match_id_regex (c ∷ s) = elim (digit_run s) [
  | [] ↦ match_id_regex s
  | d ∷ ds ↦ if eqb c b'#' then some (d ∷ ds) else match_id_regex s
]

-- ExtractMatchID
unfoldable pub extract_match_id : Text → Option ℕ
extract_match_id text = elim (match_id_regex text) [ none ↦ none | some ds ↦ parse_uint ds ]

-- ParseAdminCredentials; `none` is the error.
unfoldable pub parse_admin_credentials : Text → Option (Text × Text)
parse_admin_credentials token = elim (split_at b':' token) [
  | none ↦ none
  | some (login, password) ↦ elim login [
    | [] ↦ none
    | l ∷ ls ↦ elim password [ [] ↦ none | p ∷ ps ↦ some (l ∷ ls, p ∷ ps) ]
  ]
]
