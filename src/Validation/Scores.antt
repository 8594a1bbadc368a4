-- ===== src/Validation/Scores.antt =====
-- Which texts ParseScore of pkg/validation/validation.go accepts.
use ttbot_repo_placeholder.Prelude.{
  ℕ, ◌+◌, ◌-◌, ◌*◌, ◌≤◌, ◌≡◌, ◌≢◌, ◌↔◌, refl, true, Option, none, some, [], ◌∷◌, ◌++◌, arith, inl,
  inr, Option-cases,
}
use ttbot_repo_placeholder.Text.{Text, split_at}
use ttbot_repo_placeholder.Text.Decimal.{
  is_digit, value_of, format_uint, parse_uint-format_uint, format_uint-All, split_at-append,
  split_at_inverse, value_of-parse_uint, format_uint_one, format_uint_two,
}
use ttbot_repo_placeholder.Validation.{
  Score, parsed, number_part, score_regex, check_score, score_of, parse_score, parse_uint32,
  all_chars,
}

-- The digits read so far only grow.
value_of-le : (acc v : ℕ) (s : Text) → value_of acc s ≡ some v → acc ≤ v
unfolding value_of
value_of-le acc v [] h = ground arith
value_of-le acc v (c ∷ s) h = ground (arith, value_of-le (acc * 10 + (c - 48)) v s)

-- A number below 100 is written in one way.
canonical_part :
    (s : Text) (v : ℕ) → number_part s ≡ true → value_of 0 s ≡ some v → v ≤ 99 → s ≡ format_uint v
unfolding number_part value_of all_chars is_digit
canonical_part [] v n h b = cc
canonical_part (c ∷ []) v n h b = ground (arith, format_uint_one v)
canonical_part (c ∷ d ∷ []) v n h b = ground (arith, format_uint_two v)
canonical_part (c ∷ d ∷ e ∷ s) v n h b =
    ground (arith, value_of-le (((0 * 10 + (c - 48)) * 10 + (d - 48)) * 10 + (e - 48)) v s)

number_part-format_uint : (v : ℕ) → v ≤ 99 → number_part (format_uint v) ≡ true
unfolding number_part is_digit all_chars
number_part-format_uint v h = ground (arith, format_uint_one v, format_uint_two v)

parse_uint32-format_uint : (v : ℕ) → v ≤ 99 → parse_uint32 (format_uint v) ≡ some v
unfolding parse_uint32
parse_uint32-format_uint v h = ground (arith, parse_uint-format_uint v)

parse_uint32_value : (s : Text) (v : ℕ) → parse_uint32 s ≡ some v → value_of 0 s ≡ some v
unfolding parse_uint32
parse_uint32_value s v h = ground (arith, value_of-parse_uint s v)

-- The text of a score.
pub print_score : Score → Text
print_score s = format_uint s.p1 ++ b'-' ∷ format_uint s.p2

score_regex-print_score :
    (s : Score)
    → s.p1 ≤ 99
    → s.p2 ≤ 99
    → score_regex (print_score s) ≡ some (format_uint s.p1, format_uint s.p2)
unfolding score_regex print_score is_digit
score_regex-print_score s h k = ground (
  arith,
  split_at-append b'-' (format_uint s.p1) (format_uint s.p2) (format_uint-All b'-' s.p1 refl),
  number_part-format_uint s.p1,
  number_part-format_uint s.p2,
)

score_regex_parts :
    (t : Text) {a b : Text}
    → score_regex t ≡ some (a, b)
    → (t ≡ a ++ b'-' ∷ b) × (number_part a ≡ true) × (number_part b ≡ true)
unfolding score_regex
score_regex_parts t {a} {b} h = elim (Option-cases (split_at b'-' t)) [
  | inl e ↦ ground arith
  | inr ((x, y), e) ↦ ground (arith, split_at_inverse b'-' t e)
]

pub record IsValid (s : Score) : Type 0 where
  pub p1_max : s.p1 ≤ 99
  pub p2_max : s.p2 ≤ 99
  pub decided : s.p1 ≢ s.p2

parse_score-print_score : (s : Score) → IsValid s → parse_score (print_score s) ≡ parsed s
unfolding parse_score score_of check_score
parse_score-print_score s v = ground (
  arith,
  score_regex-print_score s v.p1_max v.p2_max,
  parse_uint32-format_uint s.p1,
  parse_uint32-format_uint s.p2,
)

score_of_parsed :
    (a b : Option ℕ) (s : Score)
    → score_of a b ≡ parsed s
    → (a ≡ some s.p1) × (b ≡ some s.p2) × IsValid s
unfolding score_of check_score
score_of_parsed none b s h = cc
score_of_parsed (some x) none s h = cc
score_of_parsed (some x) (some y) s h = (
  ground arith,
  ground arith,
  record { p1_max = ground arith; p2_max = ground arith; decided = ground arith },
)

parse_score_printed :
    (token : Text) (s : Score) → parse_score token ≡ parsed s → (token ≡ print_score s) × IsValid s
unfolding parse_score print_score
parse_score_printed token s h = elim (Option-cases (score_regex token)) [
  | inl e ↦ ground arith
  | inr ((a, b), e) ↦
      let parts = score_regex_parts token e in
      let values = score_of_parsed (parse_uint32 a) (parse_uint32 b) s (ground arith) in
      let left =
        canonical_part a s.p1 parts.1 (parse_uint32_value a s.p1 values.0) values.2.p1_max in
      let right =
        canonical_part b s.p2 parts.2 (parse_uint32_value b s.p2 values.1) values.2.p2_max in
      (cc, values.2)
]

-- ParseScore accepts a token as the score `s` exactly when the token is the two numbers of `s` in
-- plain decimal round a dash, both are at most 99, and they differ.
pub parse_score_iff :
    (token : Text) (s : Score)
    → (parse_score token ≡ parsed s) ↔ ((token ≡ print_score s) × IsValid s)
parse_score_iff token s =
    (parse_score_printed token s, λ h. rw (h.0) (parse_score-print_score s h.1))
