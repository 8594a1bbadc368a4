-- ===== src/Text/Decimal.antt =====
-- Decimal numbers as Go prints and reads them: `%d` and strconv.FormatInt, strconv.ParseUint(s, 10, 64)
-- and strconv.ParseInt(s, 10, 64). An int64 is its 64-bit pattern.
use native.Mathlib.Nat.{pow-suc}
use mathlib.Core.List.{append_assoc, append-nil}
use ttbot_repo_placeholder.Prelude.{
  ℕ, zero, suc, ◌+◌, ◌-◌, ◌*◌, ◌/◌, ◌%◌, ◌^◌, ◌≤◌, ◌<◌, ◌≡◌, refl, ap, ◌∙◌, Bool, true, false, ◌&&◌,
  Option, none, some, [], ◌∷◌, ◌++◌, arith, ltb, leb, eqb, inl, inr, Bool-cases, Option-cases,
  if◌then◌else◌, All, All-append,
}
use ttbot_repo_placeholder.Text.{Text, split_at}

unfoldable pub is_digit : ℕ → Bool
is_digit c = leb 48 c && leb c 57

-- The decimal digits of `n`, of which there are at most as many as the fuel.
unfoldable pub digits : ℕ → ℕ → Text
digits zero n = []
digits (suc f) n =
    let front = digits f (n / 10) in if ltb n 10 then (48 + n) ∷ [] else front ++ (48 + n % 10) ∷ []

-- A uint64 has at most 20 digits.
unfoldable pub format_uint : ℕ → Text
unfolding digits
format_uint n = digits 20 n

-- The number that a run of digits denotes, behind the digits read so far.
unfoldable pub value_of : ℕ → Text → Option ℕ
unfolding is_digit
value_of acc [] = some acc
value_of acc (c ∷ s) =
    let rest = value_of (acc * 10 + (c - 48)) s in if is_digit c then rest else none

in_range : ℕ → Option ℕ → Option ℕ
in_range bound none = none
in_range bound (some v) = if ltb v bound then some v else none

unfoldable pub parse_uint : Text → Option ℕ
unfolding value_of in_range
parse_uint [] = none
parse_uint (c ∷ s) = in_range (2 ^ 64) (value_of 0 (c ∷ s))

unfoldable pub format_int : ℕ → Text
unfolding format_uint
format_int n = if ltb n (2 ^ 63) then format_uint n else b'-' ∷ format_uint (2 ^ 64 - n)

negated : Option ℕ → Option ℕ
negated none = none
negated (some v) = some ((2 ^ 64 - v) % 2 ^ 64)

unsigned : ℕ → Text → Option ℕ
unfolding value_of in_range
unsigned bound [] = none
unsigned bound (c ∷ s) = in_range bound (value_of 0 (c ∷ s))

-- An optional sign, then digits; the value must fit an int64.
unfoldable pub parse_int : Text → Option ℕ
unfolding unsigned negated
parse_int [] = none
parse_int (c ∷ s) =
    if eqb c b'-'
    then negated (unsigned (2 ^ 63 + 1) s)
    else if eqb c b'+'
    then unsigned (2 ^ 63) s
    else unsigned (2 ^ 63) (c ∷ s)

digit_lem : (d : ℕ) → d < 10 → is_digit (48 + d) ≡ true
unfolding is_digit
digit_lem d h = ground arith

-- One digit more.
value_of-cons :
    (acc d : ℕ) (s : Text) → d < 10 → value_of acc ((48 + d) ∷ s) ≡ value_of (acc * 10 + d) s
unfolding value_of
value_of-cons acc d s h = rw (digit_lem d h) (ap {B = Option ℕ} (λ t. value_of t s) (omega arith))

-- Reading back what was printed, in front of any other text.
pub value_of-digits :
    (f n : ℕ) (s : Text) → n < 10 ^ f → value_of 0 (digits f n ++ s) ≡ value_of n s
unfolding digits
value_of-digits zero n s h = let e : n ≡ 0 = omega arith in rw e
value_of-digits (suc f) n s h = elim (Bool-cases (ltb n 10)) [
  | inl small ↦
      rw small
        (value_of-cons 0 n s (ground arith) ∙ ap {B = Option ℕ} (λ t. value_of t s) (omega arith))
  | inr big ↦
      let bound : n / 10 < 10 ^ f = omega (arith, pow-suc 10 f) in
      let joined : n / 10 * 10 + n % 10 ≡ n = omega arith in
      rw (big, append_assoc (digits f (n / 10)) ((48 + n % 10) ∷ []) s)
        (value_of-digits f (n / 10) ((48 + n % 10) ∷ s) bound
          ∙ value_of-cons (n / 10) (n % 10) s (omega arith)
          ∙ ap {B = Option ℕ} (λ t. value_of t s) joined)
]

-- Every printed character is a digit.
digits-All : (f n : ℕ) → All (λ c. is_digit c ≡ true) (digits f n)
unfolding digits
digits-All zero n = tt
digits-All (suc f) n = elim (Bool-cases (ltb n 10)) [
  | inl small ↦ rw small (digit_lem n (ground arith), tt)
  | inr big ↦ rw big (
      All-append _ (digits f (n / 10)) _ (digits-All f (n / 10))
        (digit_lem (n % 10) (omega arith), tt))
]

digits-cons : (f n : ℕ) → (c : ℕ) × (s : Text) × (digits (suc f) n ≡ c ∷ s)
unfolding digits
digits-cons f n = elim (Bool-cases (ltb n 10)) [
  | inl small ↦ (48 + n, [], rw small)
  | inr big ↦ rw big (nonempty (digits f (n / 10)) (48 + n % 10))
]
  where
    nonempty : (xs : Text) (d : ℕ) → (c : ℕ) × (s : Text) × (xs ++ d ∷ [] ≡ c ∷ s)
    nonempty [] d = (d, [], refl)
    nonempty (x ∷ xs) d = (x, xs ++ d ∷ [], refl)

digits_small : (f n : ℕ) → n < 10 → digits (suc f) n ≡ (48 + n) ∷ []
unfolding digits
digits_small f n h = ground arith

pub format_uint_one : (n : ℕ) → n < 10 → format_uint n ≡ (48 + n) ∷ []
unfolding format_uint
format_uint_one n h = digits_small 19 n h

digits_two :
    (f n : ℕ) → 10 ≤ n → n < 100 → digits (suc (suc f)) n ≡ (48 + n / 10) ∷ (48 + n % 10) ∷ []
unfolding digits
digits_two f n h k = ground arith

pub format_uint_two :
    (n : ℕ) → 10 ≤ n → n < 100 → format_uint n ≡ (48 + n / 10) ∷ (48 + n % 10) ∷ []
unfolding format_uint
format_uint_two n h k = digits_two 18 n h k

pub format_uint_digits : (n : ℕ) → All (λ c. is_digit c ≡ true) (format_uint n)
unfolding format_uint
format_uint_digits n = digits-All 20 n

pub format_uint_nonempty : (n : ℕ) → (c : ℕ) × (s : Text) × (format_uint n ≡ c ∷ s)
unfolding format_uint
format_uint_nonempty n = digits-cons 19 n

-- The number that the digits of a uint64 denote.
value_of-format_uint : (n : ℕ) → n < 2 ^ 64 → value_of 0 (format_uint n) ≡ some n
unfolding format_uint value_of
value_of-format_uint n h =
    let whole : value_of 0 (digits 20 n ++ []) ≡ some n = value_of-digits 20 n [] (omega arith) in
    rw append-nil at whole

unsigned-format_uint :
    (bound n : ℕ) → n < bound → n < 2 ^ 64 → unsigned bound (format_uint n) ≡ some n
unfolding unsigned format_uint
unsigned-format_uint bound n h k =
    let (c, t, e) = digits-cons 19 n in
    let v : value_of 0 (c ∷ t) ≡ some n = rw e at (value_of-format_uint n k) in
    rw e (ground (arith, v))

unsigned-eq-parse_uint : (s : Text) → parse_uint s ≡ unsigned (2 ^ 64) s
unfolding parse_uint unsigned
unsigned-eq-parse_uint [] = refl
unsigned-eq-parse_uint (c ∷ s) = refl

-- strconv.ParseUint reads back what `%d` printed.
pub parse_uint-format_uint : (n : ℕ) → n < 2 ^ 64 → parse_uint (format_uint n) ≡ some n
parse_uint-format_uint n h = unsigned-eq-parse_uint _ ∙ unsigned-format_uint _ n h h

-- A text that starts with a digit has no sign.
parse_int-unsigned :
    (s : Text)
    → (c : ℕ) × (t : Text) × (s ≡ c ∷ t)
    → All (λ c. is_digit c ≡ true) s
    → parse_int s ≡ unsigned (2 ^ 63) s
unfolding parse_int is_digit
parse_int-unsigned [] (c, t, e) h = cc
parse_int-unsigned (c ∷ s) _ h = ground arith

-- strconv.ParseInt reads back what `%d` printed for an int64.
pub parse_int-format_int : (n : ℕ) → n < 2 ^ 64 → parse_int (format_int n) ≡ some n
unfolding parse_int format_int
parse_int-format_int n h = elim (Bool-cases (ltb n (2 ^ 63))) [
  | inl plus ↦ rw plus (
      parse_int-unsigned (format_uint n) (digits-cons 19 n) (digits-All 20 n)
      ∙ unsigned-format_uint (2 ^ 63) n (ground arith) h)
  | inr minus ↦
      rw (minus, unsigned-format_uint (2 ^ 63 + 1) (2 ^ 64 - n) (ground arith) (ground arith))
        (ap {B = Option ℕ} some (ground arith))
]

-- No separator stands in a printed number.
digit-ne :
    (sep : ℕ) (s : Text)
    → is_digit sep ≡ false
    → All (λ c. is_digit c ≡ true) s
    → All (λ c. eqb c sep ≡ false) s
digit-ne sep [] d h = tt
digit-ne sep (c ∷ s) d h = (ground (arith, h.0), digit-ne sep s d h.1)

pub format_uint-All :
    (sep n : ℕ) → is_digit sep ≡ false → All (λ c. eqb c sep ≡ false) (format_uint n)
unfolding format_uint
format_uint-All sep n h = digit-ne sep (digits 20 n) h (digits-All 20 n)

pub format_int-All : (n : ℕ) → All (λ c. eqb c b':' ≡ false) (format_int n)
unfolding format_int is_digit
format_int-All n = elim (Bool-cases (ltb n (2 ^ 63))) [
  | inl plus ↦ rw plus (format_uint-All b':' n refl)
  | inr minus ↦ rw minus (refl, format_uint-All b':' (2 ^ 64 - n) refl)
]

-- strings.SplitN at the first separator.
pub split_at-append :
    (sep : ℕ) (a b : Text)
    → All (λ c. eqb c sep ≡ false) a
    → split_at sep (a ++ sep ∷ b) ≡ some (a, b)
unfolding split_at
split_at-append sep [] b h = ground arith
split_at-append sep (c ∷ a) b h = ground (arith, split_at-append sep a b h.1)

pub split_at_inverse :
    (sep : ℕ) (t : Text) {a b : Text} → split_at sep t ≡ some (a, b) → t ≡ a ++ sep ∷ b
unfolding split_at
split_at_inverse sep [] h = cc
split_at_inverse sep (c ∷ t) {a} {b} h = elim (Option-cases (split_at sep t)) [
  | inl e ↦ ground arith
  | inr ((x, y), e) ↦ ground (arith, split_at_inverse sep t e)
]

-- What ParseUint accepts is the value of its digits.
pub value_of-parse_uint : (s : Text) (v : ℕ) → parse_uint s ≡ some v → value_of 0 s ≡ some v
unfolding parse_uint
value_of-parse_uint [] v h = cc
value_of-parse_uint (c ∷ s) v h = ground arith
