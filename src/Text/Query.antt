-- ===== src/Text/Query.antt =====
-- `url.QueryEscape` and `url.QueryUnescape` of Go's net/url, over bytes.
use ttbot_repo_placeholder.Prelude.{
  ℕ, ◌+◌, ◌-◌, ◌*◌, ◌/◌, ◌%◌, ◌<◌, ◌≡◌, refl, Bool, true, false, ◌&&◌, ◌||◌, Option, none, some, [],
  ◌∷◌, arith, eqb, leb, ltb, All, inl, inr, Bool-cases, if◌then◌else◌,
}
use ttbot_repo_placeholder.Text.{Text}

-- The bytes that stay as they are: letters, digits and -_.~
unfoldable pub is_unreserved : ℕ → Bool
is_unreserved c =
    (leb b'A' c && leb c b'Z')
    || ((leb b'a' c && leb c b'z')
        || ((leb b'0' c && leb c b'9')
            || (eqb c b'-' || (eqb c b'_' || (eqb c b'.' || eqb c b'~')))))

unfoldable pub hex_digit : ℕ → ℕ
hex_digit d = if ltb d 10 then b'0' + d else b'A' + (d - 10)

unfoldable pub hex_value : ℕ → Option ℕ
hex_value c =
    if leb b'0' c && leb c b'9'
    then some (c - b'0')
    else if leb b'A' c && leb c b'F'
    then some (c - b'A' + 10)
    else if leb b'a' c && leb c b'f'
    then some (c - b'a' + 10)
    else none

unfoldable pub query_escape : Text → Text
query_escape [] = []
query_escape (c ∷ s) =
    let rest = query_escape s in
    if is_unreserved c
    then c ∷ rest
    else if eqb c b' '
    then b'+' ∷ rest
    else b'%' ∷ hex_digit (c / 16) ∷ hex_digit (c % 16) ∷ rest

-- In front of what follows, if that is well formed.
unfoldable pub with_byte : Option ℕ → Option ℕ → Option Text → Option Text
with_byte (some h) (some l) (some s) = some ((h * 16 + l) ∷ s)
with_byte (some h) (some l) none = none
with_byte (some h) none r = none
with_byte none l r = none

unfoldable pub with_char : ℕ → Option Text → Option Text
with_char c none = none
with_char c (some s) = some (c ∷ s)

-- Two digits behind each '%'; `none` is the error.
unfoldable pub query_unescape : Text → Option Text
query_unescape [] = some []
query_unescape (c ∷ []) = if eqb c b'%' then none else some ((if eqb c b'+' then b' ' else c) ∷ [])
query_unescape (c ∷ d ∷ []) =
    let rest = query_unescape (d ∷ []) in
    if eqb c b'%' then none else with_char (if eqb c b'+' then b' ' else c) rest
query_unescape (c ∷ d ∷ e ∷ s) = elim (eqb c b'%') [
  | true ↦ with_byte (hex_value d) (hex_value e) (query_unescape s)
  | false ↦ with_char (if eqb c b'+' then b' ' else c) (query_unescape (d ∷ e ∷ s))
]

-- A byte that is not '%' decodes alone.
query_unescape_plain :
    (c : ℕ) (s : Text)
    → eqb c b'%' ≡ false
    → query_unescape (c ∷ s) ≡ with_char (if eqb c b'+' then b' ' else c) (query_unescape s)
unfolding query_unescape with_char
query_unescape_plain c [] h = ground arith
query_unescape_plain c (d ∷ []) h = ground arith
query_unescape_plain c (d ∷ e ∷ s) h = rw (h, query_unescape)

hex_value-hex_digit : (d : ℕ) → d < 16 → hex_value (hex_digit d) ≡ some d
unfolding hex_value hex_digit
hex_value-hex_digit d h = ground arith

query_unescape_hex :
    (c : ℕ) (s t : Text)
    → c < 256
    → query_unescape s ≡ some t
    → query_unescape (b'%' ∷ hex_digit (c / 16) ∷ hex_digit (c % 16) ∷ s) ≡ some (c ∷ t)
unfolding query_unescape with_byte
query_unescape_hex c s t h e =
    ground (arith, hex_value-hex_digit (c / 16), hex_value-hex_digit (c % 16))

unreserved_plain : (c : ℕ) → is_unreserved c ≡ true → (eqb c b'%' ≡ false) × (eqb c b'+' ≡ false)
unfolding is_unreserved
unreserved_plain c h = ground arith

-- The three ways in which QueryEscape writes a byte.
query_unescape_step :
    (c : ℕ) (s t : Text)
    → c < 256
    → query_unescape s ≡ some t
    → query_unescape (
        if is_unreserved c
        then c ∷ s
        else if eqb c b' '
        then b'+' ∷ s
        else b'%' ∷ hex_digit (c / 16) ∷ hex_digit (c % 16) ∷ s)
      ≡ some (c ∷ t)
unfolding with_char
query_unescape_step c s t h e = elim (Bool-cases (is_unreserved c)) [
  | inl kept ↦
      let plain = unreserved_plain c kept in
      rw (kept, query_unescape_plain c s plain.0) (ground arith)
  | inr other ↦ elim (Bool-cases (eqb c b' ')) [
    | inl space ↦ ground (arith, query_unescape_plain b'+' s refl)
    | inr hex ↦ rw (other, hex) (query_unescape_hex c s t h e)
  ]
]

-- What QueryEscape makes of any bytes, QueryUnescape reads back.
pub query_unescape-query_escape :
    (s : Text) → All (λ c. c < 256) s → query_unescape (query_escape s) ≡ some s
unfolding query_escape
query_unescape-query_escape [] h = unfold query_unescape in refl
query_unescape-query_escape (c ∷ s) h =
    query_unescape_step c (query_escape s) s h.0 (query_unescape-query_escape s h.1)
