-- ===== src/Text.antt =====
-- Go strings as lists of bytes: literals (in UTF-8), comparison, `strings.HasPrefix`,
-- `strings.TrimPrefix`, `strings.SplitN(s, sep, 2)` and `strings.TrimSpace`.
pub mod Decimal
pub mod Query
use Prim.Native.Char.{code}
use mathlib.Core.List.{reverse}
use ttbot_repo_placeholder.Prelude.{
  ℕ, ◌+◌, ◌/◌, ◌%◌, ◌≡◌, refl, ◌↔◌, Bool, true, false, ◌&&◌, ◌||◌, Option, none, some, List, [],
  ◌∷◌, ◌++◌, String, arith, eqb, leb, ltb, if◌then◌else◌,
}
use ttbot_repo_placeholder.GoMap.{Key}

abbrev pub Text : Type 0
Text = List ℕ

-- The UTF-8 bytes of a code point, in front of a text.
utf8 : ℕ → Text → Text
utf8 c s =
    if ltb c 0x80
    then c ∷ s
    else if ltb c 0x800
    then (0xc0 + c / 64) ∷ (0x80 + c % 64) ∷ s
    else if ltb c 0x10000
    then (0xe0 + c / 4096) ∷ (0x80 + c / 64 % 64) ∷ (0x80 + c % 64) ∷ s
    else (0xf0 + c / 262144) ∷ (0x80 + c / 4096 % 64) ∷ (0x80 + c / 64 % 64) ∷ (0x80 + c % 64) ∷ s

-- A string literal.
unfoldable pub text : String → Text
unfolding utf8
text String.[] = []
text (String.◌∷◌ c s) = utf8 (code c) (text s)

-- a == b
unfoldable pub text_eqb : Text → Text → Bool
text_eqb [] [] = true
text_eqb (x ∷ xs) (y ∷ ys) = eqb x y && text_eqb xs ys
text_eqb _ _ = false

pub text_eqb_iff : (a b : Text) → (text_eqb a b ≡ true) ↔ (a ≡ b)
unfolding text_eqb
text_eqb_iff [] [] = ground arith
text_eqb_iff [] (y ∷ ys) = ground arith
text_eqb_iff (x ∷ xs) [] = ground arith
text_eqb_iff (x ∷ xs) (y ∷ ys) = ground (arith, text_eqb_iff xs ys)

instance abbrev pub text_key : Key Text
text_key = record { same = text_eqb; same_iff = text_eqb_iff }

-- strings.HasPrefix and strings.TrimPrefix in one: the rest of `s` behind `p`, if it starts with `p`.
unfoldable pub strip_prefix : Text → Text → Option Text
strip_prefix [] s = some s
strip_prefix (c ∷ p) [] = none
strip_prefix (c ∷ p) (d ∷ s) = let rest = strip_prefix p s in if eqb c d then rest else none

pub strip_prefix-append : (p s : Text) → strip_prefix p (p ++ s) ≡ some s
unfolding strip_prefix
strip_prefix-append [] s = refl
strip_prefix-append (c ∷ p) s = ground (arith, strip_prefix-append p s)

-- strings.SplitN(s, sep, 2): what stands before and behind the first `sep`; `none` if there is one part.
unfoldable pub split_at : ℕ → Text → Option (Text × Text)
split_at sep [] = none
split_at sep (c ∷ s) = elim (eqb c sep) [
  | true ↦ some ([], s)
  | false ↦ elim (split_at sep s) [ none ↦ none | some (a, b) ↦ some (c ∷ a, b) ]
]

-- strings.Contains
unfoldable pub contains : Text → Text → Bool
contains p [] = elim (strip_prefix p []) [ none ↦ false | some _ ↦ true ]
contains p (c ∷ s) =
    let later = contains p s in elim (strip_prefix p (c ∷ s)) [ none ↦ later | some _ ↦ true ]

-- a < b, byte by byte.
unfoldable pub text_ltb : Text → Text → Bool
text_ltb a [] = false
text_ltb [] (c ∷ b) = true
text_ltb (c ∷ a) (d ∷ b) = let rest = text_ltb a b in if eqb c d then rest else ltb c d

-- The ASCII part of unicode.IsSpace.
unfoldable pub is_space : ℕ → Bool
is_space c = eqb c 32 || (leb 9 c && leb c 13)

-- strings.Fields: the words between runs of space.
unfoldable pub fields_from : Text → Text → List Text
unfolding is_space
fields_from word [] = elim word [ [] ↦ [] | c ∷ cs ↦ (c ∷ cs) ∷ [] ]
fields_from word (c ∷ s) = elim (is_space c) [
  | true ↦ elim word [ [] ↦ fields_from [] s | d ∷ ds ↦ (d ∷ ds) ∷ fields_from [] s ]
  | false ↦ fields_from (word ++ c ∷ []) s
]

unfoldable pub fields : Text → List Text
unfolding fields_from
fields s = fields_from [] s

unfoldable pub drop_spaces : Text → Text
unfolding is_space
drop_spaces [] = []
drop_spaces (c ∷ s) = let rest = drop_spaces s in if is_space c then rest else c ∷ s

-- strings.TrimSpace
unfoldable pub trim_space : Text → Text
unfolding drop_spaces
trim_space s = reverse (drop_spaces (reverse (drop_spaces s)))

unfoldable pub drop_newlines : Text → Text
drop_newlines [] = []
drop_newlines (c ∷ s) = let rest = drop_newlines s in if eqb c 10 then rest else c ∷ s

-- strings.TrimRight(s, "\n")
unfoldable pub trim_newlines : Text → Text
trim_newlines s = reverse (drop_newlines (reverse s))
