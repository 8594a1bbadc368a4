-- ===== src/Interactive/Header.antt =====
-- The header of pkg/handlers/match_interactive.go: renderOppHeader, renderScoreHeader,
-- parseDraftFromHeader and the two regular expressions, as a walk along the text. Each part of an
-- expression ends where the next literal starts, so a greedy match has no choice.
use ttbot_repo_placeholder.Prelude.{
  ℕ, ◌-◌, ◌^◌, Bool, true, false, not, ◌||◌, Option, none, some, [], ◌∷◌, ◌++◌, ltb, eqb,
  if◌then◌else◌,
}
use ttbot_repo_placeholder.Text.{Text, text, strip_prefix}
use ttbot_repo_placeholder.Text.Decimal.{is_digit, format_int, value_of}
use ttbot_repo_placeholder.Text.Query.{query_escape, query_unescape}
use ttbot_repo_placeholder.Bot.{Draft}

infixl 5 ◌>>=◌
abbrev pub ◌>>=◌ {ℓ κ} : {A : Type ℓ} {B : Type κ} → Option A → (A → Option B) → Option B
none >>= f = none
some a >>= f = f a

-- The class \s of Go's regular expressions.
unfoldable pub is_blank : ℕ → Bool
is_blank c = eqb c 9 || (eqb c 10 || (eqb c 12 || (eqb c 13 || eqb c 32)))

-- The longest run of characters of a class, and the rest.
unfoldable pub run_of : (ℕ → Bool) → Text → Text × Text
run_of p [] = ([], [])
run_of p (c ∷ s) = let r = run_of p s in if p c then (c ∷ r.0, r.1) else ([], c ∷ s)

-- (\d+)
unfoldable pub some_digits : Text → Option (Text × Text)
some_digits s = let r = run_of is_digit s in elim r.0 [ [] ↦ none | c ∷ cs ↦ some (c ∷ cs, r.1) ]

-- (\S*)
unfoldable pub label_run : Text → Text × Text
label_run s = run_of (λ c. not (is_blank c)) s

-- ([0-9-])
unfoldable pub score_char : Text → Option (ℕ × Text)
score_char [] = none
score_char (c ∷ s) = if is_digit c || eqb c b'-' then some (c, s) else none

-- strconv.ParseInt and strconv.Atoi on digits, with the error dropped: a value that is too large
-- comes out as the largest int64.
unfoldable pub int_of_digits : Text → ℕ
int_of_digits s = elim (value_of 0 s) [
  | none ↦ 0
  | some v ↦ if ltb v (2 ^ 63) then v else 2 ^ 63 - 1
]

-- url.QueryUnescape with the error dropped.
unfoldable pub unescaped : Text → Text
unescaped s = elim (query_unescape s) [ none ↦ [] | some t ↦ t ]

-- scoreTok
unfoldable pub score_tok : Option ℕ → Text
score_tok none = b'-' ∷ []
score_tok (some v) = format_int v

-- parseScoreTok on one character of its class.
unfoldable pub parse_score_tok : ℕ → Option ℕ
parse_score_tok c = if eqb c b'-' then none else some (c - 48)

-- matchOppHeaderRe at the front of a text.
unfoldable pub opp_header_here : Text → Option Draft
opp_header_here s = do
  s ← strip_prefix (text "[MATCH_OP=opp owner=") s
  (owner, s) ← some_digits s
  s ← strip_prefix (text " owner_label=") s
  let label = label_run s
  s ← strip_prefix (text " page=") label.1
  (page, s) ← some_digits s
  s ← strip_prefix (text "]") s
  some (record {
    owner_id = int_of_digits owner;
    owner_label = unescaped label.0;
    is_score = false;
    page = int_of_digits page;
    opp_id = 0;
    opp_label = [];
    p1 = none;
    p2 = none;
    touched_at = 0;
  })

-- matchScoreHeaderRe at the front of a text.
unfoldable pub score_header_here : Text → Option Draft
score_header_here s = do
  s ← strip_prefix (text "[MATCH_OP=score owner=") s
  (owner, s) ← some_digits s
  s ← strip_prefix (text " owner_label=") s
  let owner_label = label_run s
  s ← strip_prefix (text " opp=") owner_label.1
  (opp, s) ← some_digits s
  s ← strip_prefix (text " opp_label=") s
  let opp_label = label_run s
  s ← strip_prefix (text " p1=") opp_label.1
  (p1, s) ← score_char s
  s ← strip_prefix (text " p2=") s
  (p2, s) ← score_char s
  s ← strip_prefix (text "]") s
  some (record {
    owner_id = int_of_digits owner;
    owner_label = unescaped owner_label.0;
    is_score = true;
    page = 0;
    opp_id = int_of_digits opp;
    opp_label = unescaped opp_label.0;
    p1 = parse_score_tok p1;
    p2 = parse_score_tok p2;
    touched_at = 0;
  })

-- The leftmost place where the pattern matches.
unfoldable pub leftmost : (Text → Option Draft) → Text → Option Draft
leftmost p [] = p []
leftmost p (c ∷ s) = let later = leftmost p s in elim (p (c ∷ s)) [ none ↦ later | some d ↦ some d ]

-- parseDraftFromHeader
unfoldable pub parse_draft_from_header : Text → Option Draft
parse_draft_from_header s = elim (leftmost opp_header_here s) [
  | none ↦ leftmost score_header_here s
  | some d ↦ some d
]

-- renderOppHeader
unfoldable pub render_opp_header : Draft → Text
render_opp_header d =
    text "[MATCH_OP=opp owner="
    ++ (format_int d.owner_id
        ++ (text " owner_label="
            ++ (query_escape d.owner_label ++ (text " page=" ++ (format_int d.page ++ text "]")))))

-- renderScoreHeader
unfoldable pub render_score_header : Draft → Text
render_score_header d =
    text "[MATCH_OP=score owner="
    ++ (format_int d.owner_id
        ++ (text " owner_label="
            ++ (query_escape d.owner_label
                ++ (text " opp="
                    ++ (format_int d.opp_id
                        ++ (text " opp_label="
                            ++ (query_escape d.opp_label
                                ++ (text " p1="
                                    ++ (score_tok d.p1
                                        ++ (text " p2=" ++ (score_tok d.p2 ++ text "]")))))))))))

-- spoilerWrap
unfoldable pub spoiler_wrap : Text → Text
spoiler_wrap tag = text "<tg-spoiler>" ++ (tag ++ text "</tg-spoiler>")
