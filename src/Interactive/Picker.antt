-- ===== src/Interactive/Picker.antt =====
-- The two pickers of pkg/handlers/match_interactive.go: opponentCandidates, renderOpponentPicker and
-- renderScorePicker, with the callback payloads of their buttons.
pub mod Pages
use ttbot_repo_placeholder.Prelude.{
  ℕ, zero, suc, ◌+◌, ◌-◌, ◌*◌, ◌/◌, ◌^◌, Bool, false, not, ◌||◌, Option, none, some, List, [], ◌∷◌,
  ◌++◌, map, ltb, leb, eqb, length, take, drop, if◌then◌else◌,
}
use ttbot_repo_placeholder.GoMap
use ttbot_repo_placeholder.GoMap.{GoMap, nat_eq}
use ttbot_repo_placeholder.Sort.{sort_slice}
use ttbot_repo_placeholder.Text.{Text, text}
use ttbot_repo_placeholder.Text.Decimal.{format_int}
use ttbot_repo_placeholder.Models.{Participant}
use ttbot_repo_placeholder.Store.{Store}
use ttbot_repo_placeholder.Store.Matches.{counts_by_player}
use ttbot_repo_placeholder.Store.Players.{list_participants}
use ttbot_repo_placeholder.Store.Accounts.{lt_int64}
use ttbot_repo_placeholder.Names.{is_empty}
use ttbot_repo_placeholder.Bot.{Button, Draft}
use ttbot_repo_placeholder.Interactive.Header.{render_opp_header, render_score_header, spoiler_wrap}

abbrev pub opp_per_page : ℕ
opp_per_page = 15

abbrev pub opp_grid_cols : ℕ
opp_grid_cols = 3

abbrev pub score_max_val : ℕ
score_max_val = 7

-- The prefix of every payload, miPrefix.
unfoldable pub mi : Text → Text
mi s = text "m:i:" ++ s

-- opponentCandidate
pub record Candidate : Type 0 where
  pub telegram_id : ℕ
  pub label : Text
  pub match_count : ℕ

unfoldable pub candidate_of : GoMap ℕ ℕ → Participant → Candidate
candidate_of counts p = record {
  telegram_id = p.telegram_id;
  label =
      if is_empty p.telegram_username
      then text "id " ++ format_int p.telegram_id
      else b'@' ∷ p.telegram_username;
  match_count = elim (GoMap.get p.telegram_id counts) [ none ↦ 0 | some n ↦ n ];
}

-- The `less` of opponentCandidates.
unfoldable pub more_played : Candidate → Candidate → Bool
more_played a b =
    if not (eqb a.match_count b.match_count)
    then ltb b.match_count a.match_count
    else lt_int64 a.telegram_id b.telegram_id

unfoldable pub others : ℕ → List Participant → List Participant
others caller [] = []
others caller (p ∷ ps) =
    let rest = others caller ps in if eqb p.telegram_id caller then rest else p ∷ rest

-- opponentCandidates
unfoldable pub opponent_candidates : ℕ → ℕ → Store → List Candidate
opponent_candidates gid caller s =
    sort_slice more_played
      (map (candidate_of (counts_by_player gid s)) (others caller (list_participants gid s)))

-- The page clamped into 1 .. total; the page is an int, given by its bit pattern.
unfoldable pub clamp_page : ℕ → ℕ → ℕ
clamp_page total page =
    let positive = if eqb page 0 || leb (2 ^ 63) page then 1 else page in
    if ltb total positive then total else positive

unfoldable pub total_pages : ℕ → ℕ
total_pages n = (n + opp_per_page - 1) / opp_per_page

-- candidates[start:end]
unfoldable pub page_rows {ℓ} : {A : Type ℓ} → ℕ → List A → List A
page_rows page cs = take opp_per_page (drop ((page - 1) * opp_per_page) cs)

-- Rows of `opp_grid_cols` buttons; the fuel is the number of buttons.
unfoldable pub grid_rows {ℓ} : {A : Type ℓ} → ℕ → List A → List (List A)
grid_rows zero bs = []
grid_rows (suc fuel) [] = []
grid_rows (suc fuel) (b ∷ bs) =
    take opp_grid_cols (b ∷ bs) ∷ grid_rows fuel (drop opp_grid_cols (b ∷ bs))

unfoldable pub opponent_button : Candidate → Button
opponent_button c = record {
  label = c.label;
  callback = mi (text "opp:" ++ format_int c.telegram_id);
}

-- A step to another page, or a dot where there is none.
unfoldable pub nav_button : Bool → Text → ℕ → Button
nav_button there label page =
    if there
    then record { label = label; callback = mi (text "nav:" ++ format_int page) }
    else record { label = text "·"; callback = mi (text "noop") }

unfoldable pub cancel_button : Button
cancel_button = record { label = text "✕ Cancel"; callback = mi (text "cancel") }

unfoldable pub nav_row : ℕ → ℕ → List Button
nav_row total page =
    if ltb 1 total
    then nav_button (ltb 1 page) (text "⬅ Prev") (page - 1)
      ∷ cancel_button
      ∷ nav_button (ltb page total) (text "Next ➡") (page + 1)
      ∷ []
    else cancel_button ∷ []

-- A rendered picker: the draft with its page clamped, the text and the rows of buttons.
pub record View : Type 0 where
  pub draft : Draft
  pub body : Text
  pub rows : List (List Button)

unfoldable pub opponent_view : List Candidate → Draft → View
opponent_view cs d =
    let total = total_pages (length cs) in
    let d' = record d { page = clamp_page total d.page } in
    let shown = map opponent_button (page_rows d'.page cs) in
    record {
      draft = d';
      body =
          text "Page "
          ++ (format_int d'.page
              ++ (b'/' ∷ format_int total
                  ++ (text " — opponents, most-played first:"
                      ++ (text "\n\n" ++ spoiler_wrap (render_opp_header d')))));
      rows = grid_rows (length shown) shown ++ nav_row total d'.page ∷ [];
    }

-- renderOpponentPicker; `none` is the nil of a group with nobody else in it.
unfoldable pub render_opponent_picker : ℕ → Draft → Store → Option View
render_opponent_picker gid d s = elim (opponent_candidates gid d.owner_id s) [
  | [] ↦ none
  | c ∷ cs ↦ some (opponent_view (c ∷ cs) d)
]

-- cellLabel
unfoldable pub cell_label : ℕ → Bool → Text
cell_label v selected = if selected then text "• " ++ (format_int v ++ text " •") else format_int v

-- safeLabel
unfoldable pub safe_label : Text → Text
safe_label s = if is_empty s then text "player" else s

unfoldable pub is_selected : ℕ → Option ℕ → Bool
is_selected v none = false
is_selected v (some p) = eqb v p

unfoldable pub score_button : Text → ℕ → Option ℕ → Button
score_button side v p = record {
  label = cell_label v (is_selected v p);
  callback = mi (text "s:" ++ (side ++ (b':' ∷ format_int v)));
}

-- The rows for the scores from `v` on.
unfoldable pub score_rows : ℕ → ℕ → Draft → List (List Button)
score_rows zero v d = []
score_rows (suc n) v d =
    (score_button (text "1") v d.p1 ∷ score_button (text "2") v d.p2 ∷ []) ∷ score_rows n (suc v) d

-- renderScorePicker
unfoldable pub render_score_picker : Draft → View
render_score_picker d = record {
  draft = d;
  body =
      safe_label d.owner_label
      ++ (text " vs "
          ++ (safe_label d.opp_label
              ++ (text "\n\nTap your score on the left, "
                  ++ (safe_label d.opp_label
                      ++ (text
                            "'s score on the right. Re-tap to change. Confirm when both sides have a •."
                          ++ (text "\n\n" ++ spoiler_wrap (render_score_header d)))))));
  rows =
      score_rows (score_max_val + 1) 0 d
      ++ (record { label = text "✅ Confirm"; callback = mi (text "confirm") } ∷ cancel_button ∷ [])
        ∷ (record { label = text "⬅ Back to opponent"; callback = mi (text "back") } ∷ [])
        ∷ [];
}
