-- ===== src/Tests/Inputs.antt =====
-- The theorems on texts, on the nickname cache and on the buttons, run on some values.
use ttbot_repo_placeholder.Prelude.{
  ◌≤◌, ◌<◌, ◌-◌, ◌*◌, ◌≡◌, refl, ◌↔◌, some, ◌∷◌, ◌++◌, arith, ℕ, List, length, [],
}
use ttbot_repo_placeholder.Text.{text}
use ttbot_repo_placeholder.Text.Decimal.{is_digit, format_uint}
use ttbot_repo_placeholder.Validation.{
  parse_score, parsed, extract_match_id, parse_admin_credentials,
}
use ttbot_repo_placeholder.Validation.Scores.{print_score, IsValid, parse_score_iff}
use ttbot_repo_placeholder.Validation.Ids.{
  IsCredentials, extract_match_id_printed, parse_admin_credentials_iff,
}
use ttbot_repo_placeholder.Handlers.Confirm.{parse_group_match_payload}
use ttbot_repo_placeholder.Handlers.Confirm.Payload.{parse_group_match_payload-match_payload}
use ttbot_repo_placeholder.Handlers.Register.{match_payload}
use ttbot_repo_placeholder.Interactive.Picker.{clamp_page, total_pages, opp_per_page}
use ttbot_repo_placeholder.Interactive.Picker.Pages.{clamp_page_bounds, pages_cover, pages_from}
use ttbot_repo_placeholder.NickCache
use ttbot_repo_placeholder.NickCache.{size}
use ttbot_repo_placeholder.NickCache.Bounded.{IsBounded}
use ttbot_repo_placeholder.NickCache.Bound.{cache-IsBounded}
use ttbot_repo_placeholder.Tests.Data.{cache, named}

parse_score_iff_example :
    (parse_score (text "3-1") ≡ parsed (record { p1 = 3; p2 = 1 }))
    ↔ ((text "3-1" ≡ print_score (record { p1 = 3; p2 = 1 })) × IsValid (record { p1 = 3; p2 = 1 }))
parse_score_iff_example = parse_score_iff (text "3-1") (record { p1 = 3; p2 = 1 })

extract_match_id_printed_example :
    extract_match_id (text "Match " ++ b'#' ∷ (format_uint 12 ++ text " registered.")) ≡ some 12
unfolding text is_digit
extract_match_id_printed_example =
    extract_match_id_printed (text "Match ") (text " registered.") 12
      (refl, (refl, (refl, (refl, (refl, (refl, tt)))))) refl (ground arith)

parse_admin_credentials_iff_example :
    (parse_admin_credentials (text "a:b:c") ≡ some (text "a", text "b:c"))
    ↔ IsCredentials (text "a:b:c") (text "a") (text "b:c")
parse_admin_credentials_iff_example =
    parse_admin_credentials_iff (text "a:b:c") (text "a") (text "b:c")

-- A supergroup's id is negative: minus 100 as a bit pattern.
parse_group_match_payload-match_payload_example :
    parse_group_match_payload (match_payload 18446744073709551516 12)
    ≡ some (18446744073709551516, 12)
parse_group_match_payload-match_payload_example =
    parse_group_match_payload-match_payload 18446744073709551516 12 (ground arith) (ground arith)

cache-IsBounded_example :
    IsBounded (NickCache.get 5 7 cache).1
    × IsBounded (NickCache.put 5 7 (named 7) cache)
    × IsBounded (NickCache.invalidate 7 cache)
unfolding size
cache-IsBounded_example = cache-IsBounded 5 7 (named 7) cache (tt, ground arith)

-- Page 9 of 31 candidates, who fill three pages.
clamp_page_bounds_example :
    (1 ≤ clamp_page (total_pages 31) 9)
    × (clamp_page (total_pages 31) 9 ≤ total_pages 31)
    × ((clamp_page (total_pages 31) 9 - 1) * opp_per_page < 31)
clamp_page_bounds_example = clamp_page_bounds 31 9 (ground arith)

-- 16 candidates, one more than a page has.
abbrev ids : List ℕ
ids = 1 ∷ 2 ∷ 3 ∷ 4 ∷ 5 ∷ 6 ∷ 7 ∷ 8 ∷ 9 ∷ 10 ∷ 11 ∷ 12 ∷ 13 ∷ 14 ∷ 15 ∷ 16 ∷ []

pages_cover_example : pages_from 1 (total_pages (length ids)) ids ≡ ids
pages_cover_example = pages_cover ids
