-- ===== src/Handlers/Confirm/Payload.antt =====
-- The payload that a match button carries is the one that its tap reads (pkg/handlers/match.go).
use ttbot_repo_placeholder.Prelude.{ℕ, ◌^◌, ◌<◌, ◌≡◌, some, arith}
use ttbot_repo_placeholder.Text.Decimal.{
  format_int, format_uint, parse_int-format_int, parse_uint-format_uint, format_int-All,
  split_at-append,
}
use ttbot_repo_placeholder.Handlers.Register.{match_payload}
use ttbot_repo_placeholder.Handlers.Confirm.{parse_group_match_payload}

-- parseGroupMatchPayload reads back the "%d:%d" of a group id (an int64, negative ones included) and a
-- match id (a uint64).
pub parse_group_match_payload-match_payload :
    (gid mid : ℕ)
    → gid < 2 ^ 64
    → mid < 2 ^ 64
    → parse_group_match_payload (match_payload gid mid) ≡ some (gid, mid)
unfolding parse_group_match_payload match_payload
parse_group_match_payload-match_payload gid mid h k = ground (
  arith,
  split_at-append b':' (format_int gid) (format_uint mid) (format_int-All gid),
  parse_int-format_int gid h,
  parse_uint-format_uint mid k,
)
