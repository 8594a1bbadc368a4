-- ===== src/Ratings/Periods.antt =====
-- groupByPeriod of pkg/rating/glicko2.go. The boundary advances by empty periods until the match lies in
-- front of it; the fuel of that loop is the number of periods still to go. The length of a period is an
-- int64 of nanoseconds, which wraps around above 106,751 days.
pub mod Windows
use ttbot_repo_placeholder.Prelude.{
  ℕ, zero, suc, ◌+◌, ◌-◌, ◌*◌, ◌/◌, List, [], ◌∷◌, ◌++◌, ◌%◌, ◌^◌, ◌||◌, Option, none, some, ltb,
  leb, eqb, if◌then◌else◌,
}
use ttbot_repo_placeholder.Models.{hour}
use ttbot_repo_placeholder.Ratings.{RatedMatch}

abbrev pub day : ℕ
day = 24 * hour

-- period
pub record Period : Type 0 where
  pub start : ℕ
  pub matches : List RatedMatch

-- `for !mt.Before(cur.start.Add(dur))`: the periods that are closed, and the one that is open.
unfoldable pub advance : ℕ → ℕ → ℕ → Period → List Period × Period
advance zero dur at cur = ([], cur)
advance (suc fuel) dur at cur =
    let rest = advance fuel dur at (record { start = cur.start + dur; matches = [] }) in
    if ltb at (cur.start + dur) then ([], cur) else (cur ∷ rest.0, rest.1)

-- The fuel that `advance` needs.
unfoldable pub distance : ℕ → ℕ → Period → ℕ
distance dur at cur = suc ((at - cur.start) / dur)

-- The loop of groupByPeriod; the last period is appended behind it.
unfoldable pub group_from : ℕ → Period → List RatedMatch → List Period
group_from dur cur [] = cur ∷ []
group_from dur cur (m ∷ ms) =
    let r = advance (distance dur m.played_at cur) dur m.played_at cur in
    r.0 ++ group_from dur (record r.1 { matches = r.1.matches ++ m ∷ [] }) ms

-- time.Duration(periodDays) * 24 * time.Hour
unfoldable pub period_duration : ℕ → ℕ
period_duration period_days = period_days * day % 2 ^ 64

-- groupByPeriod. Midnight in UTC is the last multiple of a day. With a duration of zero or less the
-- boundary never passes the first match, and the inner loop does not end: that is `none`.
unfoldable pub group_by_period : List RatedMatch → ℕ → Option (List Period)
group_by_period [] period_days = some []
group_by_period (m ∷ ms) period_days =
    let dur = period_duration period_days in
    if eqb dur 0 || leb (2 ^ 63) dur
    then none
    else some (group_from dur (record { start = m.played_at / day * day; matches = [] }) (m ∷ ms))
