-- ===== src/Ratings/Periods/Windows.antt =====
-- The periods of groupByPeriod (pkg/rating/glicko2.go): the loop that advances the boundary ends, no
-- match is lost or moved, and each lies in the window of its period.
use mathlib.Core.List.{append_assoc, append-nil}
use native.Mathlib.Nat.{div-add-mod, mod-lt}
use ttbot_repo_placeholder.Prelude.{
  ℕ, zero, suc, ◌+◌, ◌-◌, ◌*◌, ◌/◌, ◌≤◌, ◌<◌, ◌%◌, ◌^◌, some, ◌≡◌, refl, sym, ◌∙◌, ap, false, List,
  [], ◌∷◌, ◌++◌, arith, All, All-append, ltb, if_case,
}
use ttbot_repo_placeholder.Sort.{IsSorted}
use ttbot_repo_placeholder.Ratings.{RatedMatch, played_before}
use ttbot_repo_placeholder.Ratings.Periods.{
  day, Period, advance, distance, group_from, period_duration, group_by_period,
}

-- The matches of all periods.
abbrev pub matches_of : List Period → List RatedMatch
matches_of [] = []
matches_of (p ∷ ps) = p.matches ++ matches_of ps

-- The period lasts from its start for `dur`, and its matches were played then.
abbrev pub HasWindow : ℕ → Period → Type 0
HasWindow dur p = All (λ m. (p.start ≤ m.played_at) × (m.played_at < p.start + dur)) p.matches

-- The first period starts at the time, and each next one where the last one ends.
abbrev pub IsFrom : ℕ → ℕ → List Period → Type 0
IsFrom dur at [] = Unit
IsFrom dur at (p ∷ ps) = (p.start ≡ at) × IsFrom dur (at + dur) ps

-- Midnight before the first match.
abbrev pub first_day : List RatedMatch → ℕ
first_day [] = 0
first_day (m ∷ ms) = m.played_at / day * day

abbrev IsSince : ℕ → List RatedMatch → Type 0
IsSince at ms = All (λ m. at ≤ m.played_at) ms

IsSince-sorted :
    (m : RatedMatch) (ms : List RatedMatch) (at : ℕ)
    → at ≤ m.played_at
    → All (λ y. played_before y m ≡ false) ms
    → IsSince at ms
unfolding played_before
IsSince-sorted m [] at h k = tt
IsSince-sorted m (n ∷ ms) at h k = (ground (arith, k.0), IsSince-sorted m ms at h k.1)

matches_of-append : (ps qs : List Period) → matches_of (ps ++ qs) ≡ matches_of ps ++ matches_of qs
matches_of-append [] qs = refl
matches_of-append (p ∷ ps) qs =
    ap (λ l. p.matches ++ l) (matches_of-append ps qs) ∙ sym (append_assoc p.matches _ _)

module _ (dur : ℕ) (positive : 0 < dur) where
  -- With the fuel of its distance, the loop ends in front of the time.
  advance_ends :
      (fuel at : ℕ) (cur : Period)
      → at - cur.start < fuel * dur
      → cur.start ≤ at
      → ((advance fuel dur at cur).1.start ≤ at) × (at < (advance fuel dur at cur).1.start + dur)
  unfolding advance
  advance_ends zero at cur h k = omega (arith, h)
  advance_ends (suc fuel) at cur h k =
      if_case {R = List Period × Period} (λ r. (r.1.start ≤ at) × (at < r.1.start + dur))
        (ltb at (cur.start + dur)) (λ before. (k, ground (arith, before)))
        (λ after.
          let passed : cur.start + dur ≤ at = ground (arith, after) in
          advance_ends fuel at (record { start = cur.start + dur; matches = [] })
            (omega (arith, h, passed, positive)) passed)

  distance_enough : (at : ℕ) (cur : Period) → at - cur.start < distance dur at cur * dur
  unfolding distance
  distance_enough at cur =
      omega (arith, div-add-mod (at - cur.start) dur, mod-lt (at - cur.start) positive)

  Advanced : Period → List Period → List Period × Period → Type 0
  Advanced cur ps r =
      (matches_of r.0 ++ r.1.matches ≡ cur.matches)
      × (All (HasWindow dur) r.0 × HasWindow dur r.1)
      × (IsFrom dur r.1.start ps → IsFrom dur cur.start (r.0 ++ ps))

  -- The closed periods and the open one have the matches, and follow each other.
  advance-Advanced :
      (fuel at : ℕ) (cur : Period) (ps : List Period)
      → HasWindow dur cur
      → Advanced cur ps (advance fuel dur at cur)
  unfolding advance Advanced
  advance-Advanced zero at cur ps h = (refl, (tt, h), λ k. k)
  advance-Advanced (suc fuel) at cur ps h =
      if_case (Advanced cur ps) (ltb at (cur.start + dur)) (λ _. (refl, (tt, h), λ k. k))
        (λ _.
          let next : Period = record { start = cur.start + dur; matches = [] } in
          let rest = advance-Advanced fuel at next ps tt in
          (
            append_assoc cur.matches _ _ ∙ ap (λ ms. cur.matches ++ ms) rest.0 ∙ append-nil _,
            ((h, rest.1.0), rest.1.1),
            λ k. (refl, rest.2 k),
          ))

  Grouped : ℕ → List RatedMatch → List Period → Type 0
  Grouped at ms ps = (matches_of ps ≡ ms) × All (HasWindow dur) ps × IsFrom dur at ps

  group_from-Grouped :
      (cur : Period) (ms : List RatedMatch)
      → HasWindow dur cur
      → IsSorted played_before ms
      → IsSince cur.start ms
      → Grouped cur.start (cur.matches ++ ms) (group_from dur cur ms)
  unfolding group_from Grouped Advanced
  group_from-Grouped cur [] w h k = (refl, (w, tt), (refl, tt))
  group_from-Grouped cur (m ∷ ms) w h k =
      let fuel = distance dur m.played_at cur in
      let r = advance fuel dur m.played_at cur in
      let ends = advance_ends fuel m.played_at cur (distance_enough m.played_at cur) k.0 in
      let next : Period = record r.1 { matches = r.1.matches ++ m ∷ [] } in
      let step = advance-Advanced fuel m.played_at cur (group_from dur next ms) w in
      let rest =
        group_from-Grouped next ms (All-append _ r.1.matches _ step.1.1 (ends, tt)) h.1
          (IsSince-sorted m ms r.1.start ends.0 h.0) in
      (
        matches_of-append r.0 _
            ∙ ap (λ l. matches_of r.0 ++ l) rest.0
            ∙ ap (λ l. matches_of r.0 ++ l) (append_assoc r.1.matches (m ∷ []) ms)
            ∙ sym (append_assoc (matches_of r.0) r.1.matches (m ∷ ms))
            ∙ ap (λ l. l ++ m ∷ ms) step.0,
        All-append _ r.0 _ step.1.0 rest.1,
        step.2 rest.2,
      )

-- The matches by periods of the given length: all of them, in their order, each in the window of its
-- period; the first period starts at the midnight before the first match, and each next one where the
-- last one ends.
abbrev pub IsGrouping : ℕ → List RatedMatch → List Period → Type 0
IsGrouping dur ms ps = (matches_of ps ≡ ms) × All (HasWindow dur) ps × IsFrom dur (first_day ms) ps

-- On matches in the order of their times and periods of one to 106,751 days, the most that an int64 of
-- nanoseconds can hold, groupByPeriod ends: it loses and moves no match, each match lies in the window of
-- its period, the first period starts at the midnight before the first match, and each next one, the
-- empty ones included, where the last one ends.
pub group_by_period_windows :
    (ms : List RatedMatch) (period_days : ℕ)
    → 0 < period_days
    → period_days ≤ 106751
    → IsSorted played_before ms
    → (ps : List Period) × (group_by_period ms period_days ≡ some ps)
      × IsGrouping (period_days * day) ms ps
unfolding group_by_period period_duration Grouped
group_by_period_windows [] period_days h b k = ([], refl, (refl, tt, tt))
group_by_period_windows (m ∷ ms) period_days h b k =
    let start = first_day (m ∷ ms) in
    let since : start ≤ m.played_at = omega arith in
    let dur = period_days * day in
    let whole : dur % 2 ^ 64 ≡ dur = omega (arith, b) in
    let cur : Period = record { start = start; matches = [] } in
    (
      group_from dur cur (m ∷ ms),
      ground (arith, whole, h, b),
      group_from-Grouped dur (omega (arith, h)) cur (m ∷ ms) tt k
          (since, IsSince-sorted m ms start since k.0),
    )
