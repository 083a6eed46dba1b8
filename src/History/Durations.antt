-- ===== src/History/Durations.antt =====
-- server/history_pages.go `formatHistoryDuration`: a duration in days, hours, minutes and seconds.
use nvda_remote_go.Prelude.{
  ℕ, zero, suc, ◌+◌, ◌*◌, ◌-◌, ◌/◌, ◌%◌, ◌<◌, ◌≡◌, Bytes, Bool, List, [], ◌∷◌, ◌++◌, codes, ℤ, pos,
  negsuc, arith, ltb, not, ◌∙◌, ◌||◌, if◌then◌else◌,
}

abbrev pub second : ℕ
second = 1000000000

abbrev pub max_duration : ℕ
max_duration = 9223372036854775807

-- `Duration.Round` to a second, of a duration that is positive: half a second goes up, and a result
-- out of range is the greatest duration.
unfoldable pub round_second : ℕ → ℕ
round_second d =
    let r = d % second in
    if ltb (r + r) second
    then d - r
    else if ltb max_duration (d + (second - r))
    then max_duration
    else d + (second - r)

pub data Scale : Type 0 where
  day hour minute one_second : Scale

-- The abbreviations that the page shows.
abbrev pub scale_text : Scale → Bytes
scale_text day = codes "j"
scale_text hour = codes "h"
scale_text minute = codes "min"
scale_text one_second = codes "s"

-- A number and its unit.
pub record Part : Type 0 where
  pub number : ℕ
  pub unit : Scale

abbrev part_if : Bool → ℕ → Scale → List Part → List Part
part_if b n u rest = if b then record { number = n; unit = u } ∷ rest else rest

abbrev any_of : ℕ → ℕ → ℕ → Bool
any_of days hours minutes = ltb 0 days || ltb 0 hours || ltb 0 minutes

abbrev parts_of : ℕ → ℕ → ℕ → ℕ → List Part
parts_of days hours minutes seconds = part_if (ltb 0 days) days day (
    part_if (ltb 0 hours) hours hour (
      part_if (ltb 0 minutes) minutes minute
        (part_if (ltb 0 seconds || not (any_of days hours minutes)) seconds one_second [])))

-- The parts that are appended, of the rounded duration.
unfoldable pub duration_parts : ℕ → List Part
duration_parts d =
    let of_day = d % (86400 * second) in
    let of_hour = of_day % (3600 * second) in
    parts_of (d / (86400 * second)) (of_day / (3600 * second)) (of_hour / (60 * second))
      ((of_hour % (60 * second)) / second)

module _ (decimal : ℕ → Bytes) where
  abbrev part_text : Part → Bytes
  part_text p = decimal p.number ++ 32 ∷ scale_text p.unit

  abbrev join_parts : List Part → Bytes
  join_parts [] = []
  join_parts (p ∷ []) = part_text p
  join_parts (p ∷ q ∷ ps) = part_text p ++ 32 ∷ join_parts (q ∷ ps)

  -- `decimal` is `strconv.FormatInt`.
  unfoldable pub format_history_duration : ℤ → Bytes
  unfolding round_second duration_parts
  format_history_duration (pos zero) = codes "0 s"
  format_history_duration (pos (suc n)) = join_parts (duration_parts (round_second (suc n)))
  format_history_duration (negsuc n) = codes "0 s"

abbrev pub scale_seconds : Scale → ℕ
scale_seconds day = 86400
scale_seconds hour = 3600
scale_seconds minute = 60
scale_seconds one_second = 1

-- The seconds that a list of parts says.
unfoldable pub total_seconds : List Part → ℕ
total_seconds [] = 0
total_seconds (p ∷ ps) = p.number * scale_seconds p.unit + total_seconds ps

-- Each part is less than the one before it: there are fewer than `bound` seconds from it on.
unfoldable pub IsCarried : ℕ → List Part → Type 0
IsCarried bound [] = Unit {0}
IsCarried bound (p ∷ ps) =
    (p.number * scale_seconds p.unit < bound) × IsCarried (scale_seconds p.unit) ps

total-parts_of :
    (d h m s : ℕ) → total_seconds (parts_of d h m s) ≡ d * 86400 + (h * 3600 + (m * 60 + s))
unfolding total_seconds
total-parts_of d h m s = ground arith

split_seconds :
    (d : ℕ)
    → d / (86400 * second) * 86400
        + ((d % (86400 * second)) / (3600 * second) * 3600
            + ((d % (86400 * second) % (3600 * second)) / (60 * second) * 60
                + (d % (86400 * second) % (3600 * second) % (60 * second)) / second))
      ≡ d / second
split_seconds d = omega arith

-- The parts of a duration add up to its whole seconds.
pub total-duration_parts : (d : ℕ) → total_seconds (duration_parts d) ≡ d / second
unfolding duration_parts
total-duration_parts d = total-parts_of _ _ _ _ ∙ split_seconds d

parts_of-IsCarried :
    (bound d h m s : ℕ)
    → d * 86400 < bound
    → h < 24
    → m < 60
    → s < 60
    → (d ≡ 0 → h * 3600 < bound)
    → (d ≡ 0 → h ≡ 0 → m * 60 < bound)
    → (d ≡ 0 → h ≡ 0 → m ≡ 0 → s < bound)
    → IsCarried bound (parts_of d h m s)
unfolding IsCarried
parts_of-IsCarried bound d h m s a b c e f g i = ground (arith, a, b, c, e, f, g, i)

-- Every part is less than one of the unit before it, and the first is no more than the duration.
pub duration_parts-IsCarried : (d : ℕ) → IsCarried (suc (d / second)) (duration_parts d)
unfolding duration_parts
duration_parts-IsCarried d =
    let of_day = d % (86400 * second) in
    let of_hour = of_day % (3600 * second) in
    parts_of-IsCarried (suc (d / second)) (d / (86400 * second)) (of_day / (3600 * second))
      (of_hour / (60 * second)) ((of_hour % (60 * second)) / second) (omega arith) (omega arith)
      (omega arith) (omega arith) (λ a. omega arith) (λ a b. omega arith) (λ a b c. omega arith)

-- Rounding moves a duration by half a second at most, to a whole second, where the result is in
-- range.
pub round_second-nearest :
    (d : ℕ)
    → d + second < max_duration
    → (round_second d % second ≡ 0)
      × (2 * round_second d < 2 * d + second + 1)
      × (2 * d < 2 * round_second d + second)
unfolding round_second
round_second-nearest d h = ground (arith, h)
