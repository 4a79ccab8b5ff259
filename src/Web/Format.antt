-- ===== src/Web/Format.antt =====
-- pat-service/web/src/main.jsx: `formatDuration`. Instants are milliseconds.
use llm_stack.Base.{
  ℕ, ◌+◌, ◌-◌, ◌*◌, ◌/◌, ◌%◌, ◌≤◌, ◌<◌, ◌≡◌, ◌⊎◌, inl, inr, refl, ◌++◌, Text, codes, decimal, ltb,
  if◌then◌else◌, arith, if_ind,
}

-- formatDuration, before it is printed.
pub data Duration : Type 0 where
  under_a_minute : Duration
  in_minutes : ℕ → Duration
  in_hours : (hours minutes : ℕ) → Duration

-- Math.round(ms / 60000)
abbrev pub round_minutes : ℕ → ℕ
round_minutes ms = (ms + 30000) / 60000

pub duration : ℕ → ℕ → Duration
duration started ended =
    if ltb ended (started + 60000)
    then under_a_minute
    else if ltb (round_minutes (ended - started)) 60
    then in_minutes (round_minutes (ended - started))
    else in_hours (round_minutes (ended - started) / 60) (round_minutes (ended - started) % 60)

pub format_duration : Duration → Text
format_duration under_a_minute = codes "<1m"
format_duration (in_minutes m) = decimal m ++ codes "m"
format_duration (in_hours h m) = decimal h ++ (codes "h " ++ (decimal m ++ codes "m"))

abbrev pub minutes : Duration → ℕ
minutes under_a_minute = 0
minutes (in_minutes m) = m
minutes (in_hours h m) = 60 * h + m

-- The minutes that are shown beside hours are fewer than 60, and those shown alone too.
abbrev pub IsRead : Duration → Type 0
IsRead under_a_minute = Unit
IsRead (in_minutes m) = m < 60
IsRead (in_hours h m) = m < 60 × (1 ≤ h)

-- What is shown is within half a minute of the time between the two instants, or says that it is
-- under a minute when it is; minutes never reach 60.
pub duration_near :
    (started ended : ℕ)
    → IsRead (duration started ended)
      × ((duration started ended ≡ under_a_minute × ended < started + 60000)
          ⊎ ((started + 60000 * minutes (duration started ended) ≤ ended + 30000)
              × (ended < started + 60000 * minutes (duration started ended) + 30000)))
unfolding duration
duration_near started ended =
    if_ind Near (ltb ended (started + 60000)) _ _ (λ short. (tt, inl (refl, ground (arith, short))))
      (λ long.
        if_ind Near (ltb (round_minutes (ended - started)) 60) _ _
          (λ few. (ground (arith, few), inr (ground (arith, long), ground (arith, long))))
          (λ many. (
            (ground arith, ground (arith, many)),
            inr (ground (arith, long), ground (arith, long)),
          )))
  where
    Near : Duration → Type 0
    Near d =
        IsRead d
        × ((d ≡ under_a_minute × ended < started + 60000)
            ⊎ ((started + 60000 * minutes d ≤ ended + 30000)
                × (ended < started + 60000 * minutes d + 30000)))
