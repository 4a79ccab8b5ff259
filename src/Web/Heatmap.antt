-- ===== src/Web/Heatmap.antt =====
-- pat-service/web/src/main.jsx: `buildHeatmapWeeks` and `heatmapLevel`. A day is its number since
-- 1 January 1970, a Thursday; `iso` prints one as `toISOString` does.
-- A cost is the text of its number.
pub mod Laws
use llm_stack.Base.{
  ℕ, zero, suc, ◌+◌, ◌-◌, ◌*◌, ◌%◌, max, Bool, true, false, ◌||◌, List, [], ◌∷◌, Option, none, some,
  Text, codes, Map, get, put, ◌==◌, text_eq, nat_beq, ltb, length, take, drop, if◌then◌else◌,
}

pub record Daily : Type 0 where
  pub date : Text
  pub prompt_tokens : ℕ
  pub completion_tokens : ℕ
  pub cost_amount : Text

pub record Cell : Type 0 where
  pub date : Text
  pub tokens : ℕ
  pub cost : Text

abbrev pub heatmap_days : ℕ
heatmap_days = 182

-- getUTCDay: 0 for a Sunday.
abbrev pub weekday : ℕ → ℕ
weekday day = (day + 4) % 7

-- new Map(daily.map((d) => [d.date, d]))
pub by_date : List Daily → Map Text Daily → Map Text Daily
by_date [] m = m
by_date (d ∷ ds) m = by_date ds (put d.date d m)

-- The first cell, of a day that has `heatmap_days` and a week before it.
abbrev pub first_day : ℕ → ℕ
first_day today = today - (heatmap_days - 1) - weekday (today - (heatmap_days - 1))

abbrev pub tokens_of : Option Daily → ℕ
tokens_of none = 0
tokens_of (some d) = d.prompt_tokens + d.completion_tokens

abbrev pub cost_of : Option Daily → Text
cost_of none = codes "0"
cost_of (some d) = d.cost_amount

-- The loop over the days: `count` cells from `day` on.
pub cells_from : (ℕ → Text) → Map Text Daily → ℕ → ℕ → List Cell
cells_from iso m day zero = []
cells_from iso m day (suc count) =
    record {
      date = iso day;
      tokens = tokens_of (get (iso day) m);
      cost = cost_of (get (iso day) m);
    }
    ∷ cells_from iso m (suc day) count

pub max_of : ℕ → List Cell → ℕ
max_of m [] = m
max_of m (c ∷ cs) = max_of (max m c.tokens) cs

-- cells.slice(i, i + 7) for i = 0, 7, …: each week takes a cell, so as many passes as cells do.
pub weeks_with : ℕ → List Cell → List (List Cell)
weeks_with zero cells = []
weeks_with (suc fuel) [] = []
weeks_with (suc fuel) (c ∷ cs) = take 7 (c ∷ cs) ∷ weeks_with fuel (drop 7 (c ∷ cs))

pub weeks : List Cell → List (List Cell)
unfolding weeks_with
weeks cells = weeks_with (length cells) cells

pub cells : (ℕ → Text) → List Daily → ℕ → List Cell
unfolding cells_from by_date
cells iso daily today =
    cells_from iso (by_date daily []) (first_day today) (suc today - first_day today)

pub build_heatmap_weeks : (ℕ → Text) → List Daily → ℕ → List (List Cell) × ℕ
unfolding weeks cells max_of
build_heatmap_weeks iso daily today =
    (weeks (cells iso daily today), max_of 0 (cells iso daily today))

-- `tokens / max` compared with 0.75, 0.5 and 0.25, multiplied out.
pub heatmap_level : ℕ → ℕ → ℕ
heatmap_level tokens most =
    if nat_beq tokens 0 || nat_beq most 0
    then 0
    else if ltb (3 * most) (4 * tokens)
    then 4
    else if ltb most (2 * tokens)
    then 3
    else if ltb most (4 * tokens)
    then 2
    else 1
