-- ===== src/Web/Heatmap/Laws.antt =====
-- The grid of the heatmap: its weeks and days, and its colours.
use llm_stack.Base.{
  ℕ, zero, suc, ◌+◌, ◌-◌, ◌<◌, ◌⊎◌, inl, inr, some, get, text_eq, ◌≤◌, ◌≡◌, ◌∙◌, ◌↔◌, refl, ap,
  List, [], ◌∷◌, ◌++◌, Text, Map, length, take, drop, concat, arith,
}
use llm_stack.Server.History.{get_elem?}
use llm_stack.Web.Heatmap.{
  Daily, Cell, heatmap_days, tokens_of, cost_of, weekday, first_day, cells_from, cells, by_date,
  weeks_with, weeks, build_heatmap_weeks, heatmap_level,
}

-- The cell of a day, with what was reported for it.
abbrev pub cell_of : (ℕ → Text) → Map Text Daily → ℕ → Cell
cell_of iso m day = record {
  date = iso day;
  tokens = tokens_of (get (iso day) m);
  cost = cost_of (get (iso day) m);
}

take-drop : {A : Type 0} (n : ℕ) (xs : List A) → take n xs ++ drop n xs ≡ xs
take-drop zero xs = refl
take-drop (suc n) [] = refl
take-drop (suc n) (x ∷ xs) = ap (λ ys. x ∷ ys) (take-drop n xs)

length-drop : {A : Type 0} (n : ℕ) (xs : List A) → length (drop n xs) ≡ length xs - n
length-drop zero xs = omega arith
length-drop (suc n) [] = omega arith
length-drop (suc n) (x ∷ xs) = omega (arith, length-drop n xs)

weeks_with-concat :
    (fuel : ℕ) (cs : List Cell) → length cs ≤ fuel → concat (weeks_with fuel cs) ≡ cs
unfolding weeks_with
weeks_with-concat zero [] h = refl
weeks_with-concat zero (c ∷ cs) h = absurd (ground arith)
weeks_with-concat (suc fuel) [] h = refl
weeks_with-concat (suc fuel) (c ∷ cs) h =
    ap (λ ds. take 7 (c ∷ cs) ++ ds)
      (weeks_with-concat fuel (drop 7 (c ∷ cs)) (omega (arith, h, length-drop 6 cs)))
    ∙ take-drop 7 (c ∷ cs)

cells_from-length :
    (iso : ℕ → Text) (m : Map Text Daily) (day count : ℕ)
    → length (cells_from iso m day count) ≡ count
unfolding cells_from
cells_from-length iso m day zero = refl
cells_from-length iso m day (suc count) = ap suc (cells_from-length iso m (suc day) count)

cells_from-at :
    (iso : ℕ → Text) (m : Map Text Daily) (day count i : ℕ)
    → i < count
    → get_elem? (cells_from iso m day count) i ≡ some (cell_of iso m (day + i))
unfolding cells_from
cells_from-at iso m day zero i h = absurd (omega (arith, h))
cells_from-at iso m day (suc count) zero h =
    let same : day ≡ day + 0 = omega arith in ap (λ d. some (cell_of iso m d)) same
cells_from-at iso m day (suc count) (suc i) h =
    let same : suc day + i ≡ day + suc i = omega arith in
    cells_from-at iso m (suc day) count i (omega (arith, h)) ∙ ap (λ d. some (cell_of iso m d)) same

-- Weeks of seven cells, of which the last may be shorter.
abbrev pub AreWeeks : List (List Cell) → Type 0
AreWeeks [] = Unit
AreWeeks (w ∷ []) = (1 ≤ length w) × (length w ≤ 7)
AreWeeks (w ∷ v ∷ ws) = (length w ≡ 7) × AreWeeks (v ∷ ws)

take_whole :
    {A : Type 0} (n : ℕ) (xs : List A)
    → (length (take n xs) ≡ n) ⊎ ((length (take n xs) ≤ n) × (drop n xs ≡ []))
take_whole zero xs = inl refl
take_whole (suc n) [] = inr (omega arith, refl)
take_whole (suc n) (x ∷ xs) = elim (take_whole n xs) [
  | inl e ↦ inl (ap suc e)
  | inr (h, e) ↦ inr (omega (arith, h), e)
]

week-AreWeeks :
    (fuel : ℕ) (w ds : List Cell)
    → length ds ≤ fuel
    → 1 ≤ length w
    → (length w ≡ 7) ⊎ ((length w ≤ 7) × (ds ≡ []))
    → AreWeeks (weeks_with fuel ds)
    → AreWeeks (w ∷ weeks_with fuel ds)
unfolding weeks_with
week-AreWeeks zero w [] h one (inl e) rest = (one, omega (arith, e))
week-AreWeeks zero w [] h one (inr (e, _)) rest = (one, e)
week-AreWeeks zero w (d ∷ ds) h one c rest = absurd (omega (arith, h))
week-AreWeeks (suc fuel) w [] h one (inl e) rest = (one, omega (arith, e))
week-AreWeeks (suc fuel) w [] h one (inr (e, _)) rest = (one, e)
week-AreWeeks (suc fuel) w (d ∷ ds) h one (inl e) rest = (e, rest)
week-AreWeeks (suc fuel) w (d ∷ ds) h one (inr (_, none_left)) rest =
    absurd (ground (arith, none_left))

weeks_with-AreWeeks : (fuel : ℕ) (cs : List Cell) → length cs ≤ fuel → AreWeeks (weeks_with fuel cs)
unfolding weeks_with
weeks_with-AreWeeks zero cs h = tt
weeks_with-AreWeeks (suc fuel) [] h = tt
weeks_with-AreWeeks (suc fuel) (c ∷ cs) h =
    let fits : length (drop 6 cs) ≤ fuel = omega (arith, h, length-drop 6 cs) in
    week-AreWeeks fuel (c ∷ take 6 cs) (drop 6 cs) fits (omega arith) (take_whole 7 (c ∷ cs))
      (weeks_with-AreWeeks fuel (drop 6 cs) fits)

-- The grid: behind each other, its weeks hold each day from the first day to today once and in order,
-- with what was reported for the day; all weeks but the last have seven days; and the first day is a
-- Sunday, 181 to 187 days before today.
pub weeks_hold_window :
    (iso : ℕ → Text) (daily : List Daily) (today day : ℕ)
    → heatmap_days + 6 ≤ today
    → first_day today ≤ day
    → day ≤ today
    → (get_elem? (concat (build_heatmap_weeks iso daily today).0) (day - first_day today)
        ≡ some (cell_of iso (by_date daily []) day))
      × (length (concat (build_heatmap_weeks iso daily today).0) ≡ suc today - first_day today)
      × AreWeeks (build_heatmap_weeks iso daily today).0
      × (weekday (first_day today) ≡ 0)
      × (first_day today + 181 ≤ today)
      × (today ≤ first_day today + 187)
unfolding build_heatmap_weeks weeks cells
weeks_hold_window iso daily today day late from to =
    let m = by_date daily [] in
    let count = suc today - first_day today in
    let whole : concat (
          weeks_with (length (cells_from iso m (first_day today) count))
            (cells_from iso m (first_day today) count))
        ≡ cells_from iso m (first_day today) count =
      weeks_with-concat _ (cells iso daily today) (omega arith) in
    let back : first_day today + (day - first_day today) ≡ day = omega (arith, from) in
    (
      ap (λ l. get_elem? l (day - first_day today)) whole
          ∙ (cells_from-at iso m (first_day today) count (day - first_day today)
                (omega (arith, from, to))
              ∙ ap (λ d. some (cell_of iso m d)) back),
      ap length whole ∙ cells_from-length iso m (first_day today) count,
      weeks_with-AreWeeks _ (cells iso daily today) (omega arith),
      ground (arith, late),
      ground (arith, late),
      ground (arith, late),
    )

-- A day with more tokens is never paler, no level is above 4, and level 0 is exactly a day without
-- tokens, in a window that has some.
pub heatmap_level_lem :
    (more fewer most : ℕ)
    → fewer ≤ more
    → 1 ≤ most
    → (heatmap_level fewer most ≤ heatmap_level more most)
      × (heatmap_level more most ≤ 4)
      × ((heatmap_level more most ≡ 0) ↔ (more ≡ 0))
unfolding heatmap_level
heatmap_level_lem more fewer most h some_tokens =
    (ground (arith, h, some_tokens), ground arith, ground (arith, some_tokens))
