-- ===== src/Server/Queue/Progress.antt =====
-- How the line of a key runs empty.
use llm_stack.Base.{
  ℕ, zero, suc, ◌+◌, ◌≡◌, ◌∙◌, refl, sym, ap, [], ◌∷◌, none, some, Text, get, text_eq, nat_eq, ◌⊎◌,
  arith, inl, inr,
}
use llm_stack.Server.Queue.{Status, waiting, running, finished, retired, Queues, Reachable, next}
use llm_stack.Server.Queue.Invariant.{Inv, Reachable-Inv}
use llm_stack.Server.Queue.Laws.{queues_exact}
use llm_stack.Server.Queue.Refine.{Line, line, next_status, advanced}
use llm_stack.Server.Queue.Advance.{Settles, Settles-Step, advance, AllRetired-line}

-- How many steps a line still takes.
abbrev pub steps_of : Status → ℕ
steps_of waiting = 3
steps_of running = 2
steps_of finished = 1
steps_of retired = 0

abbrev pub remaining : Line → ℕ
remaining [] = 0
remaining ((i, a) ∷ l) = steps_of a + remaining l

-- A run of so many steps, none of them a call.
pub data Runs : ℕ → Queues → Queues → Type 0 where
  stop : {s : Queues} → Runs 0 s s
  go : {n : ℕ} {s t u : Queues} → Settles s t → Runs n t u → Runs (suc n) s u

-- From a line to an empty one.
abbrev Drains : Text → ℕ → Queues → Type 0
Drains k n s = (t : Queues) × Runs n s t × Reachable t × (line k t.jobs ≡ [])

remaining_step :
    (k : Text) (i : ℕ) (a b : Status) (rest l : Line)
    → next_status a ≡ some b
    → l ≡ advanced i b rest
    → steps_of a + remaining rest ≡ suc (remaining l)
remaining_step k i waiting b rest l e f = ground (arith, e, f)
remaining_step k i running b rest l e f = ground (arith, e, f)
remaining_step k i finished b rest l e f = ground (arith, e, f)
remaining_step k i retired b rest l e f = absurd (ground arith)

-- A drained line, or its first turn's next step with one step fewer to go.
Ready : Text → ℕ → Queues → Type 0
Ready k n s =
    (n ≡ 0 × line k s.jobs ≡ [])
    ⊎ ((m : ℕ) × (t : Queues) × (n ≡ suc m) × Settles s t × (remaining (line k t.jobs) ≡ m))

ready : (n : ℕ) (k : Text) (s : Queues) → Inv s → remaining (line k s.jobs) ≡ n → Ready k n s
unfolding Ready
ready n k s v e = by_line (line k s.jobs) refl
  where
    by_line : (l : Line) → line k s.jobs ≡ l → Ready k n s
    by_line [] f = inl (sym e ∙ ap remaining f, f)
    by_line ((i, a) ∷ rest) f =
        let next_one = advance k i a rest s v f in
        inr (
          remaining (line k next_one.target.jobs),
          next_one.target,
          sym e
              ∙ (ap remaining f
                  ∙ remaining_step k i a next_one.after rest (line k next_one.target.jobs)
                      next_one.steps next_one.then_line),
          next_one.step,
          refl,
        )

drain : (n : ℕ) (k : Text) (s : Queues) → Reachable s → remaining (line k s.jobs) ≡ n → Drains k n s
unfolding Ready
drain zero k s r e = elim (ready zero k s (Reachable-Inv r) e) [
  | inl (n, empty) ↦ (s, stop, r, empty)
  | inr (m, t, h, step, f) ↦ absurd (ground arith)
]
drain (suc n) k s r e = elim (ready (suc n) k s (Reachable-Inv r) e) [
  | inl (h, empty) ↦ absurd (ground arith)
  | inr (m, t, h, step, f) ↦
      let (u, run, reached, empty) =
        drain n k t (next r (Settles-Step step)) (ground (arith, h, f)) in
      (u, go step run, reached, empty)
]

-- From every reachable state, with no further call, the line of a key can run empty, in as many
-- steps as its turns have left (three for one that waits), and then its tail is gone from the map.
pub queue_drains :
    (s : Queues) (k : Text)
    → Reachable s
    → (t : Queues) × Runs (remaining (line k s.jobs)) s t × (get k t.queues ≡ none)
queue_drains s k r =
    let (t, run, reached, empty) = drain (remaining (line k s.jobs)) k s r refl in
    (t, run, (queues_exact t k reached).1 (AllRetired-line k t.jobs empty))
