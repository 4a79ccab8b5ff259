-- ===== src/Server/Queue/Jobs.antt =====
-- The running jobs of `serialize`, as the turns that they are.
use llm_stack.Base.{
  ℕ, ◌≡◌, ◌≢◌, ◌∙◌, refl, sym, ap, subst, List, [], ◌∷◌, Option, none, some, Text, ◌==◌, text_eq,
  nat_eq, eq_of, Map, arith, Bool-cases, Option-cases, inl, inr,
}
use llm_stack.Server.Queue.{
  Status, running, retired, Job, Queues, move, job, serialize, start, finish, retire, starting,
  finishing, retiring, drop_tail,
}
use llm_stack.Server.Queue.Chain.{AllRetired, Chain}
use llm_stack.Server.Queue.Invariant.{Inv}
use llm_stack.Server.Queue.Moves.{stays, moves, job-Moved}
use llm_stack.Server.Queue.Advance.{job-below}

-- Job `i` runs, for this chat.
pub record Runs (q : Queues) (i : ℕ) (key : Text) : Type 0 where
  pub self : Job
  pub found : job i q.jobs ≡ some self
  pub runs : self.status ≡ running
  pub of_chat : self.key ≡ key

older-retired :
    (k : Text) (i : ℕ) (j : Job) (js : List Job)
    → AllRetired k js
    → job i js ≡ some j
    → j.key ≡ k
    → j.status ≡ retired
unfolding job
older-retired k i j [] h e same = absurd (ground arith)
older-retired k i j (o ∷ os) h e same = elim (Bool-cases (o.id == i)) [
  | inl is ↦
      let me : o ≡ j = ground arith in
      subst (λ (x : Job). x.status ≡ retired) me (h.0 (ap (λ (x : Job). x.key) me ∙ same))
  | inr other ↦ older-retired k i j os h.1 (ground arith) same
]

running_once :
    (i k : ℕ) (a b : Job) (js : List Job)
    → Chain js
    → job i js ≡ some a
    → job k js ≡ some b
    → a.key ≡ b.key
    → a.status ≡ running
    → b.status ≡ running
    → i ≡ k
unfolding job
running_once i k a b [] c e f same ra rb = absurd (ground arith)
running_once i k a b (o ∷ os) (l, c) e f same ra rb = elim (Bool-cases (o.id == i)) [
  | inl first ↦ elim (Bool-cases (o.id == k)) [
    | inl second ↦ sym (eq_of o.id i first) ∙ eq_of o.id k second
    | inr second ↦
        let me : o ≡ a = ground arith in
        let older : AllRetired o.key os =
          l.order (λ w. absurd (ground (arith, ap (λ (x : Job). x.status) me, w, ra))) in
        absurd (
          ground (
            arith,
            older-retired o.key k b os older (ground arith)
                (sym same ∙ ap (λ (x : Job). x.key) (sym me)),
            rb,
          ))
  ]
  | inr first ↦ elim (Bool-cases (o.id == k)) [
    | inl second ↦
        let me : o ≡ b = ground arith in
        let older : AllRetired o.key os =
          l.order (λ w. absurd (ground (arith, ap (λ (x : Job). x.status) me, w, rb))) in
        absurd (
          ground (
            arith,
            older-retired o.key i a os older (ground arith)
                (same ∙ ap (λ (x : Job). x.key) (sym me)),
            ra,
          ))
    | inr second ↦ running_once i k a b os c (ground arith) (ground arith) same ra rb
  ]
]

-- At most one job of a chat runs.
pub Runs-once : (q : Queues) (i k : ℕ) (key : Text) → Inv q → Runs q i key → Runs q k key → i ≡ k
Runs-once q i k key v a b =
    running_once i k a.self b.self q.jobs v.chain a.found b.found (a.of_chat ∙ sym b.of_chat) a.runs
      b.runs

move-job :
    (f : Status → Option Status) (i k : ℕ) (j : Job) (js ks : List Job)
    → move f i js ≡ some ks
    → job k js ≡ some j
    → (i ≡ k → f j.status ≡ none)
    → job k ks ≡ some j
move-job f i k j js ks m e h = elim (job-Moved f i k j js ks m e) [
  | stays ne at ↦ at
  | moves same st to at ↦ absurd (ground (arith, h same, to))
]

moved-Runs :
    (f : Status → Option Status) (i k : ℕ) (key : Text) (q : Queues) (ks : List Job)
    (m : Map Text ℕ)
    → move f i q.jobs ≡ some ks
    → (i ≡ k → f running ≡ none)
    → Runs q k key
    → Runs (record q { jobs = ks; queues = m }) k key
moved-Runs f i k key q ks m e h r = record {
  self = r.self;
  found = move-job f i k r.self q.jobs ks e r.found (λ same. ap f r.runs ∙ h same);
  runs = r.runs;
  of_chat = r.of_chat;
}

-- A running job goes on under every step of the queues but its own `finish`.
pub serialize-Runs :
    (key k : Text) (i : ℕ) (q : Queues) → Inv q → Runs q i k → Runs (serialize key q) i k
unfolding serialize job
serialize-Runs key k i q v r = record {
  self = r.self;
  found = let lt = job-below i q.next r.self q.jobs v.below r.found in ground (arith, lt, r.found);
  runs = r.runs;
  of_chat = r.of_chat;
}

pub start-Runs :
    (i k : ℕ) (key : Text) (q t : Queues) → start i q ≡ some t → Runs q k key → Runs t k key
unfolding start
start-Runs i k key q t e r = elim (Option-cases (job i q.jobs)) [
  | inl gone ↦ absurd (ground (arith, gone, e))
  | inr (j, at) ↦ elim (Option-cases (move starting i q.jobs)) [
    | inl stuck ↦ absurd (ground (arith, at, stuck, e))
    | inr (ks, moved) ↦
        let to : record q { jobs = ks } ≡ t = ground (arith, at, moved, e) in
        subst (λ x. Runs x k key) to (moved-Runs starting i k key q ks q.queues moved (λ _. refl) r)
  ]
]

pub finish-Runs :
    (i k : ℕ) (key : Text) (q t : Queues)
    → i ≢ k
    → finish i q ≡ some t
    → Runs q k key
    → Runs t k key
unfolding finish
finish-Runs i k key q t ne e r = elim (Option-cases (move finishing i q.jobs)) [
  | inl stuck ↦ absurd (ground (arith, stuck, e))
  | inr (ks, moved) ↦
      let to : record q { jobs = ks } ≡ t = ground (arith, moved, e) in
      subst (λ x. Runs x k key) to
        (moved-Runs finishing i k key q ks q.queues moved (λ same. absurd (ne same)) r)
]

pub retire-Runs :
    (i k : ℕ) (key : Text) (q t : Queues) → retire i q ≡ some t → Runs q k key → Runs t k key
unfolding retire
retire-Runs i k key q t e r = elim (Option-cases (job i q.jobs)) [
  | inl gone ↦ absurd (ground (arith, gone, e))
  | inr (j, at) ↦ elim (Option-cases (move retiring i q.jobs)) [
    | inl stuck ↦ absurd (ground (arith, at, stuck, e))
    | inr (ks, moved) ↦
        let to : record q { jobs = ks; queues = drop_tail i j.key q.queues } ≡ t =
          ground (arith, at, moved, e) in
        subst (λ x. Runs x k key) to
          (moved-Runs retiring i k key q ks (drop_tail i j.key q.queues) moved (λ _. refl) r)
  ]
]
