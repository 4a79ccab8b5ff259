-- ===== src/Server/Queue/Moves.antt =====
-- What the steps of the queues make of one job.
use llm_stack.Base.{
  ℕ, ◌≡◌, ◌≢◌, ◌∙◌, sym, ap, subst, true, false, List, [], ◌∷◌, Option, some, Text, ◌==◌, text_eq,
  nat_eq, eq_of, arith, Bool-cases, Option-cases, inl, inr,
}
use llm_stack.Server.Queue.{
  Status, Job, Queues, move, job, serialize, start, finish, retire, starting, finishing, retiring,
  drop_tail,
}
use llm_stack.Server.Queue.Invariant.{Inv}
use llm_stack.Server.Queue.Advance.{job-below}

-- Job `k` after a step of job `i`: the same, or with the status that the step gives.
pub data Moved (f : Status → Option Status) (i k : ℕ) (j : Job) (ks : List Job) : Type 0 where
  stays : i ≢ k → job k ks ≡ some j → Moved f i k j ks
  moves :
      i ≡ k
      → (st : Status) → f j.status ≡ some st
      → job k ks ≡ some (record j { status = st })
      → Moved f i k j ks

later :
    (f : Status → Option Status) (i k : ℕ) (j o : Job) (ks : List Job)
    → (o.id == k) ≡ false
    → Moved f i k j ks
    → Moved f i k j (o ∷ ks)
unfolding job
later f i k j o ks other (stays ne e) = stays ne (rw other e)
later f i k j o ks other (moves is st to e) = moves is st to (rw other e)

pub job-Moved :
    (f : Status → Option Status) (i k : ℕ) (j : Job) (js ks : List Job)
    → move f i js ≡ some ks
    → job k js ≡ some j
    → Moved f i k j ks
unfolding move job
job-Moved f i k j [] ks m e = absurd (ground (arith, e))
job-Moved f i k j (o ∷ os) ks m e = elim (Bool-cases (o.id == i)) [
  | inl here ↦ elim (Option-cases (f o.status)) [
    | inl stuck ↦ absurd (ground (arith, here, stuck, m))
    | inr (st, to) ↦
        let after : ks ≡ record o { status = st } ∷ os = ground (arith, here, to, m) in
        subst (Moved f i k j) (sym after) (elim (Bool-cases (o.id == k)) [
          | inl same ↦
              let me : o ≡ j = ground (arith, same, e) in
              moves (sym (eq_of o.id i here) ∙ eq_of o.id k same) st
                (ap (λ (x : Job). f x.status) (sym me) ∙ to)
                (rw same (ap (λ (x : Job). some (record x { status = st })) me))
          | inr apart ↦
              stays
                (λ same. absurd (ground (arith, apart, subst (λ n. (o.id == n) ≡ true) same here)))
                (rw apart (rw apart at e))
        ])
  ]
  | inr other ↦ elim (Option-cases (move f i os)) [
    | inl stuck ↦ absurd (ground (arith, other, stuck, m))
    | inr (rest, moved) ↦
        let after : ks ≡ o ∷ rest = ground (arith, other, moved, m) in
        subst (Moved f i k j) (sym after) (elim (Bool-cases (o.id == k)) [
          | inl same ↦
              stays
                (λ is.
                  absurd (ground (arith, other, subst (λ n. (o.id == n) ≡ true) (sym is) same)))
                (rw same (rw same at e))
          | inr apart ↦ later f i k j o rest apart (job-Moved f i k j os rest moved (rw apart at e))
        ])
  ]
]

pub serialize-job :
    (key : Text) (k : ℕ) (j : Job) (q : Queues)
    → Inv q
    → job k q.jobs ≡ some j
    → job k (serialize key q).jobs ≡ some j
unfolding serialize job
serialize-job key k j q v e =
    let lt = job-below k q.next j q.jobs v.below e in ground (arith, lt, e)

pub start-Moved :
    (i k : ℕ) (j : Job) (q t : Queues)
    → start i q ≡ some t
    → job k q.jobs ≡ some j
    → Moved starting i k j t.jobs
unfolding start
start-Moved i k j q t e at = elim (Option-cases (job i q.jobs)) [
  | inl gone ↦ absurd (ground (arith, gone, e))
  | inr (o, is) ↦ elim (Option-cases (move starting i q.jobs)) [
    | inl stuck ↦ absurd (ground (arith, is, stuck, e))
    | inr (ks, moved) ↦
        let to : record q { jobs = ks } ≡ t = ground (arith, is, moved, e) in
        subst (λ (x : Queues). Moved starting i k j x.jobs) to
          (job-Moved starting i k j q.jobs ks moved at)
  ]
]

pub finish-Moved :
    (i k : ℕ) (j : Job) (q t : Queues)
    → finish i q ≡ some t
    → job k q.jobs ≡ some j
    → Moved finishing i k j t.jobs
unfolding finish
finish-Moved i k j q t e at = elim (Option-cases (move finishing i q.jobs)) [
  | inl stuck ↦ absurd (ground (arith, stuck, e))
  | inr (ks, moved) ↦
      let to : record q { jobs = ks } ≡ t = ground (arith, moved, e) in
      subst (λ (x : Queues). Moved finishing i k j x.jobs) to
        (job-Moved finishing i k j q.jobs ks moved at)
]

pub retire-Moved :
    (i k : ℕ) (j : Job) (q t : Queues)
    → retire i q ≡ some t
    → job k q.jobs ≡ some j
    → Moved retiring i k j t.jobs
unfolding retire
retire-Moved i k j q t e at = elim (Option-cases (job i q.jobs)) [
  | inl gone ↦ absurd (ground (arith, gone, e))
  | inr (o, is) ↦ elim (Option-cases (move retiring i q.jobs)) [
    | inl stuck ↦ absurd (ground (arith, is, stuck, e))
    | inr (ks, moved) ↦
        let to : record q { jobs = ks; queues = drop_tail i o.key q.queues } ≡ t =
          ground (arith, is, moved, e) in
        subst (λ (x : Queues). Moved retiring i k j x.jobs) to
          (job-Moved retiring i k j q.jobs ks moved at)
  ]
]
