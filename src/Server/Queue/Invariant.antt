-- ===== src/Server/Queue/Invariant.antt =====
-- The invariant of the queues: the jobs of each key stand in a chain, and `queues` names its tail.
-- Every call of `serialize` and every settling of a promise keeps it.
use llm_stack.Base.{
  ℕ, suc, ◌<◌, ◌≡◌, ◌≢◌, ◌∙◌, refl, sym, subst, true, false, ◌&&◌, List, [], ◌∷◌, Option, none,
  some, Text, Map, get, get-nil, get-put, get-delete, eq_refl, eq_of, ◌==◌, text_eq, nat_eq,
  if◌then◌else◌, All, arith, Bool-cases, Option-cases, inl, inr,
}
use llm_stack.Server.Queue.{
  Status, retired, Job, Queues, serialize, start, finish, retire, starting, finishing, retiring,
  is_retired, is_tail, drop_tail, move, job, Step, called, started, finishes, retires, Reachable,
  here, next,
}
use llm_stack.Server.Queue.Chain.{
  AllRetired, newest, tail_of, tail_if, Waits, Link, Chain, Moved, IsForward, Moved-Chain,
  Moved-below,
}
use llm_stack.Server.Queue.Chain
use llm_stack.Server.Queue.Safe.{
  tail-AllRetired, starting-IsForward, finishing-IsForward, retiring-IsForward, start-Moved,
  move-Moved,
}

pub record Inv (s : Queues) : Type 0 where
  pub chain : Chain s.jobs
  pub below : All (λ o. o.id < s.next) s.jobs
  pub tails : (k : Text) → get k s.queues ≡ tail_of k s.jobs

-- A step that does not retire leaves every key's tail where it is.
Moved-tail :
    {f : Status → Option Status} {i : ℕ} {key : Text}
    → ((a b : Status) → f a ≡ some b → is_retired a ≡ is_retired b)
    → (k : Text) {js ks : List Job} → Moved f i key js ks
    → tail_of k ks ≡ tail_of k js
Moved-tail same k (Chain.here {j = j} {st = st} e ek ef safe) = ground (arith, same j.status st ef)
Moved-tail same k (Chain.there {j = j} ne m) = ground (arith, Moved-tail same k m)

newest-tail_ne :
    (k : Text) (i : ℕ) (js : List Job) → All (λ o. o.id < i) js → is_tail i (tail_of k js) ≡ false
newest-tail_ne k i [] h = refl
newest-tail_ne k i (o ∷ os) h = ground (arith, newest-tail_ne k i os h.1)

retire_here :
    (key k : Text) (j : Job) (js : List Job)
    → j.key ≡ key
    → retiring j.status ≡ some retired
    → is_tail j.id (tail_of key js) ≡ false
    → tail_of k (record j { status = retired } ∷ js)
      ≡ (if (key == k) && is_tail j.id (tail_of key (j ∷ js)) then none else tail_of k (j ∷ js))
retire_here key k j js ek ef h = rw (← ek) (elim (Bool-cases (j.key == k)) [
  | inl same ↦ rw same (ground (arith, eq_refl j.key))
  | inr other ↦ rw other refl
])

-- Which tails retiring job `i` of a key leaves.
abbrev without_tail : ℕ → Text → Text → Option ℕ → Option ℕ → Option ℕ
without_tail i key k t u = if (key == k) && is_tail i t then none else u

retire_there :
    (i : ℕ) (key k : Text) (j : Job) (js ks : List Job)
    → j.id ≢ i
    → tail_of k ks ≡ without_tail i key k (tail_of key js) (tail_of k js)
    → tail_of k (j ∷ ks) ≡ without_tail i key k (tail_of key (j ∷ js)) (tail_of k (j ∷ js))
retire_there i key k j js ks ne h = elim (Bool-cases (key == k)) [
  | inl same ↦ at_key k (eq_of key k same) same h
  | inr apart ↦ rw apart (elim (Bool-cases (j.key == k)) [
    | inl mine ↦ rw mine refl
    | inr other ↦ rw other (rw apart at h)
  ])
]
  where
    own :
        (x : Text)
        → (x == x) ≡ true
        → tail_of x ks ≡ without_tail i x x (tail_of x js) (tail_of x js)
        → tail_of x (j ∷ ks) ≡ without_tail i x x (tail_of x (j ∷ js)) (tail_of x (j ∷ js))
    own x r h = rw r (elim (Bool-cases (j.key == x)) [
      | inl mine ↦ rw mine (ground arith)
      | inr other ↦ rw other (rw r at h)
    ])

    at_key :
        (x : Text)
        → key ≡ x
        → (key == x) ≡ true
        → tail_of x ks ≡ without_tail i key x (tail_of key js) (tail_of x js)
        → tail_of x (j ∷ ks) ≡ without_tail i key x (tail_of key (j ∷ js)) (tail_of x (j ∷ js))
    at_key x e r h =
        subst
          (λ y.
            tail_of x ks ≡ without_tail i y x (tail_of y js) (tail_of x js)
            → tail_of x (j ∷ ks) ≡ without_tail i y x (tail_of y (j ∷ js)) (tail_of x (j ∷ js)))
          (sym e) (own x (eq_refl x)) h

retiring-eq : (a b : Status) → retiring a ≡ some b → b ≡ retired
retiring-eq a b e = ground arith

-- Retiring takes away the tail of the job's key, where this job is the tail.
Moved-retiring :
    {i : ℕ} {key : Text} (k : Text) {js ks : List Job}
    → Moved retiring i key js ks
    → Chain js
    → tail_of k ks ≡ (if (key == k) && is_tail i (tail_of key js) then none else tail_of k js)
Moved-retiring {i} {key} k (Chain.here {j = j} {js = js} {st = st} e ek ef safe) (l, c) =
    rw (retiring-eq j.status st ef, ← e)
      (retire_here key k j js ek
        (subst (λ x. retiring j.status ≡ some x) (retiring-eq j.status st ef) ef)
        (newest-tail_ne key j.id js l.fresh))
Moved-retiring {i} {key} k (Chain.there {j = j} {js = js} {ks = ks} ne m) (l, c) =
    retire_there i key k j js ks ne (Moved-retiring k m c)

All-below-suc : (n : ℕ) (js : List Job) → All (λ o. o.id < n) js → All (λ o. o.id < suc n) js
All-below-suc n [] h = tt
All-below-suc n (o ∷ os) h = (omega arith, All-below-suc n os h.1)

Waits_of_tail :
    (k : Text) (js : List Job) (p : Option ℕ) → Chain js → tail_of k js ≡ p → Waits k p js
Waits_of_tail k js none c e = tail-AllRetired k js c e
Waits_of_tail k js (some q) c e = ground arith

serialize-Inv : (key : Text) (s : Queues) → Inv s → Inv (serialize key s)
unfolding serialize
serialize-Inv key s v = record {
  chain = (
    record {
      fresh = v.below;
      waits = Waits_of_tail key s.jobs (get key s.queues) v.chain (sym (v.tails key));
      order = λ ne. absurd (ne refl);
    },
    v.chain,
  );
  below = (omega arith, All-below-suc s.next s.jobs v.below);
  tails = λ k. get-put key k s.next s.queues ∙ ground (arith, v.tails k);
}

-- A step of one job that leaves the tails alone.
with_jobs-Inv :
    (f : Status → Option Status) (i : ℕ) (j : Job) (s t : Queues) (ks : List Job)
    → IsForward f
    → ((a b : Status) → f a ≡ some b → is_retired a ≡ is_retired b)
    → Moved f i j.key s.jobs ks
    → record s { jobs = ks } ≡ t
    → Inv s
    → Inv t
with_jobs-Inv f i j s t ks fwd same m e v = subst Inv e (record {
  chain = Moved-Chain fwd m v.chain;
  below = Moved-below fwd s.next m v.below;
  tails = λ k. v.tails k ∙ sym (Moved-tail same k m);
})

pub job_of_move :
    (f : Status → Option Status) (i : ℕ) (js ks : List Job)
    → move f i js ≡ some ks
    → (j : Job) × (job i js ≡ some j)
unfolding move job
job_of_move f i [] ks e = absurd (ground arith)
job_of_move f i (o ∷ os) ks e = elim (Bool-cases (o.id == i)) [
  | inl same ↦ (o, ground arith)
  | inr other ↦ elim (Option-cases (move f i os)) [
    | inl none_left ↦ absurd (ground arith)
    | inr (rest, m) ↦ let (j, q) = job_of_move f i os rest m in (j, ground arith)
  ]
]

start-Inv : (i : ℕ) (s t : Queues) → start i s ≡ some t → Inv s → Inv t
unfolding start
start-Inv i s t e v = elim (Option-cases (job i s.jobs)) [
  | inl q ↦ absurd (ground arith)
  | inr (j, q) ↦ elim (Option-cases (move starting i s.jobs)) [
    | inl m ↦ absurd (ground arith)
    | inr (ks, m) ↦
        with_jobs-Inv starting i j s t ks starting-IsForward (λ a b. ground arith)
          (start-Moved i j s.jobs ks v.chain q (ground arith) m) (ground arith) v
  ]
]

finish-Inv : (i : ℕ) (s t : Queues) → finish i s ≡ some t → Inv s → Inv t
unfolding finish
finish-Inv i s t e v = elim (Option-cases (move finishing i s.jobs)) [
  | inl m ↦ absurd (ground arith)
  | inr (ks, m) ↦
      let (j, q) = job_of_move finishing i s.jobs ks m in
      with_jobs-Inv finishing i j s t ks finishing-IsForward (λ a b. ground arith)
        (move-Moved finishing i j s.jobs ks refl v.chain q m) (ground arith) v
]

drop_tail-get :
    (i : ℕ) (key k : Text) (m : Map Text ℕ)
    → get k (drop_tail i key m) ≡ (if (key == k) && is_tail i (get key m) then none else get k m)
drop_tail-get i key k m = elim (Bool-cases (is_tail i (get key m))) [
  | inl is ↦ ground (arith, get-delete key k m)
  | inr no_tail ↦ ground arith
]

retire-Inv : (i : ℕ) (s t : Queues) → retire i s ≡ some t → Inv s → Inv t
unfolding retire
retire-Inv i s t e v = elim (Option-cases (job i s.jobs)) [
  | inl q ↦ absurd (ground arith)
  | inr (j, q) ↦ elim (Option-cases (move retiring i s.jobs)) [
    | inl m ↦ absurd (ground arith)
    | inr (ks, m) ↦
        let moved = move-Moved retiring i j s.jobs ks refl v.chain q m in
        subst Inv (ground arith) (record {
          chain = Moved-Chain retiring-IsForward moved v.chain;
          below = Moved-below retiring-IsForward s.next moved v.below;
          tails = λ k.
              drop_tail-get i j.key k s.queues
              ∙ ground (arith, v.tails k, v.tails j.key, Moved-retiring k moved v.chain);
        })
  ]
]

Step-Inv : (s t : Queues) → Step s t → Inv s → Inv t
Step-Inv s t (called key e) v = subst Inv (sym e) (serialize-Inv key s v)
Step-Inv s t (started i e) v = start-Inv i s t e v
Step-Inv s t (finishes i e) v = finish-Inv i s t e v
Step-Inv s t (retires i e) v = retire-Inv i s t e v

pub Reachable-Inv : {s : Queues} → Reachable s → Inv s
Reachable-Inv here = record { chain = tt; below = tt; tails = λ k. get-nil k }
Reachable-Inv (next {s = s} {t = t} r st) = Step-Inv s t st (Reachable-Inv r)
