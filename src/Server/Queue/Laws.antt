-- ===== src/Server/Queue/Laws.antt =====
-- What holds of the queues in every state that calls of `serialize` and the settling of their
-- promises can reach.
use llm_stack.Base.{
  ℕ, ◌≤◌, ◌≡◌, ◌≢◌, ◌↔◌, ◌∙◌, refl, sym, ap, subst, Bool, true, false, ◌&&◌, List, [], ◌∷◌, none,
  some, Text, get, eq_of, ◌==◌, text_eq, nat_eq, text_beq_iff, if◌then◌else◌, arith, Bool-cases,
  inl, inr, length, filter,
}
use llm_stack.Server.Queue.{Status, waiting, running, finished, Job, Queues, job, Reachable}
use llm_stack.Server.Queue.Chain.{AllRetired, tail_of, Chain}
use llm_stack.Server.Queue.Safe.{tail-AllRetired}
use llm_stack.Server.Queue.Invariant.{Reachable-Inv}

abbrev pub is_active : Status → Bool
is_active running = true
is_active finished = true
is_active _ = false

-- The jobs of a key whose function has been called and whose tail has not settled.
abbrev pub active : Text → List Job → List Job
active k = filter λ j. (j.key == k) && is_active j.status

active_of_AllRetired : (k : Text) (js : List Job) → AllRetired k js → active k js ≡ []
active_of_AllRetired k [] h = refl
active_of_AllRetired k (o ∷ os) h =
    ground (arith, text_beq_iff o.key k, h.0, active_of_AllRetired k os h.1)

active-le-one : (k : Text) (js : List Job) → Chain js → length (active k js) ≤ 1
active-le-one k [] c = omega arith
active-le-one k (o ∷ os) (l, c) = elim (Bool-cases ((o.key == k) && is_active o.status)) [
  | inl is ↦
      let older : AllRetired k os =
        subst (λ x. AllRetired x os) (eq_of o.key k (ground arith)) (l.order (λ w. ground arith)) in
      rw (is, active_of_AllRetired k os older) (omega arith)
  | inr not_active ↦ rw not_active (active-le-one k os c)
]

-- In every state that calls and settling promises reach, at most one turn of a session key runs:
-- the function of at most one job of the key has been called without its tail having settled.
pub one_turn_at_a_time : (s : Queues) (k : Text) → Reachable s → length (active k s.jobs) ≤ 1
one_turn_at_a_time s k r = active-le-one k s.jobs (Reachable-Inv r).chain

AllRetired-tail_of : (k : Text) (js : List Job) → AllRetired k js → tail_of k js ≡ none
AllRetired-tail_of k [] h = refl
AllRetired-tail_of k (o ∷ os) h =
    ground (arith, text_beq_iff o.key k, h.0, AllRetired-tail_of k os h.1)

-- In every reachable state `queues` has an entry for a key exactly while some job of the key has
-- not been retired: nothing stays behind, and no waiting job is forgotten.
pub queues_exact :
    (s : Queues) (k : Text) → Reachable s → (get k s.queues ≡ none) ↔ AllRetired k s.jobs
queues_exact s k r =
    let v = Reachable-Inv r in
    (
      λ e. tail-AllRetired k s.jobs v.chain (sym (v.tails k) ∙ e),
      λ a. v.tails k ∙ AllRetired-tail_of k s.jobs a,
    )

pub behind : ℕ → List Job → List Job
behind i [] = []
behind i (j ∷ js) = if j.id == i then js else behind i js

start_order :
    (i : ℕ) (j : Job) (js : List Job)
    → Chain js
    → job i js ≡ some j
    → j.status ≢ waiting
    → AllRetired j.key (behind i js)
unfolding job behind
start_order i j [] c e ne = tt
start_order i j (o ∷ os) (l, c) e ne = elim (Bool-cases (o.id == i)) [
  | inl same ↦
      let me : o ≡ j = ground arith in
      rw same (
        subst (λ (x : Job). AllRetired x.key os) me
          (l.order (λ w. ne (ap (λ (x : Job). x.status) (sym me) ∙ w))))
  | inr other ↦ rw other (start_order i j os c (ground arith) ne)
]

-- Turns of a session key run in the order of their calls: a job that has started finds every job
-- of its key that was called before it retired.
pub turns_in_order :
    (s : Queues) (i : ℕ) (j : Job)
    → Reachable s
    → job i s.jobs ≡ some j
    → j.status ≢ waiting
    → AllRetired j.key (behind i s.jobs)
turns_in_order s i j r = start_order i j s.jobs (Reachable-Inv r).chain
