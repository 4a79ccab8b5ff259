-- ===== src/Server/Queue/Safe.antt =====
-- A step of a job is a step of one that may take it: it has started only behind all before it.
use mathlib.Core.Option
use llm_stack.Base.{
  ℕ, ◌<◌, ◌≡◌, ◌∙◌, refl, sym, ap, subst, true, false, List, [], ◌∷◌, Option, none, some, Text,
  ◌==◌, text_eq, nat_eq, text_beq_iff, All, arith, Bool-cases, Option-cases, inl, inr,
}
use llm_stack.Server.Queue.{
  Status, waiting, running, retired, Job, move, job, settled, starting, finishing, retiring,
}
use llm_stack.Server.Queue.Chain.{
  AllRetired, newest, tail_of, Link, Chain, Waits, Moved, here, there, IsForward,
}

abbrev id_of : Option Job → Option ℕ
id_of = Option.map λ (o : Job). o.id

-- Where no tail is left for a key, all of its jobs are retired.
pub tail-AllRetired : (k : Text) (js : List Job) → Chain js → tail_of k js ≡ none → AllRetired k js
tail-AllRetired k [] c e = tt
tail-AllRetired k (j ∷ js) (l, c) e = elim (Bool-cases (j.key == k)) [
  | inl same ↦
      let done : j.status ≡ retired = ground arith in
      (
        λ _. done,
        subst (λ x. AllRetired x js) ((text_beq_iff j.key k).0 same) (l.order (λ w. ground arith)),
      )
  | inr other ↦ (
    λ same. absurd (ground (arith, (text_beq_iff j.key k).1 same)),
    tail-AllRetired k js c (ground arith),
  )
]

newest-below :
    (k : Text) (n p : ℕ) (js : List Job)
    → All (λ o. o.id < n) js
    → id_of (newest k js) ≡ some p
    → p < n
newest-below k n p [] h e = absurd (ground arith)
newest-below k n p (o ∷ os) h e = ground (arith, newest-below k n p os h.1)

settled-below : (n : ℕ) (js : List Job) → All (λ o. o.id < n) js → settled (some n) js ≡ false
unfolding settled
settled-below n [] h = refl
settled-below n (o ∷ os) h = ground (arith, settled-below n os h.1)

settled-cons :
    (p : ℕ) (j : Job) (js : List Job)
    → p < j.id
    → settled (some p) (j ∷ js) ≡ true
    → settled (some p) js ≡ true
unfolding settled
settled-cons p j js lt e = ground arith

settled_head :
    (p : ℕ) (j : Job) (js : List Job)
    → settled (some p) js ≡ false
    → settled (some p) (j ∷ js) ≡ true
    → j.status ≡ retired
unfolding settled
settled_head p j js h e = ground arith

-- A job whose predecessor's tail has settled may run.
settled-AllRetired :
    (k : Text) (p : ℕ) (js : List Job)
    → Chain js
    → id_of (newest k js) ≡ some p
    → settled (some p) js ≡ true
    → AllRetired k js
settled-AllRetired k p [] c w e = tt
settled-AllRetired k p (o ∷ os) (l, c) w e = elim (Bool-cases (o.key == k)) [
  | inl same ↦
      let at : o.id ≡ p = ground arith in
      let done : o.status ≡ retired =
        settled_head p o os (settled-below p os (rw (← at) l.fresh)) e in
      (
        λ _. done,
        subst (λ x. AllRetired x os) ((text_beq_iff o.key k).0 same) (l.order (λ w. ground arith)),
      )
  | inr other ↦
      let before : id_of (newest k os) ≡ some p = ground arith in
      (
        λ same. absurd (ground (arith, (text_beq_iff o.key k).1 same)),
        settled-AllRetired k p os c before
            (settled-cons p o os (newest-below k o.id p os l.fresh before) e),
      )
]

Link-AllRetired :
    (j : Job) (js : List Job)
    → Link j js
    → Chain js
    → j.status ≡ waiting
    → settled j.prev (j ∷ js) ≡ true
    → AllRetired j.key js
Link-AllRetired j js l c w e = by_prev j.prev l.waits e
  where
    by_prev : (p : Option ℕ) → Waits j.key p js → settled p (j ∷ js) ≡ true → AllRetired j.key js
    by_prev none a e = a
    by_prev (some q) a e =
        settled-AllRetired j.key q js c a
          (settled-cons q j js (newest-below j.key j.id q js l.fresh a) e)

prev_lt :
    (i n p : ℕ) (js : List Job) (j : Job)
    → Chain js
    → All (λ o. o.id < n) js
    → job i js ≡ some j
    → j.prev ≡ some p
    → p < n
unfolding job
prev_lt i n p [] j c h e w = absurd (ground arith)
prev_lt i n p (o ∷ os) j (l, c) (lt, h) e w = elim (Bool-cases (o.id == i)) [
  | inl same ↦
      let me : o ≡ j = ground arith in
      let its : Waits o.key (some p) os =
        subst (λ x. Waits o.key x os) (ap (λ (x : Job). x.prev) me ∙ w) l.waits in
      omega (arith, newest-below o.key o.id p os l.fresh its)
  | inr other ↦ prev_lt i n p os j c h (ground arith) w
]

settled_later :
    (i : ℕ) (o j : Job) (os : List Job)
    → Link o os
    → Chain os
    → job i os ≡ some j
    → settled j.prev (o ∷ os) ≡ true
    → settled j.prev os ≡ true
unfolding settled
settled_later i o j os l c e h = elim (Option-cases j.prev) [
  | inl first ↦ rw first
  | inr (p, w) ↦ rw w (
      settled-cons p o os (prev_lt i o.id p os j c l.fresh e w)
        (subst (λ x. settled x (o ∷ os) ≡ true) w h))
]

pub starting-IsForward : IsForward starting
starting-IsForward = record { keeps = refl; leaves = λ a. ground arith }

pub finishing-IsForward : IsForward finishing
finishing-IsForward = record { keeps = refl; leaves = λ a. ground arith }

pub retiring-IsForward : IsForward retiring
retiring-IsForward = record { keeps = refl; leaves = λ a. ground arith }

later_part :
    (f : Status → Option Status) (i : ℕ) (o : Job) (os ks : List Job)
    → move f i (o ∷ os) ≡ some ks
    → (o.id == i) ≡ false
    → (rest : List Job) × (move f i os ≡ some rest) × (o ∷ rest ≡ ks)
unfolding move
later_part f i o os ks m other = elim (Option-cases (move f i os)) [
  | inl e ↦ absurd (ground arith)
  | inr (rest, e) ↦ (rest, e, ground arith)
]

first_part :
    (f : Status → Option Status) (i : ℕ) (o : Job) (os ks : List Job)
    → move f i (o ∷ os) ≡ some ks
    → (o.id == i) ≡ true
    → (st : Status) × (f o.status ≡ some st) × (record o { status = st } ∷ os ≡ ks)
unfolding move
first_part f i o os ks m same = elim (Option-cases (f o.status)) [
  | inl e ↦ absurd (ground arith)
  | inr (st, e) ↦ (st, e, ground arith)
]

-- A job that starts: the tail that it waits on has settled.
pub start-Moved :
    (i : ℕ) (j : Job) (js ks : List Job)
    → Chain js
    → job i js ≡ some j
    → settled j.prev js ≡ true
    → move starting i js ≡ some ks
    → Moved starting i j.key js ks
unfolding job move
start-Moved i j [] ks c e h m = absurd (ground arith)
start-Moved i j (o ∷ os) ks (l, c) e h m = elim (Bool-cases (o.id == i)) [
  | inl same ↦
      let me : o ≡ j = ground arith in
      let idle : o.status ≡ waiting = ground arith in
      subst (Moved starting i j.key (o ∷ os)) (ground arith) (
        here {j = o} {js = os} {st = running} (ground arith) (ap (λ (x : Job). x.key) me)
          (ap starting idle)
          (subst (λ x. AllRetired x os) (ap (λ (x : Job). x.key) me)
            (Link-AllRetired o os l c idle
              (subst (λ (x : Job). settled x.prev (o ∷ os) ≡ true) (sym me) h))))
  | inr other ↦
      let (rest, moved, same) = later_part starting i o os ks m other in
      subst (Moved starting i j.key (o ∷ os)) same (
        there (ground arith) (
          start-Moved i j os rest c (ground arith) (settled_later i o j os l c (ground arith) h)
            moved))
]

-- Any other step: the job has started, so the jobs before it are retired.
pub move-Moved :
    (f : Status → Option Status) (i : ℕ) (j : Job) (js ks : List Job)
    → f waiting ≡ none
    → Chain js
    → job i js ≡ some j
    → move f i js ≡ some ks
    → Moved f i j.key js ks
unfolding job
move-Moved f i j [] ks w c e m = absurd (ground arith)
move-Moved f i j (o ∷ os) ks w (l, c) e m = elim (Bool-cases (o.id == i)) [
  | inl same ↦
      let me : o ≡ j = ground arith in
      let (st, to, built) = first_part f i o os ks m same in
      subst (Moved f i j.key (o ∷ os)) built (
        here (ground arith) (ap (λ (x : Job). x.key) me) to (
          subst (λ x. AllRetired x os) (ap (λ (x : Job). x.key) me)
            (l.order (λ idle. ground (arith, ap f idle)))))
  | inr other ↦
      let (rest, moved, same) = later_part f i o os ks m other in
      subst (Moved f i j.key (o ∷ os)) same
        (there (ground arith) (move-Moved f i j os rest w c (ground arith) moved))
]
