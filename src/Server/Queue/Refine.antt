-- ===== src/Server/Queue/Refine.antt =====
-- What `serialize` promises, forgetting promises and tails: a line of turns for each key, in which a
-- call joins at the end and only the first turn starts, ends and leaves. Every step of the queues is
-- a step of these lines.
use mathlib.Core.List.{append-nil}
use llm_stack.Base.{
  ℕ, ◌≡◌, ◌≢◌, ◌∙◌, refl, sym, ap, subst, not, ◌&&◌, List, [], ◌∷◌, ◌++◌, Option, none, some, Text,
  ◌==◌, text_eq, text_beq_iff, nat_eq, eq_refl, if◌then◌else◌, arith, Option-cases, inl, inr,
}
use llm_stack.Server.Queue.{
  Status, waiting, running, finished, retired, Job, Queues, serialize, start, finish, retire,
  starting, finishing, retiring, is_retired, move, job, Step, called, started, finishes, retires,
  Reachable,
}
use llm_stack.Server.Queue.Chain.{AllRetired, Chain, Moved, IsForward}
use llm_stack.Server.Queue.Chain
use llm_stack.Server.Queue.Safe.{
  start-Moved, move-Moved, starting-IsForward, finishing-IsForward, retiring-IsForward,
}
use llm_stack.Server.Queue.Invariant.{Inv, Reachable-Inv, job_of_move}

-- A line, its first turn first.
abbrev pub Line : Type 0
Line = List (ℕ × Status)

-- The turns of a key that have not left, oldest first.
abbrev pub entry : Text → Job → Line
entry k j = if (j.key == k) && not (is_retired j.status) then (j.id, j.status) ∷ [] else []

unfoldable pub line : Text → List Job → Line
line k [] = []
line k (j ∷ js) = line k js ++ entry k j

-- The first turn of a line, after its step.
abbrev pub advanced : ℕ → Status → Line → Line
advanced i b rest = if is_retired b then rest else (i, b) ∷ rest

abbrev pub Lines : Type 0
Lines = Text → Line

abbrev pub lines : Queues → Lines
lines s k = line k s.jobs

-- Nothing changes but the line of one key.
abbrev pub Elsewhere : Text → Lines → Lines → Type 0
Elsewhere k s t = (j : Text) → j ≢ k → t j ≡ s j

-- The steps of a first turn: waiting, running, finished, gone.
abbrev pub next_status : Status → Option Status
next_status waiting = some running
next_status running = some finished
next_status finished = some retired
next_status retired = none

pub data LineStep (s t : Lines) : Type 0 where
  joins : (k : Text) (i : ℕ) → t k ≡ s k ++ (i, waiting) ∷ [] → Elsewhere k s t → LineStep s t
  advances :
      (k : Text) (i : ℕ) (a b : Status) (rest : Line)
      → next_status a ≡ some b
      → s k ≡ (i, a) ∷ rest
      → t k ≡ advanced i b rest
      → Elsewhere k s t
      → LineStep s t

line_of_AllRetired : (k : Text) (js : List Job) → AllRetired k js → line k js ≡ []
unfolding line
line_of_AllRetired k [] h = refl
line_of_AllRetired k (j ∷ js) (h, hs) =
    rw (line_of_AllRetired k js hs) (ground (arith, h, text_beq_iff j.key k))

-- The turn that moves is the first of its line.
pub record AtHead (f : Status → Option Status) (i : ℕ) (k : Text) (js ks : List Job) : Type 0 where
  pub before : Status
  pub after : Status
  pub rest : Line
  pub steps : f before ≡ some after
  pub was : line k js ≡ (i, before) ∷ rest
  pub is : line k ks ≡ advanced i after rest

advanced-append :
    (i : ℕ) (b : Status) (rest more : Line)
    → advanced i b rest ++ more ≡ advanced i b (rest ++ more)
advanced-append i retired rest more = refl
advanced-append i waiting rest more = refl
advanced-append i running rest more = refl
advanced-append i finished rest more = refl

module _ {f : Status → Option Status} {i : ℕ} {key : Text} (fwd : IsForward f) where
  pub Moved-AtHead : {js ks : List Job} → Moved f i key js ks → AtHead f i key js ks
  unfolding line
  Moved-AtHead (Chain.here {j = j} {js = js} {st = st} e ek ef safe) = record {
    before = j.status;
    after = st;
    rest = [];
    steps = ef;
    was = rw (line_of_AllRetired key js safe) (ground (arith, e, ek, ef, fwd.keeps, eq_refl key));
    is = rw (line_of_AllRetired key js safe) (ground (arith, e, ek, eq_refl key));
  }
  Moved-AtHead (Chain.there {j = j} {js = js} {ks = ks} ne m) =
      let head = Moved-AtHead m in
      record {
        before = head.before;
        after = head.after;
        rest = head.rest ++ entry key j;
        steps = head.steps;
        was = ap (λ l. l ++ entry key j) head.was;
        is =
            ap (λ l. l ++ entry key j) head.is
            ∙ advanced-append i head.after head.rest (entry key j);
      }

  Moved-elsewhere :
      (k : Text) {js ks : List Job} → k ≢ key → Moved f i key js ks → line k ks ≡ line k js
  unfolding line
  Moved-elsewhere k ne (Chain.here {j = j} {js = js} {st = st} e ek ef safe) =
      ap (λ l. line k js ++ l) (ground (arith, text_beq_iff j.key k, ne, ek))
  Moved-elsewhere k ne (Chain.there {j = j} other m) =
      ap (λ l. l ++ entry k j) (Moved-elsewhere k ne m)

-- The move that a step of job `i` makes.
pub record Turned (f : Status → Option Status) (i : ℕ) (s t : Queues) : Type 0 where
  pub self : Job
  pub found : job i s.jobs ≡ some self
  pub moved : Moved f i self.key s.jobs t.jobs

pub start-Turned : (i : ℕ) (s t : Queues) → Inv s → start i s ≡ some t → Turned starting i s t
unfolding start
start-Turned i s t v e = elim (Option-cases (job i s.jobs)) [
  | inl q ↦ absurd (ground arith)
  | inr (j, q) ↦ elim (Option-cases (move starting i s.jobs)) [
    | inl m ↦ absurd (ground arith)
    | inr (ks, m) ↦ record {
      self = j;
      found = q;
      moved =
          subst (Moved starting i j.key s.jobs) (ground arith)
            (start-Moved i j s.jobs ks v.chain q (ground arith) m);
    }
  ]
]

pub finish-Turned : (i : ℕ) (s t : Queues) → Inv s → finish i s ≡ some t → Turned finishing i s t
unfolding finish
finish-Turned i s t v e = elim (Option-cases (move finishing i s.jobs)) [
  | inl m ↦ absurd (ground arith)
  | inr (ks, m) ↦
      let (j, q) = job_of_move finishing i s.jobs ks m in
      record {
        self = j;
        found = q;
        moved =
            subst (Moved finishing i j.key s.jobs) (ground arith)
              (move-Moved finishing i j s.jobs ks refl v.chain q m);
      }
]

pub retire-Turned : (i : ℕ) (s t : Queues) → Inv s → retire i s ≡ some t → Turned retiring i s t
unfolding retire
retire-Turned i s t v e = elim (Option-cases (job i s.jobs)) [
  | inl q ↦ absurd (ground arith)
  | inr (j, q) ↦ elim (Option-cases (move retiring i s.jobs)) [
    | inl m ↦ absurd (ground arith)
    | inr (ks, m) ↦ record {
      self = j;
      found = q;
      moved =
          subst (Moved retiring i j.key s.jobs) (ground arith)
            (move-Moved retiring i j s.jobs ks refl v.chain q m);
    }
  ]
]

Turned-LineStep :
    (f : Status → Option Status) (i : ℕ) (s t : Queues)
    → IsForward f
    → ((a b : Status) → f a ≡ some b → next_status a ≡ some b)
    → Turned f i s t
    → LineStep (lines s) (lines t)
Turned-LineStep f i s t fwd agrees u =
    let head = Moved-AtHead fwd u.moved in
    advances u.self.key i head.before head.after head.rest (agrees _ _ head.steps) head.was head.is
      (λ j ne. Moved-elsewhere fwd j ne u.moved)

serialize-LineStep : (k : Text) (s : Queues) → LineStep (lines s) (lines (serialize k s))
unfolding serialize line
serialize-LineStep k s =
    joins k s.next (ap (λ l. line k s.jobs ++ l) (ground (arith, eq_refl k))) (λ j ne.
      ap (λ l. line j s.jobs ++ l) (ground (arith, text_beq_iff k j, ne))
      ∙ append-nil (line j s.jobs))

-- In every reachable state each step of the queues is a step of the lines: a call joins the end of
-- the line of its key, any other step moves the first turn of one line on, from waiting to running to
-- finished to gone, and the lines of all other keys stay as they are.
pub queue_refines : (s t : Queues) → Reachable s → Step s t → LineStep (lines s) (lines t)
queue_refines s t r (called k e) =
    subst (λ u. LineStep (lines s) (lines u)) (sym e) (serialize-LineStep k s)
queue_refines s t r (started i e) =
    Turned-LineStep starting i s t starting-IsForward (λ a b. ground arith)
      (start-Turned i s t (Reachable-Inv r) e)
queue_refines s t r (finishes i e) =
    Turned-LineStep finishing i s t finishing-IsForward (λ a b. ground arith)
      (finish-Turned i s t (Reachable-Inv r) e)
queue_refines s t r (retires i e) =
    Turned-LineStep retiring i s t retiring-IsForward (λ a b. ground arith)
      (retire-Turned i s t (Reachable-Inv r) e)
