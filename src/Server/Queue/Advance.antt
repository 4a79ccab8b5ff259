-- ===== src/Server/Queue/Advance.antt =====
-- The first turn of a line of `serialize` can always take its next step.
use mathlib.Core.Option
use llm_stack.Base.{
  ℕ, ◌<◌, ◌≡◌, ◌≢◌, ◌∙◌, refl, sym, ap, subst, true, List, [], ◌∷◌, ◌++◌, Option, none, some, Text,
  ◌==◌, text_eq, text_beq_iff, nat_eq, All, arith, Bool-cases, inl, inr,
}
use llm_stack.Server.Queue.{
  Status, waiting, running, finished, retired, Job, Queues, start, finish, retire, starting,
  finishing, retiring, move, job, settled, drop_tail, Step, started, finishes, retires,
}
use llm_stack.Server.Queue.Chain.{AllRetired, newest, Chain, Waits, IsForward}
use llm_stack.Server.Queue.Safe.{starting-IsForward, finishing-IsForward, retiring-IsForward}
use llm_stack.Server.Queue.Invariant.{Inv}
use llm_stack.Server.Queue.Refine.{
  Line, line, entry, next_status, advanced, AtHead, Turned, Moved-AtHead, start-Turned,
  finish-Turned, retire-Turned,
}

pub AllRetired-line : (k : Text) (js : List Job) → line k js ≡ [] → AllRetired k js
unfolding line
AllRetired-line k [] e = tt
AllRetired-line k (j ∷ js) e =
    let front : line k js ≡ [] = left (line k js) (entry k j) e in
    (λ same. ground (arith, e, front, text_beq_iff j.key k), AllRetired-line k js front)
  where
    left : (l m : Line) → l ++ m ≡ [] → l ≡ []
    left [] m e = refl
    left (x ∷ l) m e = absurd (ground arith)

pub job-below :
    (i n : ℕ) (j : Job) (js : List Job) → All (λ o. o.id < n) js → job i js ≡ some j → i < n
unfolding job
job-below i n j [] h e = absurd (ground arith)
job-below i n j (o ∷ os) h e = ground (arith, job-below i n j os h.1)

settled_of_newest :
    (k : Text) (p : ℕ) (js : List Job)
    → AllRetired k js
    → Option.map (λ (o : Job). o.id) (newest k js) ≡ some p
    → settled (some p) js ≡ true
unfolding settled
settled_of_newest k p [] h e = absurd (ground arith)
settled_of_newest k p (o ∷ os) h e =
    ground (arith, h.0, text_beq_iff o.key k, settled_of_newest k p os h.1)

settled-cons :
    (p : Option ℕ) (o : Job) (os : List Job) → settled p os ≡ true → settled p (o ∷ os) ≡ true
unfolding settled
settled-cons none o os h = refl
settled-cons (some p) o os h = ground arith

-- The first turn of a line, as a job: what it waits on has settled.
record Head (k : Text) (i : ℕ) (a : Status) (js : List Job) : Type 0 where
  self : Job
  found : job i js ≡ some self
  owner : self.key ≡ k
  status : self.status ≡ a
  live : a ≢ retired
  free : settled self.prev js ≡ true

free_of_Waits :
    (k : Text) (p : Option ℕ) (js : List Job) → Waits k p js → AllRetired k js → settled p js ≡ true
unfolding settled
free_of_Waits k none js w h = refl
free_of_Waits k (some p) js w h = settled_of_newest k p js h w

front_in :
    (k : Text) (i : ℕ) (a : Status) (rest : Line) (js : List Job)
    → Chain js
    → line k js ≡ (i, a) ∷ rest
    → Head k i a js
unfolding line job
front_in k i a rest [] c e = absurd (ground arith)
front_in k i a rest (o ∷ os) (l, c) e =
    by_front (line k os) refl (λ j b more. front_in k j b more os c)
  where
    by_front :
        (front : Line)
        → line k os ≡ front
        → ((j : ℕ) (b : Status) (more : Line) → line k os ≡ (j, b) ∷ more → Head k j b os)
        → Head k i a (o ∷ os)
    by_front [] f ih =
        let its : (o.key == k) ≡ true = ground (arith, e, f) in
        let same : o.key ≡ k = (text_beq_iff o.key k).0 its in
        record {
          self = o;
          owner = same;
          live = λ gone. ground (arith, e, f, gone);
          found = ground (arith, e, f);
          status = ground (arith, e, f);
          free = settled-cons o.prev o os (
              free_of_Waits o.key o.prev os l.waits
                (subst (λ x. AllRetired x os) (sym same) (AllRetired-line k os f)));
        }
    by_front ((j, b) ∷ more) f ih =
        let head = ih j b more f in
        record {
          self = head.self;
          owner = head.owner;
          live = λ gone. head.live (ground (arith, e, f, gone));
          found = ground (arith, e, f, head.found, job-below j o.id head.self os l.fresh);
          status = ground (arith, e, f, head.status);
          free = settled-cons head.self.prev o os head.free;
        }

move-some :
    (f : Status → Option Status) (i : ℕ) (j : Job) (b : Status) (js : List Job)
    → job i js ≡ some j
    → f j.status ≡ some b
    → (ks : List Job) × (move f i js ≡ some ks)
unfolding move job
move-some f i j b [] e h = absurd (ground arith)
move-some f i j b (o ∷ os) e h = elim (Bool-cases (o.id == i)) [
  | inl same ↦ (record o { status = b } ∷ os, ground (arith, e, h, same))
  | inr other ↦
      let (ks, m) = move-some f i j b os (ground (arith, e, other)) h in
      (o ∷ ks, ground (arith, other, m))
]

-- A step that is no call.
pub data Settles (s t : Queues) : Type 0 where
  starts : (i : ℕ) → start i s ≡ some t → Settles s t
  ends : (i : ℕ) → finish i s ≡ some t → Settles s t
  leaves : (i : ℕ) → retire i s ≡ some t → Settles s t

pub Settles-Step : {s t : Queues} → Settles s t → Step s t
Settles-Step (starts i e) = started i e
Settles-Step (ends i e) = finishes i e
Settles-Step (leaves i e) = retires i e

-- What the first turn of a line can do next.
pub record Advance (k : Text) (i : ℕ) (a : Status) (rest : Line) (s : Queues) : Type 0 where
  pub target : Queues
  pub after : Status
  pub step : Settles s target
  pub steps : next_status a ≡ some after
  pub then_line : line k target.jobs ≡ advanced i after rest

start_enabled :
    (i : ℕ) (j : Job) (s : Queues)
    → job i s.jobs ≡ some j
    → j.status ≡ waiting
    → settled j.prev s.jobs ≡ true
    → (t : Queues) × (start i s ≡ some t)
unfolding start
start_enabled i j s e w free =
    let (ks, m) = move-some starting i j running s.jobs e (ap starting w) in
    (record s { jobs = ks }, ground (arith, e, free, m))

finish_enabled :
    (i : ℕ) (j : Job) (s : Queues)
    → job i s.jobs ≡ some j
    → j.status ≡ running
    → (t : Queues) × (finish i s ≡ some t)
unfolding finish
finish_enabled i j s e w =
    let (ks, m) = move-some finishing i j finished s.jobs e (ap finishing w) in
    (record s { jobs = ks }, ground (arith, m))

retire_enabled :
    (i : ℕ) (j : Job) (s : Queues)
    → job i s.jobs ≡ some j
    → j.status ≡ finished
    → (t : Queues) × (retire i s ≡ some t)
unfolding retire
retire_enabled i j s e w =
    let (ks, m) = move-some retiring i j retired s.jobs e (ap retiring w) in
    (record s { jobs = ks; queues = drop_tail i j.key s.queues }, ground (arith, e, m))

AtHead-Advance :
    (f : Status → Option Status) (k : Text) (i : ℕ) (a : Status) (rest : Line) (s t : Queues)
    → ((x y : Status) → f x ≡ some y → next_status x ≡ some y)
    → line k s.jobs ≡ (i, a) ∷ rest
    → AtHead f i k s.jobs t.jobs
    → Settles s t
    → Advance k i a rest s
AtHead-Advance f k i a rest s t agrees e first step = record {
  target = t;
  after = first.after;
  step = step;
  steps = agrees a first.after (ground (arith, first.steps, first.was, e));
  then_line =
      subst (λ l. line k t.jobs ≡ advanced i first.after l) (ground (arith, first.was, e)) first.is;
}

Turned-Advance :
    (f : Status → Option Status) (k : Text) (i : ℕ) (a : Status) (rest : Line) (s t : Queues)
    → IsForward f
    → ((x y : Status) → f x ≡ some y → next_status x ≡ some y)
    → Head k i a s.jobs
    → line k s.jobs ≡ (i, a) ∷ rest
    → Turned f i s t
    → Settles s t
    → Advance k i a rest s
Turned-Advance f k i a rest s t fwd agrees head e u step =
    let key : u.self.key ≡ k = ground (arith, u.found, head.found, head.owner) in
    AtHead-Advance f k i a rest s t agrees e
      (subst (λ x. AtHead f i x s.jobs t.jobs) key (Moved-AtHead fwd u.moved)) step

pub advance :
    (k : Text) (i : ℕ) (a : Status) (rest : Line) (s : Queues)
    → Inv s
    → line k s.jobs ≡ (i, a) ∷ rest
    → Advance k i a rest s
advance k i a rest s v e = by_status a refl (front_in k i a rest s.jobs v.chain e)
  where
    by_status : (b : Status) → a ≡ b → Head k i a s.jobs → Advance k i a rest s
    by_status waiting at head =
        let (t, can) = start_enabled i head.self s head.found (head.status ∙ at) head.free in
        Turned-Advance starting k i a rest s t starting-IsForward (λ x y. ground arith) head e
          (start-Turned i s t v can) (starts i can)
    by_status running at head =
        let (t, can) = finish_enabled i head.self s head.found (head.status ∙ at) in
        Turned-Advance finishing k i a rest s t finishing-IsForward (λ x y. ground arith) head e
          (finish-Turned i s t v can) (ends i can)
    by_status finished at head =
        let (t, can) = retire_enabled i head.self s head.found (head.status ∙ at) in
        Turned-Advance retiring k i a rest s t retiring-IsForward (λ x y. ground arith) head e
          (retire-Turned i s t v can) (leaves i can)
    by_status retired at head = absurd (head.live at)
