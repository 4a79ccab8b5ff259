-- ===== src/Server/Queue.antt =====
-- agent-adapter/server.mjs: `serialize`, one turn at a time for each session.
-- A call makes a job, named by a number that stands for its promises. A job waits on the tail that
-- `queues` held for its key, runs, is finished when its function's promise settles, and is retired
-- when its tail has settled, that is behind the `finally` callback. Other code may run between any
-- two of these steps.
pub mod Chain
pub mod Safe
pub mod Invariant
pub mod Laws
pub mod Refine
pub mod Advance
pub mod Progress
pub mod Moves
pub mod Jobs
use llm_stack.Base.{
  ℕ, suc, ◌+◌, ◌≡◌, Bool, true, false, ◌&&◌, List, [], ◌∷◌, Option, none, some, Text, Map, get, put,
  delete, ◌==◌, text_eq, nat_eq, any, if◌then◌else◌,
}
use mathlib.Core.Option

pub data Status : Type 0 where
  waiting running finished retired : Status

pub record Job : Type 0 where
  pub id : ℕ
  pub key : Text
  pub prev : Option ℕ
  pub status : Status

-- The jobs stand newest first.
pub record Queues : Type 0 where
  pub next : ℕ
  pub queues : Map Text ℕ
  pub jobs : List Job

abbrev pub empty : Queues
empty = record { next = 0; queues = []; jobs = [] }

-- `serialize(key, fn)`: the new job waits on the key's tail, and its own tail takes that place.
unfoldable pub serialize : Text → Queues → Queues
serialize key s = record {
  next = suc s.next;
  queues = put key s.next s.queues;
  jobs = record { id = s.next; key = key; prev = get key s.queues; status = waiting } ∷ s.jobs;
}

abbrev pub is_retired : Status → Bool
is_retired retired = true
is_retired _ = false

abbrev pub starting : Status → Option Status
starting waiting = some running
starting _ = none

abbrev pub finishing : Status → Option Status
finishing running = some finished
finishing _ = none

abbrev pub retiring : Status → Option Status
retiring finished = some retired
retiring _ = none

-- A step of job `i`; none where the job is not in the state that the step starts from.
unfoldable pub move : (Status → Option Status) → ℕ → List Job → Option (List Job)
move f i [] = none
move f i (j ∷ js) =
    let later = move f i js in
    if j.id == i
    then Option.map (λ st. record j { status = st } ∷ js) (f j.status)
    else Option.map (λ ks. j ∷ ks) later

unfoldable pub job : ℕ → List Job → Option Job
job i [] = none
job i (j ∷ js) = if j.id == i then some j else job i js

-- Whether the promise that a job waits on has settled.
unfoldable pub settled : Option ℕ → List Job → Bool
settled none js = true
settled (some p) js = any (λ q. q.id == p && is_retired q.status) js

abbrev pub with_jobs : Queues → Option (List Job) → Option Queues
with_jobs s = Option.map (λ js. record s { jobs = js })

-- `prev.then(fn)` calls the function.
unfoldable pub start : ℕ → Queues → Option Queues
unfolding move job settled
start i s = elim (job i s.jobs) [
  | none ↦ none
  | some j ↦ if settled j.prev s.jobs then with_jobs s (move starting i s.jobs) else none
]

-- The function's promise settles, by a value or an error.
unfoldable pub finish : ℕ → Queues → Option Queues
unfolding move
finish i s = with_jobs s (move finishing i s.jobs)

abbrev pub is_tail : ℕ → Option ℕ → Bool
is_tail i none = false
is_tail i (some t) = t == i

-- The `finally` callback: the key is dropped if no later call has taken its place.
abbrev pub drop_tail : ℕ → Text → Map Text ℕ → Map Text ℕ
drop_tail i key queues = if is_tail i (get key queues) then delete key queues else queues

unfoldable pub retire : ℕ → Queues → Option Queues
unfolding move job
retire i s = elim (job i s.jobs) [
  | none ↦ none
  | some j ↦
      Option.map (λ js. record s { jobs = js; queues = drop_tail i j.key s.queues })
        (move retiring i s.jobs)
]

pub data Step (s t : Queues) : Type 0 where
  called : (key : Text) → t ≡ serialize key s → Step s t
  started : (i : ℕ) → start i s ≡ some t → Step s t
  finishes : (i : ℕ) → finish i s ≡ some t → Step s t
  retires : (i : ℕ) → retire i s ≡ some t → Step s t

pub data Reachable : Queues → Type 0 where
  here : Reachable empty
  next : {s t : Queues} → Reachable s → Step s t → Reachable t
