-- ===== src/Server/Queue/Chain.antt =====
-- The order of the jobs of one key, and what a step of one job leaves of it.
use mathlib.Core.Option
use llm_stack.Base.{
  ℕ, ◌<◌, ◌≡◌, ◌≢◌, ◌∙◌, List, [], ◌∷◌, Option, none, some, Text, ◌==◌, text_eq, nat_eq,
  if◌then◌else◌, All, arith,
}
use llm_stack.Server.Queue.{Status, waiting, retired, Job, is_retired}

-- Every job of the key has been retired.
abbrev pub AllRetired : Text → List Job → Type 0
AllRetired k js = All (λ o. o.key ≡ k → o.status ≡ retired) js

abbrev pub newest : Text → List Job → Option Job
newest k [] = none
newest k (o ∷ os) = if o.key == k then some o else newest k os

-- The newest job of the key, if it is not retired: what `queues` should hold.
abbrev pub tail_if : Option Job → Option ℕ
tail_if none = none
tail_if (some o) = if is_retired o.status then none else some o.id

abbrev pub tail_of : Text → List Job → Option ℕ
tail_of k js = tail_if (newest k js)

abbrev pub Waits : Text → Option ℕ → List Job → Type 0
Waits k none js = AllRetired k js
Waits k (some p) js = Option.map (λ (o : Job). o.id) (newest k js) ≡ some p

-- A job against those before it: its number is new, it waits on the newest one of its key unless
-- all of these are retired, and it has started only if all are.
pub record Link (j : Job) (older : List Job) : Type 0 where
  pub fresh : All (λ o. o.id < j.id) older
  pub waits : Waits j.key j.prev older
  pub order : j.status ≢ waiting → AllRetired j.key older

abbrev pub Chain : List Job → Type 0
Chain [] = Unit
Chain (j ∷ js) = Link j js × Chain js

-- Job `i`, of this key, goes from one status to another, and may, for all before it are retired.
pub data Moved (f : Status → Option Status) (i : ℕ) (k : Text) : List Job → List Job → Type 0 where
  here :
      {j : Job} {js : List Job} {st : Status}
      → j.id ≡ i
      → j.key ≡ k
      → f j.status ≡ some st
      → AllRetired k js
      → Moved f i k (j ∷ js) (record j { status = st } ∷ js)
  there :
      {j : Job} {js ks : List Job} → j.id ≢ i → Moved f i k js ks → Moved f i k (j ∷ js) (j ∷ ks)

-- A step never leaves the retired status, nor goes back to waiting.
pub record IsForward (f : Status → Option Status) : Type 0 where
  pub keeps : f retired ≡ none
  pub leaves : (a : Status) → f a ≢ some waiting

module _ {f : Status → Option Status} {i : ℕ} {key : Text} (fwd : IsForward f) where
  Moved-AllRetired :
      (k : Text) {js ks : List Job} → Moved f i key js ks → AllRetired k js → AllRetired k ks
  Moved-AllRetired k (here {j = j} e ek ef safe) (h, hs) =
      ((λ same. absurd (ground (arith, h same, fwd.keeps))), hs)
  Moved-AllRetired k (there ne m) (h, hs) = (h, Moved-AllRetired k m hs)

  Moved-newest :
      (k : Text) {js ks : List Job}
      → Moved f i key js ks
      → Option.map (λ (o : Job). o.id) (newest k ks) ≡ Option.map (λ (o : Job). o.id) (newest k js)
  Moved-newest k (here {j = j} e ek ef safe) = ground arith
  Moved-newest k (there {j = j} ne m) = ground (arith, Moved-newest k m)

  pub Moved-below :
      (n : ℕ) {js ks : List Job}
      → Moved f i key js ks
      → All (λ o. o.id < n) js
      → All (λ o. o.id < n) ks
  Moved-below n (here e ek ef safe) h = h
  Moved-below n (there ne m) (h, hs) = (h, Moved-below n m hs)

  Moved-Waits :
      (k : Text) (p : Option ℕ) {js ks : List Job}
      → Moved f i key js ks
      → Waits k p js
      → Waits k p ks
  Moved-Waits k none m w = Moved-AllRetired k m w
  Moved-Waits k (some p) m w = Moved-newest k m ∙ w

  -- A step keeps the order of the jobs.
  pub Moved-Chain : {js ks : List Job} → Moved f i key js ks → Chain js → Chain ks
  Moved-Chain (here {j = j} {st = st} e ek ef safe) (l, c) =
      (record { fresh = l.fresh; waits = l.waits; order = λ _. rw ek safe }, c)
  Moved-Chain (there {j = j} ne m) (l, c) = (
    record {
      fresh = Moved-below j.id m l.fresh;
      waits = Moved-Waits j.key j.prev m l.waits;
      order = λ ns. Moved-AllRetired j.key m (l.order ns);
    },
    Moved-Chain m c,
  )
