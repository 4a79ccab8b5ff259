-- ===== src/Web/Journal.antt =====
-- pat-service/web/src/admin/AdminApp.jsx: the audit log (`Audit`), its form, its filters and its
-- requests in flight.
pub mod Laws
use llm_stack.Base.{
  ◌≡◌, Bool, true, false, not, ◌&&◌, List, [], ◌∷◌, ◌++◌, Option, none, some, Text, codes, is_empty,
  text_beq, if◌then◌else◌,
}

pub record Form : Type 0 where
  pub actor : Text
  pub action : Text
  pub target_type : Text
  pub target_id : Text
  pub outcome : Text
  pub operation_id : Text
  pub from_time : Text
  pub to_time : Text

abbrev pub blank : Form
blank = record {
  actor = [];
  action = [];
  target_type = [];
  target_id = [];
  outcome = [];
  operation_id = [];
  from_time = [];
  to_time = [];
}

abbrev set : Text → Text → List (Text × Text) → List (Text × Text)
set name value more = if is_empty value then more else (name, value) ∷ more

-- A time is printed by `iso`, which throws for a text that is no time.
abbrev set_time :
    (Text → Option Text) → Text → Text → Option (List (Text × Text)) → Option (List (Text × Text))
set_time iso name value none = none
set_time iso name value (some more) =
    if is_empty value
    then some more
    else elim (iso value) [ none ↦ none | some t ↦ some ((name, t) ∷ more) ]

abbrev set_all : Form → List (Text × Text) → List (Text × Text)
set_all f times =
    (codes "limit", codes "50")
    ∷ set (codes "actor") f.actor (
        set (codes "action") f.action (
          set (codes "target_type") f.target_type (
            set (codes "target_id") f.target_id
              (set (codes "outcome") f.outcome (set (codes "operation_id") f.operation_id times)))))

abbrev with_times : Form → Option (List (Text × Text)) → Option (List (Text × Text))
with_times f none = none
with_times f (some times) = some (set_all f times)

-- `params`, by name; none where a time makes it throw.
unfoldable pub params : (Text → Option Text) → Form → Text → Option (List (Text × Text))
params iso f before = with_times f (
    set_time iso (codes "from") f.from_time
      (set_time iso (codes "to") f.to_time (some (set (codes "before_id") before []))))

-- A page: `data.events` and `data.next_before_id`, empty for the last page.
pub record Page {ℓ} (Row : Type ℓ) : Type ℓ where
  pub events : List Row
  pub next : Text

pub data Reply {ℓ} (Row : Type ℓ) : Type ℓ where
  answers : Page Row → Reply Row
  fails : Text → Reply Row

-- A request in flight: the filters and the id that it was sent for.
pub record Request : Type 0 where
  pub filters : Form
  pub before : Text

-- `edited`: the form is another object than the filters. `opened` is the row whose detail is shown.
pub record Journal {ℓ} (Row : Type ℓ) : Type ℓ where
  pub form : Form
  pub edited : Bool
  pub filters : Form
  pub events : List Row
  pub next : Text
  pub opened : Option Text
  pub error : Option Text
  pub loading : Bool
  pub requests : List Request

abbrev is_opened : Text → Option Text → Bool
is_opened id none = false
is_opened id (some j) = text_beq j id

abbrev pub is_sent : Option (List (Text × Text)) → Bool
is_sent none = false
is_sent (some _) = true

module _ {ℓ} {Row : Type ℓ} (iso : Text → Option Text) where
  -- load(before), up to its request. Where `params` throws it has set nothing.
  unfoldable pub ask : Text → Journal Row → Journal Row
  unfolding params
  ask before s =
      if is_sent (params iso s.filters before)
      then record s {
        loading = true;
        error = none;
        requests = s.requests ++ record { filters = s.filters; before = before } ∷ [];
      }
      else s

  -- The mounted panel, its effect run.
  abbrev pub mounted : Journal Row
  mounted = ask [] (record {
    form = blank;
    edited = false;
    filters = blank;
    events = [];
    next = [];
    opened = none;
    error = none;
    loading = true;
    requests = [];
  })

  -- Apply: the effect runs where the filters become another object.
  unfoldable pub submit : Journal Row → Journal Row
  unfolding ask
  submit s =
      if s.edited
      then ask [] (record s { opened = none; filters = s.form; edited = false })
      else record s { opened = none }

  -- `Load older events`
  unfoldable pub older : Journal Row → Journal Row
  unfolding ask
  older s = ask s.next s

module _ {ℓ} {Row : Type ℓ} where
  pub edit : Form → Journal Row → Journal Row
  edit form s = record s { form = form; edited = true }

  -- A click on a row.
  pub toggle : Text → Journal Row → Journal Row
  toggle id s = record s { opened = if is_opened id s.opened then none else some id }

  -- The rest of load(before).
  unfoldable pub receive : Request → Reply Row → List Request → Journal Row → Journal Row
  receive r (answers p) rest s = record s {
    events = if is_empty r.before then p.events else s.events ++ p.events;
    next = p.next;
    loading = false;
    requests = rest;
  }
  receive r (fails message) rest s = record s {
    error = some message;
    loading = false;
    requests = rest;
  }

  abbrev pub offers_older : Journal Row → Bool
  offers_older s = not s.loading && not (is_empty s.next)

module _ {ℓ} {Row : Type ℓ} (iso : Text → Option Text) (server : Form → Text → Reply Row) where
  pub data Step (s t : Journal Row) : Type ℓ where
    edits : (f : Form) → t ≡ edit f s → Step s t
    toggles : (id : Text) → t ≡ toggle id s → Step s t
    submits : t ≡ submit iso s → Step s t
    loads_older : offers_older s ≡ true → t ≡ older iso s → Step s t
    replied :
        (first : List Request) (r : Request) (rest : List Request)
        → s.requests ≡ first ++ r ∷ rest
        → t ≡ receive r (server r.filters r.before) (first ++ rest) s
        → Step s t
