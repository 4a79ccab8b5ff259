-- ===== src/Web/Admin.antt =====
-- pat-service/web/src/admin: the journal (`Audit`), the choice of a screen (`AdminApp`) and the
-- texts of common.jsx; `agentLabel` of api.js and the choice of the application in `Root`.
pub mod Laws
use llm_stack.Base.{
  ℕ, zero, suc, ◌≡◌, ◌+◌, Bool, true, false, not, ◌&&◌, ◌||◌, List, [], ◌∷◌, ◌++◌, Option, none,
  some, Text, codes, filter, any, take, is_empty, text_beq, nat_beq, ltb, if◌then◌else◌, length,
}

-- One page of the journal: `data.events` and `data.next_before_id`, empty for the last page.
pub record Page {ℓ} (Row : Type ℓ) : Type ℓ where
  pub events : List Row
  pub next_before_id : Text

pub data Answer {ℓ} (Row : Type ℓ) : Type ℓ where
  answers : Page Row → Answer Row
  fails : Text → Answer Row

pub record Audit {ℓ} (Row : Type ℓ) : Type ℓ where
  pub events : List Row
  pub next : Text
  pub error : Option Text
  pub loading : Bool

abbrev pub empty_audit {ℓ} : {Row : Type ℓ} → Audit Row
empty_audit = record { events = []; next = []; error = none; loading = true }

module _ {ℓ} {Row : Type ℓ} where
  -- load(before), with the answer of its request.
  pub load : Text → Answer Row → Audit Row → Audit Row
  load before (answers p) s = record s {
    events = if is_empty before then p.events else s.events ++ p.events;
    next = p.next_before_id;
    error = none;
    loading = false;
  }
  load before (fails message) s = record s { error = some message; loading = false }

  -- The first load, then `Load older events` as long as it is offered, up to `times`.
  pub load_older : (Text → Answer Row) → ℕ → Audit Row → Audit Row
  unfolding load
  load_older journal zero s = s
  load_older journal (suc times) s =
      let rest = load_older journal times (load s.next (journal s.next) s) in
      if is_empty s.next then s else rest

-- path.split('/').filter(Boolean)
abbrev pub push_char : ℕ → List Text → List Text
push_char c [] = (c ∷ []) ∷ []
push_char c (p ∷ ps) = (c ∷ p) ∷ ps

abbrev pub split_slash : Text → List Text
split_slash [] = [] ∷ []
split_slash (c ∷ s) =
    let rest = split_slash s in if nat_beq c 47 then [] ∷ rest else push_char c rest

abbrev pub parts : Text → List Text
parts path = filter (λ p. not (is_empty p)) (split_slash path)

abbrev pub second : List Text → Option Text
second (a ∷ b ∷ rest) = some b
second _ = none

abbrev pub third : List Text → Option Text
third (a ∷ b ∷ c ∷ rest) = some c
third _ = none

-- The keys of `screens`.
abbrev pub screens : List Text
screens =
    codes "overview"
    ∷ codes "users"
    ∷ codes "inference"
    ∷ codes "nodes"
    ∷ codes "routes"
    ∷ codes "audit"
    ∷ []

-- The properties that every object inherits, which `screens[key]` finds too.
abbrev pub inherited : List Text
inherited =
    codes "constructor"
    ∷ codes "toString"
    ∷ codes "toLocaleString"
    ∷ codes "valueOf"
    ∷ codes "hasOwnProperty"
    ∷ codes "isPrototypeOf"
    ∷ codes "propertyIsEnumerable"
    ∷ codes "__proto__"
    ∷ codes "__defineGetter__"
    ∷ codes "__defineSetter__"
    ∷ codes "__lookupGetter__"
    ∷ codes "__lookupSetter__"
    ∷ []

unfoldable pub current_of : Option Text → Text
current_of none = codes "overview"
current_of (some p) =
    if any (text_beq p) screens || any (text_beq p) inherited then p else codes "overview"

-- `decode` is decodeURIComponent, none where it throws.
abbrev pub subject_of : (Text → Option Text) → Text → Option Text → Option (Option Text)
subject_of decode current none = some none
subject_of decode current (some p) =
    if text_beq current (codes "users")
    then elim (decode p) [ none ↦ none | some t ↦ some (some t) ]
    else some none

pub data View : Type 0 where
  checking denied : View
  screen : Text → View
  user : Text → View

abbrev pub shown_screen : Text → Option Text → View
shown_screen current none = screen current
shown_screen current (some t) = if is_empty t then screen current else user t

-- AdminApp: none where decodeURIComponent throws.
unfoldable pub admin_app : (Text → Option Text) → Option (List Text) → Text → Option View
admin_app decode capabilities path =
    let current = current_of (second (parts path)) in
    elim (subject_of decode current (third (parts path))) [
      | none ↦ none
      | some subject ↦ elim capabilities [
        | none ↦ some checking
        | some held ↦
            if any (λ c. text_beq c (codes "admin")) held
            then some (shown_screen current subject)
            else some denied
      ]
    ]

-- Root: whether the path is the console's.
pub is_admin_path : Text → Bool
is_admin_path path = text_beq path (codes "/admin") || text_beq (take 7 path) (codes "/admin/")

-- agentLabel
pub agent_label : Text → Text → Text
agent_label harness role =
    if is_empty harness
    then codes "—"
    else if not (is_empty role)
        && not (text_beq role (codes "main"))
        && not (text_beq role (codes "unknown"))
    then harness ++ (codes " · " ++ role)
    else harness

-- coverageText
pub coverage_text : (Option Text → Text) → Text → Option Text → Text
coverage_text date coverage since =
    if text_beq coverage (codes "all_paths")
    then codes "Usage covers all configured inference paths."
    else if text_beq coverage (codes "mixed")
    then codes "Usage covers PAT and agent traffic only before "
      ++ (date since ++ codes ", all configured inference paths after it.")
    else codes "Usage covers PAT and agent traffic only; Open WebUI chat is not counted yet."
