-- ===== src/Web/Detail.antt =====
-- pat-service/web/src/admin/UserDetail.jsx: the filters of a user's detail with their query, the
-- effect that loads it, and the lists `Sessions` and `Requests` below it; `ranges` of common.jsx.
pub mod Laws
use llm_stack.Base.{
  ℕ, zero, suc, ◌*◌, ◌≡◌, Bool, List, [], ◌∷◌, ◌++◌, Option, none, some, Text, codes, decimal,
  is_empty, find, text_beq, if◌then◌else◌,
}
use llm_stack.Js.{Json, truthy}
use llm_stack.Web.Pages.{pages_of}

pub record Range : Type 0 where
  pub key : Text
  pub hours : ℕ

abbrev pub ranges : List Range
ranges =
    record { key = codes "24h"; hours = 24 }
    ∷ record { key = codes "7d"; hours = 168 }
    ∷ record { key = codes "30d"; hours = 720 }
    ∷ record { key = codes "90d"; hours = 2160 }
    ∷ []

pub record Filter : Type 0 where
  pub range : Text
  pub model : Text
  pub source : Text
  pub harness : Text

-- if (value) p.set(name, value)
abbrev optional : Text → Text → List (Text × Text)
optional name value = if is_empty value then [] else (name, value) ∷ []

-- The parameters of the query, none where the range is not known. `moment n` prints the moment that
-- lies n milliseconds before now.
abbrev query_with : (ℕ → Text) → Filter → Option Range → Option (List (Text × Text))
query_with moment f none = none
query_with moment f (some r) = some (
    (codes "from", moment (r.hours * 3600000))
    ∷ (codes "to", moment 0)
    ∷ (optional (codes "model") f.model
        ++ (optional (codes "source") f.source ++ optional (codes "harness") f.harness)))

pub query : (ℕ → Text) → Filter → Option (List (Text × Text))
query moment f = query_with moment f (find (λ r. text_beq r.key f.range) ranges)

-- How getJSON ends.
pub data Reply {ℓ} (A : Type ℓ) : Type ℓ where
  gives : A → Reply A
  fails : Text → Reply A

pub record Detail : Type 0 where
  pub detail : Option Json
  pub error : Option Text

-- The effect, up to its request, and the reply to that.
pub reload : Detail → Detail
reload s = record { detail = none; error = none }

pub receive : Reply Json → Detail → Detail
receive (gives v) s = record s { detail = some v }
receive (fails message) s = record s { error = some message }

-- What the section shows: an error hides what has been loaded.
pub data View : Type 0 where
  failure : Text → View
  loading : View
  shows : Json → View

abbrev shown : Option Json → View
shown none = loading
shown (some v) = if truthy (some v) then shows v else loading

abbrev failed : View → Option Text → View
failed v none = v
failed v (some message) = if is_empty message then v else failure message

pub view : Detail → View
view s = failed (shown s.detail) s.error

abbrev sessions_page_size : ℕ
sessions_page_size = 20

-- `Sessions`
pub record Listing : Type 0 where
  pub sessions : List Json
  pub total : ℕ

-- The slice of a page: `limit` and `offset`.
pub slice : ℕ → List (Text × Text)
slice page =
    (codes "limit", decimal sessions_page_size)
    ∷ (codes "offset", decimal (page * sessions_page_size))
    ∷ []

-- A failure is an empty list.
pub received : Reply Listing → Listing
received (gives l) = l
received (fails _) = record { sessions = []; total = 0 }

pub pages : Option Listing → ℕ
pages none = 1
pages (some l) = pages_of sessions_page_size l.total

-- `Requests`: a page of them, with the id to go on before, empty for the last page.
pub record Page {ℓ} (Row : Type ℓ) : Type ℓ where
  pub rows : List Row
  pub next_before_id : Text

pub record Requests {ℓ} (Row : Type ℓ) : Type ℓ where
  pub rows : List Row
  pub next : Text

module _ {ℓ} {Row : Type ℓ} where
  abbrev pub page_of : Reply (Page Row) → Page Row
  page_of (gives p) = p
  page_of (fails _) = record { rows = []; next_before_id = [] }

  -- load(before); the list that older rows join is there, since its button is.
  pub load : Text → Reply (Page Row) → Requests Row → Requests Row
  load before r s =
      let p = page_of r in
      record {
        rows = if is_empty before then p.rows else s.rows ++ p.rows;
        next = p.next_before_id;
      }

  -- `Load older requests`, as long as it is offered, up to `times`.
  pub load_older : (Text → Reply (Page Row)) → ℕ → Requests Row → Requests Row
  unfolding load
  load_older server zero s = s
  load_older server (suc times) s =
      let rest = load_older server times (load s.next (server s.next) s) in
      if is_empty s.next then s else rest
