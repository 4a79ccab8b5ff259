-- ===== src/Web/Users.antt =====
-- pat-service/web/src/admin/AdminApp.jsx: the list of users, its filter and its requests in flight;
-- `getJSON` of admin/common.jsx.
pub mod Laws
use llm_stack.Base.{
  ℕ, ◌+◌, ◌-◌, ◌≡◌, Bool, true, false, not, ◌&&◌, List, [], ◌∷◌, ◌++◌, Option, none, some, Text,
  codes, decimal, trim, text_beq, nat_beq, is_empty, if◌then◌else◌,
}
use llm_stack.Js.{Json, obj, end, prop, prop_within, Result, ok, throws, ◌>>=◌, truthy, to_text}
use llm_stack.Web.Pages.{pages_of, can_go_back, can_go_on}

-- A response: `response.ok`, its status, and its body, none where that is not JSON.
pub record Response : Type 0 where
  pub is_ok : Bool
  pub status : ℕ
  pub body : Option Json

abbrev body_of : Option Json → Json
body_of none = obj end
body_of (some v) = v

-- How getJSON ends: with the message of its error, where it is one that getJSON makes. A message
-- that is no string is converted; `throws` is a TypeError.
pub data Got : Type 0 where
  gives : Json → Got
  fails_with : Text → Got

abbrev message_or : Text → Option Json → Result Got
message_or d none = ok (fails_with d)
message_or d (some m) =
    let text = (do t ← to_text m; ok (fails_with t)) in
    if truthy (some m) then text else ok (fails_with d)

unfoldable pub get_json : Response → Result Got
get_json r =
    let refusal = (do
      error ← prop (codes "error") (body_of r.body)
      message ← prop_within (codes "message") error
      message_or (codes "Request failed (" ++ (decimal r.status ++ codes ")")) message) in
    if r.is_ok then ok (gives (body_of r.body)) else refusal

-- What the effect depends on.
pub record Filter : Type 0 where
  pub query : Text
  pub days : ℕ
  pub page : ℕ

-- `data`, as far as the panel reads it.
pub record Listing : Type 0 where
  pub users : List Json
  pub total : ℕ

pub data Reply : Type 0 where
  answers : Listing → Reply
  fails : Text → Reply

-- `requests`: the filters that the requests in flight were sent for, oldest first.
pub record Users : Type 0 where
  pub search : Text
  pub filter : Filter
  pub listing : Option Listing
  pub error : Option Text
  pub loading : Bool
  pub requests : List Filter

abbrev pub users_page_size : ℕ
users_page_size = 25

-- The query of the request: `params`, by name.
abbrev pub params : Filter → List (Text × Text)
params f =
    ((codes "page", decimal f.page)
      ∷ (codes "size", decimal users_page_size)
      ∷ (codes "days", decimal f.days)
      ∷ [])
    ++ (if is_empty f.query then [] else (codes "search", f.query) ∷ [])

-- The effect.
pub ask : Users → Users
ask s = record s { loading = true; error = none; requests = s.requests ++ s.filter ∷ [] }

abbrev pub same_filter : Filter → Filter → Bool
same_filter f g = text_beq f.query g.query && nat_beq f.days g.days && nat_beq f.page g.page

-- The states are set, and the effect runs where one of those that it depends on is another.
pub change : Filter → Users → Users
unfolding ask
change f s = if same_filter s.filter f then s else ask (record s { filter = f })

abbrev pub first_filter : Filter
first_filter = record { query = []; days = 30; page = 0 }

abbrev pub mounted : Users
mounted = record {
  search = [];
  filter = first_filter;
  listing = none;
  error = none;
  loading = true;
  requests = first_filter ∷ [];
}

-- The search field and its submission, the choice of the days, and the pager.
pub type_in : Text → Users → Users
type_in t s = record s { search = t }

pub submit : Users → Users
unfolding change
submit s = change (record { query = trim s.search; days = s.filter.days; page = 0 }) s

pub choose_days : ℕ → Users → Users
unfolding change
choose_days d s = change (record { query = s.filter.query; days = d; page = 0 }) s

pub turn_to : ℕ → Users → Users
unfolding change
turn_to p s = change (record { query = s.filter.query; days = s.filter.days; page = p }) s

-- `data ? Math.max(1, …) : 1`
abbrev pub pages : Users → ℕ
pages s = elim s.listing [ none ↦ 1 | some l ↦ pages_of users_page_size l.total ]

-- How a request ends; `rest` are those still in flight.
unfoldable pub receive : Reply → List Filter → Users → Users
receive (answers l) rest s = record s { listing = some l; loading = false; requests = rest }
receive (fails message) rest s = record s { error = some message; loading = false; requests = rest }

-- The replies come in the order of their requests; `server` answers each filter.
pub data Step (server : Filter → Reply) (s t : Users) : Type 0 where
  types : (x : Text) → t ≡ type_in x s → Step server s t
  submits : t ≡ submit s → Step server s t
  chooses : (d : ℕ) → t ≡ choose_days d s → Step server s t
  back :
      can_go_back s.filter.page (pages s) s.loading ≡ true
      → t ≡ turn_to (s.filter.page - 1) s
      → Step server s t
  on :
      can_go_on s.filter.page (pages s) s.loading ≡ true
      → t ≡ turn_to (s.filter.page + 1) s
      → Step server s t
  replied :
      (f : Filter) (rest : List Filter)
      → s.requests ≡ f ∷ rest
      → t ≡ receive (server f) rest s
      → Step server s t
