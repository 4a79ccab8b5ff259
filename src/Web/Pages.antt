-- ===== src/Web/Pages.antt =====
-- pat-service/web/src: paging. The list of sessions of main.jsx (`loadSessions`, the effect that
-- calls it and the buttons), and the bounds that it shares with `Pager` of admin/common.jsx.
pub mod Laws
use llm_stack.Base.{
  ℕ, suc, ◌+◌, ◌-◌, ◌*◌, ◌/◌, max, ◌≡◌, Bool, true, false, not, ◌&&◌, ◌||◌, List, [], ◌∷◌, Option,
  none, some, ltb, leb, nat_beq, if◌then◌else◌,
}
use llm_stack.Js.{Json}

-- Math.max(1, Math.ceil(total / size))
abbrev pub pages_of : ℕ → ℕ → ℕ
pages_of size total = max 1 ((total + (size - 1)) / size)

-- Whether the buttons can be pressed: none is there for a single page.
abbrev pub can_go_back : ℕ → ℕ → Bool → Bool
can_go_back page pages disabled = ltb 1 pages && not (disabled || nat_beq page 0)

abbrev pub can_go_on : ℕ → ℕ → Bool → Bool
can_go_on page pages disabled = ltb 1 pages && not (disabled || leb pages (page + 1))

abbrev pub sessions_page_size : ℕ
sessions_page_size = 20

-- `requests`: the pages of the requests in flight.
pub record Sessions : Type 0 where
  pub page : ℕ
  pub loading : Bool
  pub total : ℕ
  pub sessions : List Json
  pub requests : List ℕ

-- How a request ends: a response that is not ok and one that fails are the same to the panel.
pub data Reply : Type 0 where
  fails : Reply
  answers : List Json → ℕ → Reply

-- loadSessions(page), up to its `await`.
unfoldable pub ask : ℕ → Sessions → Sessions
ask page s = record s { loading = true; requests = page ∷ s.requests }

-- The mounted panel: its effect has run.
abbrev pub mounted : Sessions
mounted = record { page = 0; loading = true; total = 0; sessions = []; requests = 0 ∷ [] }

-- A new page, whose effect asks for it.
unfoldable pub turn_to : ℕ → Sessions → Sessions
unfolding ask
turn_to page s = ask page (record s { page = page })

abbrev pub without : ℕ → List ℕ → List ℕ
without p [] = []
without p (q ∷ qs) = if nat_beq q p then qs else q ∷ without p qs

-- The rest of loadSessions.
unfoldable pub receive : ℕ → Reply → Sessions → Sessions
receive p fails s = record s { loading = false; requests = without p s.requests }
receive p (answers found total) s = record s {
  loading = false;
  requests = without p s.requests;
  sessions = found;
  total = total;
}

abbrev pub pages : Sessions → ℕ
pages s = pages_of sessions_page_size s.total

abbrev pub waits_for : ℕ → List ℕ → Bool
waits_for p [] = false
waits_for p (q ∷ qs) = nat_beq q p || waits_for p qs

pub data Step (s t : Sessions) : Type 0 where
  back : can_go_back s.page (pages s) s.loading ≡ true → t ≡ turn_to (s.page - 1) s → Step s t
  on : can_go_on s.page (pages s) s.loading ≡ true → t ≡ turn_to (s.page + 1) s → Step s t
  replied : (p : ℕ) (r : Reply) → waits_for p s.requests ≡ true → t ≡ receive p r s → Step s t

pub data Reachable : Sessions → Type 0 where
  here : Reachable mounted
  next : {s t : Sessions} → Reachable s → Step s t → Reachable t
