-- ===== src/Examples/Web.antt =====
-- The dashboard and the console on small inputs.
use llm_stack.Base.{
  ◌++◌, ◌-◌, ℕ, suc, is_empty, if◌then◌else◌, ◌+◌, ◌*◌, ◌≤◌, ◌≡◌, ◌⊎◌, inl, refl, true, false, List,
  [], ◌∷◌, Option, none, some, Text, codes, concat, length, arith,
}
use llm_stack.Js.{arr, nil}
use llm_stack.Server.Completion.{Write, done, on_text, on_reasoning, returns, fails, completion}
use llm_stack.Server.Completion.Laws.{shown, reasons, dones, answer_shown, stream_ends_once}
use llm_stack.Web.Users
use llm_stack.Web.Users.{Filter}
use llm_stack.Web.Users.Laws as Settled
use llm_stack.Web.Units.{size, grow, unit_size, size_near}
use llm_stack.Web.Heatmap.{by_date, weekday, first_day, build_heatmap_weeks}
use llm_stack.Web.Heatmap.Laws.{cell_of, AreWeeks, weeks_hold_window}
use llm_stack.Server.History.{get_elem?}
use llm_stack.Web.Journal
use llm_stack.Web.Journal.{Form, Journal}
use llm_stack.Web.Journal.Laws
use llm_stack.Web.Journal.Laws.{events_of, next_id, log_of_filters}
use llm_stack.Web.Dashboard.{Connections}
use llm_stack.Web.Admin.{Audit, Answer, answers}

answer_shown_example :
    shown (
      completion true
        (on_text (codes "h") ∷ on_reasoning (codes "?") ∷ on_text (codes "i") ∷ [])
        false
        (returns (codes "hi")))
    ≡ codes "hi"
answer_shown_example =
    answer_shown true (on_text (codes "h") ∷ on_reasoning (codes "?") ∷ on_text (codes "i") ∷ [])
      false (codes "hi") (inl refl)

stream_ends_once_example :
    (before : List Write) × (reason : Write) × (completion true
        (on_text (codes "h") ∷ [])
        false
        (fails (codes "no"))
      ≡ before ++ reason ∷ done ∷ [])
    × (reasons (reason ∷ []) ≡ 1)
    × (reasons before ≡ 0)
    × (dones before ≡ 0)
stream_ends_once_example = stream_ends_once (on_text (codes "h") ∷ []) (fails (codes "no"))

size_near_example :
    (2 * (unit_size (size 1500).unit * (size 1500).tenths) ≤ 20 * 1500 + unit_size (size 1500).unit)
    × (20 * 1500
        ≤ 2 * (unit_size (size 1500).unit * (size 1500).tenths) + unit_size (size 1500).unit)
    × ((size 1500).unit ≤ 4)
    × (((size 1500).unit ≡ 4) ⊎ ((size 1500).tenths ≤ 10240))
    × (((size 1500).unit ≡ 0) ⊎ (10 ≤ (size 1500).tenths))
size_near_example = size_near 1500

kibibytes : size 1500 ≡ record { unit = 1; tenths = 15 }
unfolding size grow
kibibytes = refl

abbrev iso : ℕ → Text
iso day = day ∷ []

weeks_hold_window_example :
    (get_elem? (concat (build_heatmap_weeks iso [] 20000).0) (19900 - first_day 20000)
      ≡ some (cell_of iso (by_date [] []) 19900))
    × (length (concat (build_heatmap_weeks iso [] 20000).0) ≡ suc 20000 - first_day 20000)
    × AreWeeks (build_heatmap_weeks iso [] 20000).0
    × (weekday (first_day 20000) ≡ 0)
    × (first_day 20000 + 181 ≤ 20000)
    × (20000 ≤ first_day 20000 + 187)
weeks_hold_window_example =
    weeks_hold_window iso [] 20000 19900 (omega arith) (ground arith) (omega arith)

abbrev nine : ℕ
nine = 9

abbrev two_drafts : Connections
two_drafts = record {
  connections = arr nil;
  drafts = (codes "github", codes "t") ∷ (codes "jira", codes "u") ∷ [];
  busy = [];
  told = none;
}

abbrev journal : Text → Answer ℕ
journal before = answers (record { events = length before ∷ []; next_before_id = codes "9" })

abbrev opened : Audit ℕ
opened = record { events = 1 ∷ []; next = codes "12"; error = none; loading = false }

-- A server whose reply tells the page that it is for.
abbrev directory : Filter → Users.Reply
directory f = Users.answers (record { users = []; total = f.page })

abbrev listed : Users.Users
listed = Users.receive (directory Users.first_filter) [] Users.mounted

-- An audit log of two pages, both loaded.
abbrev time_text : Text → Option Text
time_text t = some t

abbrev log_server : Form → Text → Journal.Reply ℕ
log_server f before = Journal.answers (
    if is_empty before
    then record { events = 2 ∷ []; next = codes "2" }
    else record { events = 1 ∷ []; next = [] })

abbrev first : Journal.Request
first = record { filters = Journal.blank; before = [] }

abbrev second : Journal.Request
second = record { filters = Journal.blank; before = codes "2" }

abbrev first_page : Journal ℕ
first_page = Journal.receive first (log_server Journal.blank []) [] (Journal.mounted time_text)

abbrev both_pages : Journal ℕ
both_pages =
    Journal.receive second (log_server Journal.blank (codes "2")) []
      (Journal.older time_text first_page)

both_pages-Reachable : Laws.Reachable time_text log_server both_pages
unfolding Journal.receive Journal.ask Journal.params Journal.older
both_pages-Reachable =
    Laws.next
      (Laws.next (Laws.next Laws.here (Journal.replied [] first [] refl refl) refl)
        (Journal.loads_older refl refl) tt)
      (Journal.replied [] second [] refl refl) refl

both_quiet : both_pages.loading ≡ false
unfolding Journal.receive
both_quiet = refl

log_of_filters_example :
    (k : ℕ) × (both_pages.events ≡ events_of time_text log_server both_pages.filters (suc k))
    × (both_pages.next ≡ next_id time_text log_server both_pages.filters (suc k))
log_of_filters_example =
    log_of_filters time_text log_server both_pages both_pages-Reachable both_quiet
