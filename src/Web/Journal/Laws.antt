-- ===== src/Web/Journal/Laws.antt =====
-- What the audit log shows.
use llm_stack.Base.{
  ℕ, zero, suc, ◌≡◌, ◌∙◌, refl, sym, ap, subst, Bool, true, false, List, [], ◌∷◌, ◌++◌, Option,
  none, Text, is_empty, if_ind, arith,
}
use llm_stack.Web.Journal.{
  Form, params, Page, Reply, answers, fails, Request, Journal, is_sent, ask, mounted, submit, older,
  edit, toggle, receive, offers_older, Step, edits, toggles, submits, loads_older, replied,
}

single :
    (q r : Request) (first rest : List Request)
    → q ∷ [] ≡ first ++ r ∷ rest
    → (r ≡ q) × (first ++ rest ≡ [])
single q r [] rest e = (cc, cc)
single q r (x ∷ []) rest e = absurd (ground (arith, e))
single q r (x ∷ y ∷ ys) rest e = absurd (ground (arith, e))

none_in : (r : Request) (first rest : List Request) → [] ≡ first ++ r ∷ rest → ⊥
none_in r [] rest e = ground (arith, e)
none_in r (x ∷ xs) rest e = ground (arith, e)

module _ {ℓ} {Row : Type ℓ} (iso : Text → Option Text) (server : Form → Text → Reply Row) where
  abbrev is_answer : Reply Row → Bool
  is_answer (answers _) = true
  is_answer (fails _) = false

  abbrev page_of : Reply Row → Page Row
  page_of (answers p) = p
  page_of (fails _) = record { events = []; next = [] }

  -- The id behind so many pages, and the events of these pages, newest page first.
  pub next_id : Form → ℕ → Text
  next_id f zero = []
  next_id f (suc k) = (page_of (server f (next_id f k))).next

  pub events_of : Form → ℕ → List Row
  unfolding next_id
  events_of f zero = []
  events_of f (suc k) = events_of f k ++ (page_of (server f (next_id f k))).events

  -- Filters are applied while no request is in flight and their times can be printed, and no request
  -- fails.
  abbrev IsCalm : {s t : Journal Row} → Step iso server s t → Type 0
  IsCalm {s} (submits _) = (s.requests ≡ []) × (is_sent (params iso s.form []) ≡ true)
  IsCalm (replied _ r _ _ _) = is_answer (server r.filters r.before) ≡ true
  IsCalm _ = Unit

  pub data Reachable : Journal Row → Type ℓ where
    here : Reachable (mounted iso)
    next : {s t : Journal Row} → Reachable s → (st : Step iso server s t) → IsCalm st → Reachable t

  abbrev Shows : Form → ℕ → Journal Row → Type ℓ
  Shows f k s = (s.events ≡ events_of f k) × (s.next ≡ next_id f k)

  abbrev request : Form → Text → Request
  request f before = record { filters = f; before = before }

  data Inv (s : Journal Row) : Type ℓ where
    quiet : (k : ℕ) → s.requests ≡ [] → Shows s.filters (suc k) s → Inv s
    first_page : s.loading ≡ true → s.requests ≡ request s.filters [] ∷ [] → Inv s
    next_page :
        (k : ℕ)
        → s.loading ≡ true
        → s.requests ≡ request s.filters (next_id s.filters k) ∷ []
        → is_empty (next_id s.filters k) ≡ false
        → Shows s.filters k s
        → Inv s

  edit-Inv : (f : Form) (s : Journal Row) → Inv s → Inv (edit f s)
  unfolding edit
  edit-Inv f s (quiet k r h) = quiet k r h
  edit-Inv f s (first_page l r) = first_page l r
  edit-Inv f s (next_page k l r ne h) = next_page k l r ne h

  open-Inv : (o : Option Text) (s : Journal Row) → Inv s → Inv (record s { opened = o })
  open-Inv o s (quiet k r h) = quiet k r h
  open-Inv o s (first_page l r) = first_page l r
  open-Inv o s (next_page k l r ne h) = next_page k l r ne h

  submit-Inv :
      (s : Journal Row)
      → s.requests ≡ []
      → is_sent (params iso s.form []) ≡ true
      → Inv s
      → Inv (submit iso s)
  unfolding submit ask
  submit-Inv s free can v =
      if_ind Inv s.edited _ (record s { opened = none })
        (λ _. rw can (first_page refl (ap (λ l. l ++ request s.form [] ∷ []) free)))
        (λ _. open-Inv none s v)

  quiet_of :
      (s : Journal Row)
      → s.loading ≡ false
      → Inv s
      → (k : ℕ) × (s.requests ≡ []) × Shows s.filters (suc k) s
  quiet_of s l (quiet k r h) = (k, r, h)
  quiet_of s l (first_page busy r) = absurd (ground (arith, l, busy))
  quiet_of s l (next_page k busy r ne h) = absurd (ground (arith, l, busy))

  older-Inv : (s : Journal Row) → offers_older s ≡ true → Inv s → Inv (older iso s)
  unfolding older ask
  older-Inv s can v =
      let (k, free, shown) = quiet_of s (ground (arith, can)) v in
      if_ind Inv (is_sent (params iso s.filters s.next)) _ s
        (λ _.
          next_page (suc k) refl
            (ap (λ l. l ++ request s.filters s.next ∷ []) free
              ∙ ap (λ b. request s.filters b ∷ []) shown.1)
            (ap is_empty (sym shown.1) ∙ ground (arith, can)) shown)
        (λ _. v)

  -- The reply to the one request in flight.
  reply_first :
      (p : Page Row) (s : Journal Row) (left : List Request)
      → server s.filters [] ≡ answers p
      → left ≡ []
      → Inv (receive (request s.filters []) (answers p) left s)
  unfolding receive events_of next_id
  reply_first p s left e none_left =
      quiet 0 none_left (ap (λ r. (page_of r).events) (sym e), ap (λ r. (page_of r).next) (sym e))

  reply_next :
      (p : Page Row) (k : ℕ) (s : Journal Row) (left : List Request)
      → server s.filters (next_id s.filters k) ≡ answers p
      → is_empty (next_id s.filters k) ≡ false
      → Shows s.filters k s
      → left ≡ []
      → Inv (receive (request s.filters (next_id s.filters k)) (answers p) left s)
  unfolding receive events_of next_id
  reply_next p k s left e ne shown none_left = quiet k none_left (
    rw ne (
        ap (λ l. l ++ p.events) shown.0
        ∙ ap (λ r. events_of s.filters k ++ (page_of r).events) (sym e)),
    ap (λ r. (page_of r).next) (sym e),
  )

  by_reply :
      (P : Reply Row → Type ℓ) (r : Reply Row)
      → is_answer r ≡ true
      → ((p : Page Row) → r ≡ answers p → P (answers p))
      → P r
  by_reply P (answers p) e h = h p refl
  by_reply P (fails m) e h = cc

  replied-Inv :
      (s : Journal Row) (first : List Request) (r : Request) (rest : List Request)
      → s.requests ≡ first ++ r ∷ rest
      → is_answer (server r.filters r.before) ≡ true
      → Inv s
      → Inv (receive r (server r.filters r.before) (first ++ rest) s)
  replied-Inv s first r rest at ok v = by_state v
    where
      own : (q : Request) → s.requests ≡ q ∷ [] → (r ≡ q) × (first ++ rest ≡ [])
      own q e = single q r first rest (sym e ∙ at)

      onward :
          (q : Request)
          → s.requests ≡ q ∷ []
          → ((p : Page Row)
              → server q.filters q.before ≡ answers p
              → Inv (receive q (answers p) (first ++ rest) s))
          → Inv (receive r (server r.filters r.before) (first ++ rest) s)
      onward q e h =
          subst (λ x. Inv (receive x (server x.filters x.before) (first ++ rest) s))
            (sym (own q e).0)
            (by_reply (λ x. Inv (receive q x (first ++ rest) s)) (server q.filters q.before)
              (subst (λ (x : Request). is_answer (server x.filters x.before) ≡ true) (own q e).0 ok)
              h)

      by_state : Inv s → Inv (receive r (server r.filters r.before) (first ++ rest) s)
      by_state (quiet k free h) = absurd (none_in r first rest (sym free ∙ at))
      by_state (first_page l e) =
          onward (request s.filters []) e (λ p f. reply_first p s (first ++ rest) f (own _ e).1)
      by_state (next_page k l e ne h) =
          onward (request s.filters (next_id s.filters k)) e
            (λ p f. reply_next p k s (first ++ rest) f ne h (own _ e).1)

  Step-Inv : (s t : Journal Row) (st : Step iso server s t) → IsCalm st → Inv s → Inv t
  unfolding toggle
  Step-Inv s t (edits f e) c v = subst Inv (sym e) (edit-Inv f s v)
  Step-Inv s t (toggles id e) c v = subst Inv (sym e) (open-Inv _ s v)
  Step-Inv s t (submits e) c v = subst Inv (sym e) (submit-Inv s c.0 c.1 v)
  Step-Inv s t (loads_older can e) c v = subst Inv (sym e) (older-Inv s can v)
  Step-Inv s t (replied first r rest at e) c v =
      subst Inv (sym e) (replied-Inv s first r rest at c v)

  Reachable-Inv : (s : Journal Row) → Reachable s → Inv s
  unfolding ask params
  Reachable-Inv _ here = first_page refl refl
  Reachable-Inv t (next {s = s} r st c) = Step-Inv s t st c (Reachable-Inv s r)

  -- Where filters are applied only while no request is in flight, with times that can be printed,
  -- and no request fails: whenever the log is not loading, it shows the events of the first so many
  -- pages of its own filters, at least of one, each once and in order, and `Load older events` goes on
  -- behind the last of them.
  pub log_of_filters :
      (s : Journal Row)
      → Reachable s
      → s.loading ≡ false
      → (k : ℕ) × (s.events ≡ events_of s.filters (suc k)) × (s.next ≡ next_id s.filters (suc k))
  log_of_filters s r l =
      let (k, _, shown) = quiet_of s l (Reachable-Inv s r) in (k, shown.0, shown.1)
