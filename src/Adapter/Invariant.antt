-- ===== src/Adapter/Invariant.antt =====
-- The invariant of server and client together, over the steps of either.
use llm_stack.Base.{
  ℕ, ◌≡◌, ◌∙◌, refl, sym, ap, subst, Option, none, some, Text, Map, get, get-nil, get-put, ◌==◌,
  nat_eq, text_eq, eq_of, arith, Bool-cases, inl, inr,
}
use llm_stack.Js.{Json}
use llm_stack.Server.Queue
use llm_stack.Server.Queue.{Queues, Job, Status, job, serialize, start, finish, retire}
use llm_stack.Acp.Dispatch
use llm_stack.Acp.Dispatch.{Acp, Listener, on_message, decide, begin_prompt, end_prompt, abort}
use llm_stack.Acp.Dispatch.Laws.{Heard}
use llm_stack.Adapter.{Adapter, started, with_queues, IsApart}
use llm_stack.Server.Queue.Jobs.{Runs}

pub with_queues-eq :
    (s t : Adapter) (o : Option Queues)
    → with_queues s o ≡ some t
    → (q : Queues) × (o ≡ some q) × (record s { queues = q } ≡ t)
with_queues-eq s t none e = absurd (ground arith)
with_queues-eq s t (some q) e = (q, refl, ground (arith, e))

pub same_listeners :
    (s a : Acp)
    → a.updates ≡ s.updates
    → (id : Text) (l : Listener) → get id a.updates ≡ some l
    → (m : Listener) × (get id s.updates ≡ some m)
same_listeners s a e id l u = (l, sym (ap (get id) e) ∙ u)

pub heard_listeners :
    (m : Json) (s a : Acp)
    → Heard m s a
    → (id : Text) (l : Listener) → get id a.updates ≡ some l
    → (k : Listener) × (get id s.updates ≡ some k)
heard_listeners m s a h id l u = elim (Bool-cases (h.id == id)) [
  | inl same ↦ (h.before, subst (λ x. get x s.updates ≡ some h.before) (eq_of h.id id same) h.was)
  | inr other ↦
      (l, sym (rw other at (get-put h.id id h.after s.updates)) ∙ (sym (ap (get id) h.updates) ∙ u))
]

module _ (name : Text) (stringify : Json → Text) where
  pub record Inv (s : Adapter) : Type 0 where
    pub queues : Queue.Reachable s.queues
    pub acp : Dispatch.Reachable name stringify s.acp
    pub apart : IsApart s.sessions.map
    pub owned :
        (i : ℕ) (id : Text)
        → get i s.under_way ≡ some id
        → (key : Text) × Runs s.queues i key × (get key s.sessions.map ≡ some id)
    pub listened :
        (id : Text) (l : Listener)
        → get id s.acp.updates ≡ some l
        → (i : ℕ) × (get i s.under_way ≡ some id)

  pub started-Inv : (map : Map Text Text) → IsApart map → Inv (started map)
  started-Inv map h = record {
    queues = Queue.here;
    acp = Dispatch.here;
    apart = h;
    owned = λ i id e. absurd (nothing (get-nil i) e);
    listened = λ id l e. absurd (nothing (get-nil id) e);
  }
    where
      nothing : {A : Type 0} {o : Option A} {a : A} → o ≡ none → o ≡ some a → ⊥
      nothing h e = ground arith

  -- A step of the queues under which the jobs that are within `prompt` go on.
  pub queues-Inv :
      (s t : Adapter) (q : Queues)
      → record s { queues = q } ≡ t
      → Queue.Step s.queues q
      → ((i : ℕ) (id key : Text) → get i s.under_way ≡ some id → Runs s.queues i key → Runs q i key)
      → Inv s
      → Inv t
  queues-Inv s t q e st on v = subst Inv e (record {
    queues = Queue.next v.queues st;
    acp = v.acp;
    apart = v.apart;
    owned = λ i id u. let (key, r, at) = v.owned i id u in (key, on i id key u r, at);
    listened = v.listened;
  })

  -- A step of the client that leaves no session without a listener, nor gives one a first.
  pub acp-Inv :
      (s t : Adapter) (a : Acp)
      → t ≡ record s { acp = a }
      → Dispatch.Step name stringify s.acp a
      → ((id : Text) (l : Listener)
          → get id a.updates ≡ some l
          → (m : Listener) × (get id s.acp.updates ≡ some m))
      → Inv s
      → Inv t
  acp-Inv s t a e st old v = subst Inv (sym e) (record {
    queues = v.queues;
    acp = Dispatch.next v.acp st;
    apart = v.apart;
    owned = v.owned;
    listened = λ id l u. let (m, was) = old id l u in v.listened id m was;
  })
