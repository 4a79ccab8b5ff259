-- ===== src/Acp/Sessions/Given.antt =====
-- Where the session of a call of `session_id` comes from.
use llm_stack.Base.{
  ◌≡◌, ◌⊎◌, inl, inr, refl, ap, Bool, true, false, Option, none, some, Text, get, put, text_eq,
  is_empty, Option-cases, if_ind, codes,
}
use llm_stack.Acp.Sessions.{
  Agent, Sessions, session_id, create, created, asking, reattach, reattach-map, reuse, else_create,
  is_open, methods,
}

-- The map as a call leaves it: as before, or with a new session for the chat.
abbrev pub Grown : Agent → Text → Sessions → Text → Sessions → Type 0
Grown agent key s id t = (agent.new_session ≡ some id) × (t.map ≡ put key id s.map)

-- The map is as before and names the session, or the session is new and the map has become to name
-- it. Where a call throws, the map is as before, or could not be saved with the new session.
abbrev pub Given : Agent → Text → Sessions → Option Text × Sessions → Type 0
Given agent key s (none, t) = (t.map ≡ s.map) ⊎ ((id : Text) × Grown agent key s id t)
Given agent key s (some id, t) =
    ((t.map ≡ s.map) × (get key s.map ≡ some id)) ⊎ Grown agent key s id t

create-Given :
    (agent : Agent) (key : Text) (s t : Sessions)
    → t.map ≡ s.map
    → Given agent key s (create agent key t)
unfolding create
create-Given agent key s t same = by_answer agent.new_session refl
  where
    by_answer :
        (a : Option Text)
        → agent.new_session ≡ a
        → Given agent key s (created agent.saves key a (asking (codes "session/new") none t))
    by_answer none e = inl same
    by_answer (some id) e =
        if_ind (Given agent key s) agent.saves (some id, _) (none, _)
          (λ _. inr (e, ap (put key id) same)) (λ _. inr (id, (e, ap (put key id) same)))

reuse-Given :
    (agent : Agent) (key id : Text) (s : Sessions)
    → get key s.map ≡ some id
    → Given agent key s (reuse agent key id s)
reuse-Given agent key id s e =
    if_ind (Given agent key s) (is_open id s.open_ids) (some id, s) _ (λ _. inl (refl, e))
      (λ _.
        by_result (reattach agent (methods agent) id s) (reattach-map agent (methods agent) id s))
  where
    by_result :
        (r : Bool × Sessions) → r.1.map ≡ s.map → Given agent key s (else_create agent key id r)
    by_result (true, t) same = inl (same, e)
    by_result (false, t) same = create-Given agent key s t same

pub session_id-Given :
    (agent : Agent) (key : Text) (s : Sessions) → Given agent key s (session_id agent key s)
unfolding session_id
session_id-Given agent key s = elim (Option-cases (get key s.map)) [
  | inl e ↦ rw (e, session_id) (create-Given agent key s s refl)
  | inr (id, e) ↦
      rw (e, session_id)
        (if_ind (Given agent key s) (is_empty id) (create agent key s) (reuse agent key id s)
          (λ _. create-Given agent key s s refl) (λ _. reuse-Given agent key id s e))
]
