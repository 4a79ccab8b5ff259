-- ===== src/Acp/Sessions.antt =====
-- agent-adapter/acp.mjs: `sessionID`, which finds, reattaches or creates the agent's session of a
-- chat. The agent is an argument: which sessions each method reattaches, and the id that
-- session/new gives, or none where it answers with an error; and so is whether `save` can write the map.
pub mod Given
use llm_stack.Base.{
  ◌≡◌, ◌∙◌, refl, sym, ap, subst, inl, inr, Bool, true, false, List, [], ◌∷◌, ◌++◌, Option, none,
  some, Text, codes, Map, get, put, get-put, ◌==◌, text_eq, is_empty, any, if◌then◌else◌, arith,
  Option-cases, eq_refl, if_ind,
}

pub record Agent : Type 0 where
  pub resume : Bool  -- caps.sessionCapabilities?.resume
  pub load : Bool  -- caps.loadSession
  pub reattaches : Text → Text → Bool
  pub new_session : Option Text
  pub saves : Bool  -- save() returns

-- A request of the client: the method, and the session that it names, if any.
pub record Asked : Type 0 where
  pub method : Text
  pub session : Option Text

-- `map`, what is on disk of it, the `open` set, and the requests sent.
pub record Sessions : Type 0 where
  pub map : Map Text Text
  pub saved : Map Text Text
  pub open_ids : List Text
  pub sent : List Asked

abbrev pub is_open : Text → List Text → Bool
is_open id = any λ j. id == j

-- Advertised methods first; session/resume where none is advertised.
abbrev pub methods : Agent → List Text
methods agent =
    let advertised =
      (if agent.resume then codes "session/resume" ∷ [] else [])
      ++ (if agent.load then codes "session/load" ∷ [] else []) in
    if agent.resume
    then advertised
    else if agent.load
    then advertised
    else codes "session/resume" ∷ []

abbrev opened : Text → Sessions → Sessions
opened id s = record s { open_ids = id ∷ s.open_ids }

abbrev asking : Text → Option Text → Sessions → Sessions
asking method session s = record s {
  sent = s.sent ++ record { method = method; session = session } ∷ [];
}

-- The loop over the methods: whether one reattached the session.
unfoldable pub reattach : Agent → List Text → Text → Sessions → Bool × Sessions
reattach agent [] id s = (false, s)
reattach agent (m ∷ ms) id s =
    let rest = reattach agent ms id (asking m (some id) s) in
    if agent.reattaches m id then (true, opened id (asking m (some id) s)) else rest

-- Where `save` throws, the map in memory has the session already.
abbrev created : Bool → Text → Option Text → Sessions → Option Text × Sessions
created saves key none s = (none, s)
created saves key (some id) s =
    let map' = put key id s.map in
    if saves
    then (some id, opened id (record s { map = map'; saved = map' }))
    else (none, record s { map = map' })

-- session/new; none where it throws.
unfoldable pub create : Agent → Text → Sessions → Option Text × Sessions
create agent key s = created agent.saves key agent.new_session (asking (codes "session/new") none s)

abbrev else_create : Agent → Text → Text → Bool × Sessions → Option Text × Sessions
else_create agent key id (true, s) = (some id, s)
else_create agent key id (false, s) = create agent key s

abbrev reuse : Agent → Text → Text → Sessions → Option Text × Sessions
reuse agent key id s =
    let again = else_create agent key id (reattach agent (methods agent) id s) in
    if is_open id s.open_ids then (some id, s) else again

-- `map[key]`, which counts as missing where it is empty.
unfoldable pub session_id : Agent → Text → Sessions → Option Text × Sessions
unfolding reattach create
session_id agent key s = elim (get key s.map) [
  | none ↦ create agent key s
  | some id ↦ if is_empty id then create agent key s else reuse agent key id s
]

-- The session that the map names for a chat, where it names one.
abbrev pub IsNamed : Text → Text → Sessions → Type 0
IsNamed key id s = (get key s.map ≡ some id) × (is_open id s.open_ids ≡ true)

reattach-map :
    (agent : Agent) (ms : List Text) (id : Text) (s : Sessions)
    → (reattach agent ms id s).1.map ≡ s.map
unfolding reattach
reattach-map agent [] id s = refl
reattach-map agent (m ∷ ms) id s =
    if_ind (λ (r : Bool × Sessions). r.1.map ≡ s.map) (agent.reattaches m id)
      (true, opened id (asking m (some id) s)) _ (λ _. refl)
      (λ _. reattach-map agent ms id (asking m (some id) s))

reattach-open :
    (agent : Agent) (ms : List Text) (id : Text) (s : Sessions)
    → (reattach agent ms id s).0 ≡ true
    → is_open id (reattach agent ms id s).1.open_ids ≡ true
unfolding reattach
reattach-open agent [] id s e = absurd (ground arith)
reattach-open agent (m ∷ ms) id s e =
    if_ind (λ (r : Bool × Sessions). r.0 ≡ true → is_open id r.1.open_ids ≡ true)
      (agent.reattaches m id) (true, opened id (asking m (some id) s)) _
      (λ _ _. ground (arith, eq_refl id)) (λ _. reattach-open agent ms id (asking m (some id) s)) e

-- What a call of session_id comes to.
abbrev Named : Text → Option Text × Sessions → Type 0
Named key (none, s) = Unit
Named key (some id, s) = IsNamed key id s

create-Named : (agent : Agent) (key : Text) (s : Sessions) → Named key (create agent key s)
unfolding create
create-Named agent key s = by_answer agent.new_session
  where
    by_answer :
        (a : Option Text)
        → Named key (created agent.saves key a (asking (codes "session/new") none s))
    by_answer none = tt
    by_answer (some id) =
        if_ind (Named key) agent.saves (some id, _) (none, _)
          (λ _. (rw (get-put key key id s.map, eq_refl key) refl, ground (arith, eq_refl id)))
          (λ _. tt)

reuse-Named :
    (agent : Agent) (key id : Text) (s : Sessions)
    → get key s.map ≡ some id
    → Named key (reuse agent key id s)
reuse-Named agent key id s e =
    if_ind (Named key) (is_open id s.open_ids) (some id, s) _ (λ is. (e, is))
      λ _.
        by_result (reattach agent (methods agent) id s) (reattach-map agent (methods agent) id s)
          (reattach-open agent (methods agent) id s)
  where
    by_result :
        (r : Bool × Sessions)
        → r.1.map ≡ s.map
        → (r.0 ≡ true → is_open id r.1.open_ids ≡ true)
        → Named key (else_create agent key id r)
    by_result (true, t) em op = (ap (get key) em ∙ e, op refl)
    by_result (false, t) em op = create-Named agent key t

-- A session that `session_id` returns is the one that the map names for the chat, and it is open.
session_id-Named : (agent : Agent) (key : Text) (s : Sessions) → Named key (session_id agent key s)
unfolding session_id
session_id-Named agent key s = elim (Option-cases (get key s.map)) [
  | inl e ↦ rw (e, session_id) (create-Named agent key s)
  | inr (id, e) ↦
      rw (e, session_id)
        (if_ind (Named key) (is_empty id) (create agent key s) (reuse agent key id s)
          (λ _. create-Named agent key s) (λ _. reuse-Named agent key id s e))
]

session_id_known :
    (agent : Agent) (key id : Text) (s : Sessions)
    → get key s.map ≡ some id
    → is_open id s.open_ids ≡ true
    → is_empty id ≡ false
    → session_id agent key s ≡ (some id, s)
unfolding session_id
session_id_known agent key id s e is ne =
    rw (e, session_id)
      (if_ind (λ r. r ≡ (some id, s)) (is_empty id) (create agent key s) (reuse agent key id s)
        (λ no_id. absurd (ground arith))
        (λ _.
          if_ind (λ r. r ≡ (some id, s)) (is_open id s.open_ids) (some id, s) _ (λ _. refl)
            (λ shut. absurd (ground (arith, is, shut)))))

-- A chat keeps its session: a second call returns the session of the first, whose id is not empty,
-- sends no request and changes nothing.
pub session_id_again :
    (agent later : Agent) (key id : Text) (s : Sessions)
    → (session_id agent key s).0 ≡ some id
    → is_empty id ≡ false
    → session_id later key (session_id agent key s).1 ≡ (some id, (session_id agent key s).1)
session_id_again agent later key id s e ne =
    again (session_id agent key s) (session_id-Named agent key s) e
  where
    again :
        (r : Option Text × Sessions)
        → Named key r
        → r.0 ≡ some id
        → session_id later key r.1 ≡ (some id, r.1)
    again (none, t) h e = absurd (ground arith)
    again (some j, t) h e =
        let same : j ≡ id = ground arith in
        subst (λ x. session_id later key t ≡ (some x, t)) same
          (session_id_known later key j t h.0 h.1 (subst (λ x. is_empty x ≡ false) (sym same) ne))
