-- ===== src/Opencode/Sessions.antt =====
-- agent-adapter/opencode.mjs: `sessionID`, the server's session of a chat. The server is an
-- argument: which GET paths it answers without an error, and what `call` of POST /session gives; and
-- so is whether `save` can write the map.
use llm_stack.Base.{
  ◌≡◌, ◌≢◌, ◌∙◌, refl, ap, subst, Bool, true, false, List, [], ◌∷◌, ◌++◌, Option, none, some, Text,
  codes, Map, get, put, get-put, ◌==◌, text_eq, if◌then◌else◌, arith, eq_refl, eq_of, if_ind,
}
use llm_stack.Js.{Json, Result, ok, throws, prop, truthy, template, ok-injective}
use llm_stack.Opencode.Startup.{Called}

pub record Server : Type 0 where
  pub finds : Text → Bool
  pub new_session : Called
  pub saves : Bool

-- `map`, the map that its file was last written from, and the requests sent.
pub record Sessions : Type 0 where
  pub map : Map Text (Option Json)
  pub saved : Map Text (Option Json)
  pub sent : List (Text × Text)

abbrev pub asking : Text → Text → Sessions → Sessions
asking method path s = record s { sent = s.sent ++ (method, path) ∷ [] }

-- map[key]
abbrev pub entry : Text → Sessions → Option Json
entry key s = elim (get key s.map) [ none ↦ none | some v ↦ v ]

-- map[key] = id; save(). Where that throws, the map in memory has the session already.
abbrev keep : Bool → Text → Sessions → Option Json → Result (Option Json) × Sessions
keep saves key s id =
    let changed = put key id s.map in
    if saves
    then (ok id, record s { map = changed; saved = changed })
    else (throws, record s { map = changed })

abbrev created : Bool → Text → Sessions → Result (Option Json) → Result (Option Json) × Sessions
created saves key s throws = (throws, s)
created saves key s (ok id) = keep saves key s id

abbrev id_of : Called → Result (Option Json)
id_of (Called.fails _) = throws
id_of (Called.gives v) = prop (codes "id") v

-- call('POST', '/session', {}) and what follows it.
unfoldable pub create : Server → Text → Sessions → Result (Option Json) × Sessions
create server key s =
    created server.saves key (asking (codes "POST") (codes "/session") s) (id_of server.new_session)

-- The `try` around call('GET', …): whether it returns, and the requests sent.
abbrev look : Server → Result Text → Sessions → Bool × Sessions
look server throws s = (false, s)
look server (ok id) s =
    (server.finds (codes "/session/" ++ id), asking (codes "GET") (codes "/session/" ++ id) s)

abbrev else_create : Server → Text → Option Json → Bool × Sessions → Result (Option Json) × Sessions
else_create server key id (true, s) = (ok id, s)
else_create server key id (false, s) = create server key s

unfoldable pub session_id : Server → Text → Sessions → Result (Option Json) × Sessions
unfolding create
session_id server key s =
    let again = else_create server key (entry key s) (look server (template (entry key s)) s) in
    if truthy (entry key s) then again else create server key s

-- A truthy id that a call gives is the entry of the chat from then on.
Named : Text → Result (Option Json) × Sessions → Type 0
Named key r = (id : Option Json) → r.0 ≡ ok id → entry key r.1 ≡ id

get-entry :
    (key : Text) (v : Option Json) (m : Map Text (Option Json)) → get key (put key v m) ≡ some v
get-entry key v m = rw (get-put key key v m, eq_refl key) refl

create-Named : (server : Server) (key : Text) (s : Sessions) → Named key (create server key s)
unfolding create Named
create-Named server key s = by_answer (id_of server.new_session)
  where
    by_answer :
        (a : Result (Option Json))
        → Named key (created server.saves key (asking (codes "POST") (codes "/session") s) a)
    by_answer throws = λ id e. absurd (ground arith)
    by_answer (ok made) =
        if_ind (Named key) server.saves (ok made, _) (throws, _)
          (λ _ id e. rw (entry, get-entry key made s.map) (ok-injective made id e))
          (λ _ id e. absurd (ground (arith, e)))

look-map : (server : Server) (r : Result Text) (s : Sessions) → (look server r s).1.map ≡ s.map
look-map server throws s = refl
look-map server (ok id) s = refl

session_id-Named :
    (server : Server) (key : Text) (s : Sessions) → Named key (session_id server key s)
unfolding session_id Named
session_id-Named server key s =
    if_ind (Named key) (truthy (entry key s)) _ (create server key s)
      (λ _.
        by_look (look server (template (entry key s)) s)
          (look-map server (template (entry key s)) s))
      (λ _. create-Named server key s)
  where
    by_look :
        (r : Bool × Sessions) → r.1.map ≡ s.map → Named key (else_create server key (entry key s) r)
    by_look (true, t) same id e =
        ap (λ m. entry key (record s { map = m })) same ∙ ok-injective _ id e
    by_look (false, t) same id e = create-Named server key t id e

-- The chats but `key` keep their entries.
Elsewhere : Text → Sessions → Result (Option Json) × Sessions → Type 0
Elsewhere key s r = (k : Text) → key ≢ k → get k r.1.map ≡ get k s.map

create-Elsewhere :
    (server : Server) (key : Text) (s t : Sessions)
    → t.map ≡ s.map
    → Elsewhere key s (create server key t)
unfolding create Elsewhere
create-Elsewhere server key s t same = by_answer (id_of server.new_session)
  where
    put_elsewhere :
        (made : Option Json) (k : Text) → key ≢ k → get k (put key made t.map) ≡ get k s.map
    put_elsewhere made k ne = rw (get-put key k made t.map) (
        if_ind (λ o. o ≡ get k s.map) (key == k) (some made) (get k t.map)
          (λ is. absurd (ne (eq_of key k is))) (λ _. ap (get k) same))

    by_answer :
        (a : Result (Option Json))
        → Elsewhere key s (created server.saves key (asking (codes "POST") (codes "/session") t) a)
    by_answer throws = λ k ne. ap (get k) same
    by_answer (ok made) =
        if_ind (Elsewhere key s) server.saves (ok made, _) (throws, _) (λ _. put_elsewhere made)
          (λ _. put_elsewhere made)

session_id-Elsewhere :
    (server : Server) (key : Text) (s : Sessions) → Elsewhere key s (session_id server key s)
unfolding session_id Elsewhere
session_id-Elsewhere server key s =
    if_ind (Elsewhere key s) (truthy (entry key s)) _ (create server key s)
      (λ _.
        by_look (look server (template (entry key s)) s)
          (look-map server (template (entry key s)) s))
      (λ _. create-Elsewhere server key s s refl)
  where
    by_look :
        (r : Bool × Sessions)
        → r.1.map ≡ s.map
        → Elsewhere key s (else_create server key (entry key s) r)
    by_look (true, t) same k ne = ap (get k) same
    by_look (false, t) same k ne = create-Elsewhere server key s t same k ne

session_id_known :
    (server : Server) (key : Text) (s : Sessions) (p : Text)
    → truthy (entry key s) ≡ true
    → template (entry key s) ≡ ok p
    → server.finds (codes "/session/" ++ p) ≡ true
    → session_id server key s ≡ (ok (entry key s), asking (codes "GET") (codes "/session/" ++ p) s)
unfolding session_id
session_id_known server key s p is shown found = rw (is, shown, found) refl

-- A chat keeps its session while the server knows it: once a call gave a truthy id, a later call
-- for the chat, when the server answers the look-up of that id, gives the same id and changes
-- nothing but that it has sent this one request. And no call changes the session of another chat.
pub session_kept :
    (server later : Server) (key : Text) (s : Sessions) (id : Option Json) (p : Text)
    → (session_id server key s).0 ≡ ok id
    → truthy id ≡ true
    → template id ≡ ok p
    → later.finds (codes "/session/" ++ p) ≡ true
    → (session_id later key (session_id server key s).1
        ≡ (ok id, asking (codes "GET") (codes "/session/" ++ p) (session_id server key s).1))
      × ((k : Text) → key ≢ k → get k (session_id server key s).1.map ≡ get k s.map)
unfolding Elsewhere Named
session_kept server later key s id p gave is shown found =
    let at : entry key (session_id server key s).1 ≡ id = session_id-Named server key s id gave in
    let t = (session_id server key s).1 in
    (
      subst (λ v. session_id later key t ≡ (ok v, asking (codes "GET") (codes "/session/" ++ p) t))
          at (session_id_known later key t p (ap truthy at ∙ is) (ap template at ∙ shown) found),
      session_id-Elsewhere server key s,
    )
