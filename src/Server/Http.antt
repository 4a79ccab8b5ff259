-- ===== src/Server/Http.antt =====
-- agent-adapter/server.mjs: `authorized`, `readJSON` and the request handler of `createServer`, up
-- to the point where a turn or a chat completion begins. A handler that throws is an outcome of
-- its own: nothing catches the rejection of its promise.
pub mod Laws
use llm_stack.Base.{
  ℕ, ◌+◌, ◌≡◌, Bool, true, false, not, ◌&&◌, ◌||◌, List, [], ◌∷◌, ◌++◌, Option, none, some, Text,
  codes, Map, get, ◌==◌, text_eq, text_beq, ltb, if◌then◌else◌, length, is_empty, trim, last,
  get_or,
}
use llm_stack.Js.{
  Json, null, bool, num, str, arr, obj, items, Result, ok, throws, ◌>>=◌, prop, is_true, to_text,
  template,
}
use llm_stack.Server.Keys.{Node, last_user_text, session_key, chat_key}
use llm_stack.Server.Turn.{Server, Ask, allow, deny, settle, is_nil}

-- The arguments of `createServer` that the handler reads: `web_token` is what `webToken` gives.
pub record Config : Type 0 where
  pub api_key : Text
  pub model : Text
  pub ready : Bool
  pub interactive : Bool
  pub web_token : Option Text

-- A request: its body as the chunks that arrive, and whether the stream then fails.
pub record Request : Type 0 where
  pub method : Text
  pub url : Text
  pub authorization : Option Text
  pub chat_header : Option Text
  pub chunks : List (List ℕ)
  pub broken : Bool

pub data Outcome : Type 0 where
  healthy starting : Outcome
  fails : ℕ → Text → Text → Outcome
  models : Text → Outcome
  token : Text → Outcome
  accepted : Outcome
  begins_turn : Text → List Text → Outcome
  begins_chat : (stream : Bool) → Text → Text → Outcome
  rejects : Outcome

-- The lengths are compared, then the bytes.
pub authorized : Node → Option Text → Text → Bool
authorized node header key =
    text_beq (node.utf8 (get_or header [])) (node.utf8 (codes "Bearer " ++ key))

abbrev pub body_limit : ℕ
body_limit = 33554432

-- The loop of readJSON: none where the size passes the limit.
unfoldable pub read_chunks : ℕ → List ℕ → List (List ℕ) → Option (List ℕ)
read_chunks size got [] = some got
read_chunks size got (c ∷ cs) =
    let rest = read_chunks (size + length c) (got ++ c) cs in
    if ltb body_limit (size + length c) then none else rest

abbrev pub parse_body : Node → Bool → Option (List ℕ) → Option Json
parse_body node broken none = none
parse_body node broken (some bytes) = if broken then none else node.json_parse bytes

unfoldable pub read_json : Node → Request → Option Json
unfolding read_chunks
read_json node req = parse_body node req.broken (read_chunks 0 [] req.chunks)

abbrev strings : List Json → List Text
strings [] = []
strings (str s ∷ vs) = s ∷ strings vs
strings (_ ∷ vs) = strings vs

-- Array.isArray(body.users) ? body.users.filter(isString) : []
abbrev pub users_of : Option Json → List Text
users_of (some (arr xs)) = strings (items xs)
users_of _ = []

abbrev pub messages_of : Option Json → List Json
messages_of (some (arr xs)) = items xs
messages_of _ = []

abbrev invalid_request : Text → Outcome
invalid_request message = fails 400 (codes "invalid_request_error") message

abbrev unavailable : Outcome
unavailable = fails 503 (codes "agent_unavailable") (codes "the agent is starting")

abbrev settled_by : Result Outcome → Outcome
settled_by (ok o) = o
settled_by throws = rejects

-- POST /v1/agent/permissions, once its body is read.
abbrev pub asked_key : Json → Result Text
asked_key body = do
  turn ← prop (codes "turn") body
  t ← template turn
  request ← prop (codes "request") body
  r ← template request
  ok (t ++ (codes "/" ++ r))

abbrev pub answer : Json → Text → Server → Option Ask → Outcome × Server
answer body k s none =
    (fails 404 (codes "not_found") (codes "no such pending permission request"), s)
answer body k s (some a) = elim (prop (codes "allow") body) [
  | throws ↦ (rejects, s)
  | ok v ↦ (accepted, settle k a (if is_true v then allow else deny) s)
]

unfoldable pub permissions : Node → Request → Server → Outcome × Server
unfolding read_json
permissions node req s = elim (read_json node req) [
  | none ↦ (invalid_request (codes "body is not JSON"), s)
  | some body ↦ elim (asked_key body) [
    | throws ↦ (rejects, s)
    | ok k ↦ answer body k s (get k s.asks)
  ]
]

-- POST /v1/agent/turns
abbrev pub begin_turn : Node → Option Json → List Text → Outcome
begin_turn node chat_id users =
    if is_nil users || is_empty (trim (get_or (last users) []))
    then invalid_request (codes "no user message")
    else begins_turn (chat_key node chat_id users) users

pub turns : Node → Config → Request → Outcome
unfolding read_json
turns node config req =
    let served : Outcome = elim (read_json node req) [
      | none ↦ invalid_request (codes "body is not JSON")
      | some body ↦ settled_by (do
        users ← prop (codes "users") body
        chat_id ← prop (codes "chat_id") body
        ok (begin_turn node chat_id (users_of users)))
    ] in
    if not config.ready then unavailable else served

-- POST /v1/chat/completions
abbrev begin_chat : Node → Request → Json → Result Outcome
begin_chat node req body = do
  found ← prop (codes "messages") body
  t ← last_user_text (messages_of found)
  if is_empty (trim t) then ok (invalid_request (codes "no user message")) else (do
    stream ← prop (codes "stream") body
    key ← session_key node req.chat_header (messages_of found)
    ok (begins_chat (is_true stream) key t))

pub completions : Node → Config → Request → Outcome
unfolding read_json
completions node config req =
    let served : Outcome = elim (read_json node req) [
      | none ↦ invalid_request (codes "body is not a chat completion request")
      | some body ↦ settled_by (begin_chat node req body)
    ] in
    if not config.ready then unavailable else served

abbrev web_token : Option Text → Outcome
web_token none = fails 404 (codes "not_found") (codes "no web UI token")
web_token (some t) =
    if is_empty t then fails 404 (codes "not_found") (codes "no web UI token") else token t

abbrev pub is_call : Text → Text → Request → Text → Bool
is_call method target req path = text_beq req.method method && text_beq path target

-- What an authorized request meets.
pub route : Node → Config → Request → Text → Server → Outcome × Server
unfolding permissions turns completions
route node config req path s =
    if is_call (codes "GET") (codes "/v1/models") req path
    then (models config.model, s)
    else if is_call (codes "GET") (codes "/web-token") req path
    then (web_token config.web_token, s)
    else if is_call (codes "POST") (codes "/v1/agent/permissions") req path && config.interactive
    then permissions node req s
    else if is_call (codes "POST") (codes "/v1/agent/turns") req path && config.interactive
    then (turns node config req, s)
    else if is_call (codes "POST") (codes "/v1/chat/completions") req path
    then (completions node config req, s)
    else (fails 404 (codes "not_found") (codes "not found"), s)

-- The handler, with the path that its first line finds, or the error of `new URL`.
pub at_path : Node → Config → Request → Option Text → Server → Outcome × Server
unfolding route authorized
at_path node config req none s = (rejects, s)
at_path node config req (some path) s =
    if is_call (codes "GET") (codes "/health") req path
    then (if config.ready then healthy else starting, s)
    else if authorized node req.authorization config.api_key
    then route node config req path s
    else (fails 401 (codes "unauthorized") (codes "invalid API key"), s)

pub handle : Node → Config → Request → Server → Outcome × Server
unfolding at_path
handle node config req s = at_path node config req (node.url_path req.url) s
