-- ===== src/Acp/Dispatch.antt =====
-- agent-adapter/acp.mjs: the handler of the agent's lines, which gives each message to the request,
-- the turn or the permission callback that waits for it, and what `prompt` registers and takes away.
-- Session ids and tool call ids are strings.
pub mod Laws
pub mod Turns
use mathlib.Core.Option
use llm_stack.Base.{
  ℕ, zero, suc, ◌≡◌, Bool, true, false, not, ◌&&◌, ◌||◌, List, [], ◌∷◌, ◌++◌, Option, none, some,
  Text, codes, Map, get, put, delete, ◌==◌, text_eq, is_empty, get_or, if◌then◌else◌,
}
use llm_stack.Js.{
  Json, null, str, arr, obj, items, fields, Fields, end, field, Result, ok, throws, ◌>>=◌, prop,
  prop_within, is_str, truthy,
}
use llm_stack.Server.Turn.{Decision}
use llm_stack.Acp.Options.{Reply, reply_unasked, reply_decided}
use llm_stack.Acp.ToolText.{tool_text, input_text}
use llm_stack.Acp.Rpc
use llm_stack.Acp.Rpc.{Client, request, on_response}
use llm_stack.Acp.Updates.{Output, Call, fresh, on_update}

-- The callback of a turn in `updates`, with its variables and the calls that it has made.
-- `interactive`: the turn has `onTool` and `onPermission`.
pub record Listener : Type 0 where
  pub turn : Text
  pub interactive : Bool
  pub output : Output
  pub calls : List Call

-- A permission request that the user has been asked about.
pub record Ask : Type 0 where
  pub turn : Text
  pub id : Option Json
  pub title : Option Json
  pub text : Text
  pub options : Option Json

-- What goes to the agent beside the requests of Rpc.
pub data Sent : Type 0 where
  answers : Option Json → Reply → Sent
  unknown_method : Json → Sent
  cancels : Text → Sent

pub record Acp : Type 0 where
  pub client : Client
  pub updates : Map Text Listener
  pub permissions : Map Text Text  -- the turn whose callback it is
  pub calls : Map Text (Map Text Json)
  pub asks : List Ask
  pub sent : List Sent

-- A property of what may be undefined.
abbrev pub prop_of : Text → Option Json → Result (Option Json)
prop_of key none = throws
prop_of key (some v) = prop key v

-- `{ ...v }`
abbrev pub spread : Option Json → Map Text Json
spread (some (obj fs)) = fields fs
spread _ = []

unfoldable pub merge : Map Text Json → Map Text Json → Map Text Json
merge m [] = m
merge m ((k, v) ∷ n) = merge (put k v m) n

abbrev to_fields : Map Text Json → Fields
to_fields [] = end
to_fields ((k, v) ∷ m) = field k v (to_fields m)

abbrev pub is_tool : Option Json → Bool
is_tool kind = is_str (codes "tool_call") kind || is_str (codes "tool_call_update") kind

abbrev pub known_fields : Option Json → Acp → Map Text Json
known_fields (some (str id)) s = get_or (get id s.calls) []
known_fields _ s = []

-- calls.set(u.toolCallId, …): a parsed message has no undefined property.
abbrev pub note_fields : Option Json → Option Json → Acp → Acp
note_fields (some (str id)) u s = record s {
  calls = put id (merge (get_or (get id s.calls) []) (spread u)) s.calls;
}
note_fields _ u s = s

unfoldable pub note_call : Option Json → Acp → Result Acp
unfolding merge
note_call u s = do
  id ← prop_within (codes "toolCallId") u
  if not (truthy id) then ok s else (do
    kind ← prop_of (codes "sessionUpdate") u
    ok (if is_tool kind then note_fields id u s else s))

-- The callback: without `onTool` a tool's update is not read.
unfoldable pub listen : Json → Listener → Result Listener
listen u l = do
  kind ← prop (codes "sessionUpdate") u
  if is_tool kind && not l.interactive
      then ok l
      else (do r ← on_update u l.output; ok (record l { output = r.0; calls = l.calls ++ r.1 }))

abbrev pub object_of : Option Json → Result Json
object_of none = throws
object_of (some v) = ok v

abbrev pub with_id : Text → Option Listener → Option (Text × Listener)
with_id id none = none
with_id id (some l) = some (id, l)

abbrev pub listening : Option Json → Acp → Option (Text × Listener)
listening (some (str id)) s = with_id id (get id s.updates)
listening _ s = none

abbrev pub notify : Option Json → Acp → Option (Text × Listener) → Result Acp
notify u s none = ok s
notify u s (some (id, l)) = do
  v ← object_of u
  heard ← listen v l
  ok (record s { updates = put id heard s.updates })

-- session/update
unfoldable pub on_session_update : Json → Acp → Result Acp
unfolding note_call listen
on_session_update m s = do
  params ← prop (codes "params") m
  u ← prop_of (codes "update") params
  s' ← note_call u s
  session ← prop_of (codes "sessionId") params
  notify u s' (listening session s')

abbrev pub asked_turn : Option Json → Acp → Option Text
asked_turn (some (str id)) s = get id s.permissions
asked_turn _ s = none

abbrev pub array_of : Option Json → Result (List Json)
array_of (some (arr xs)) = ok (items xs)
array_of _ = throws

-- tc.title || 'Tool call'
abbrev pub title_of : Option Json → Option Json
title_of v = if truthy v then v else some (str (codes "Tool call"))

abbrev or_input : Text → Result Text → Result Text
or_input t rest = if is_empty t then rest else ok t

-- `{ ...calls.get(id), ...own }`
unfoldable pub called : Option Json → Option Json → Acp → Map Text Json
unfolding merge
called call_id own s = merge (known_fields call_id s) (spread own)

-- toolText(tc) || inputText(tc.rawInput)
unfoldable pub shown_text : (Json → Text) → Map Text Json → Result Text
shown_text stringify tc = do
  t ← tool_text (obj (to_fields tc))
  or_input t (input_text stringify (get (codes "rawInput") tc))

-- The user is asked: the request's own tool call over what is known of it.
unfoldable pub ask_user : (Json → Text) → Json → Option Json → Text → Acp → Result Acp
unfolding called shown_text
ask_user stringify m params turn s = do
  own ← prop_of (codes "toolCall") params
  call_id ← prop_within (codes "toolCallId") own
  shown ← shown_text stringify (called call_id own s)
  id ← prop (codes "id") m
  options ← prop_of (codes "options") params
  ok (record s {
    asks =
        s.asks
        ++ record {
          turn = turn;
          id = id;
          title = title_of (get (codes "title") (called call_id own s));
          text = shown;
          options = options;
        }
          ∷ [];
  })

-- No turn that could be asked: the request is approved.
unfoldable pub approve : Json → Option Json → Acp → Result Acp
approve m params s = do
  options ← prop_of (codes "options") params
  list ← array_of options
  reply ← reply_unasked list
  id ← prop (codes "id") m
  ok (record s { sent = s.sent ++ answers id reply ∷ [] })

abbrev pub by_turn : (Json → Text) → Json → Option Json → Acp → Option Text → Result Acp
by_turn stringify m params s none = approve m params s
by_turn stringify m params s (some turn) = ask_user stringify m params turn s

-- session/request_permission
unfoldable pub on_permission_request : (Json → Text) → Json → Acp → Result Acp
unfolding ask_user approve
on_permission_request stringify m s = do
  params ← prop (codes "params") m
  session ← prop_of (codes "sessionId") params
  by_turn stringify m params s (asked_turn session s)

abbrev pub refuse : Option Json → Acp → Acp
refuse none s = s
refuse (some id) s = record s { sent = s.sent ++ unknown_method id ∷ [] }

abbrev pub by_method : Text → (Json → Text) → Json → Acp → Option Json → Result Acp
by_method name stringify m s none = do c ← on_response name m s.client; ok (record s { client = c })
by_method name stringify m s (some method) =
    if is_str (codes "session/update") (some method)
    then on_session_update m s
    else if is_str (codes "session/request_permission") (some method)
    then on_permission_request stringify m s
    else (do id ← prop (codes "id") m; ok (refuse id s))

-- One message; a `throws` is an error that nothing catches.
unfoldable pub on_message : Text → (Json → Text) → Json → Acp → Result Acp
unfolding on_session_update on_permission_request
on_message name stringify m s = do
  method ← prop (codes "method") m
  by_method name stringify m s method

-- A cancelled request reads no options.
abbrev pub options_of : Decision → Ask → Result (List Json)
options_of Decision.cancel a = ok []
options_of _ a = array_of a.options

abbrev pub taken : ℕ → List Ask → Option (Ask × List Ask)
taken n [] = none
taken zero (a ∷ more) = some (a, more)
taken (suc n) (a ∷ more) = Option.map (λ (r : Ask × List Ask). (r.0, a ∷ r.1)) (taken n more)

abbrev pub answered : Decision → Acp → Option (Ask × List Ask) → Result Acp
answered d s none = ok s
answered d s (some (a, more)) = do
  list ← options_of d a
  reply ← reply_decided d list
  ok (record s { asks = more; sent = s.sent ++ answers a.id reply ∷ [] })

-- The promise of the ask at this place resolves: the agent is answered.
unfoldable pub decide : ℕ → Decision → Acp → Result Acp
decide n d s = answered d s (taken n s.asks)

-- `prompt` up to its request, for a session that sessionID has given.
unfoldable pub begin_prompt : Text → Text → Bool → Acp → Acp
begin_prompt id turn interactive s = record s {
  updates =
      put id (record { turn = turn; interactive = interactive; output = fresh; calls = [] })
        s.updates;
  permissions = if interactive then put id turn s.permissions else s.permissions;
  client = request (codes "session/prompt") s.client;
}

-- The abort listener.
unfoldable pub abort : Text → Acp → Acp
abort id s = record s { sent = s.sent ++ cancels id ∷ [] }

-- The `finally` block.
unfoldable pub end_prompt : Text → Acp → Acp
end_prompt id s = record s {
  updates = delete id s.updates;
  permissions = delete id s.permissions;
  calls = [];
}

abbrev pub started : Acp
started = record {
  client = Rpc.fresh;
  updates = [];
  permissions = [];
  calls = [];
  asks = [];
  sent = [];
}

-- A session has one turn at a time: its chat's turns are serialized.
pub data Step (name : Text) (stringify : Json → Text) (s t : Acp) : Type 0 where
  requests :
      (method : Text) → t ≡ record s { client = request method s.client } → Step name stringify s t
  reads : (m : Json) → on_message name stringify m s ≡ ok t → Step name stringify s t
  begins :
      (id turn : Text) (interactive : Bool)
      → get id s.updates ≡ none
      → t ≡ begin_prompt id turn interactive s
      → Step name stringify s t
  decides : (n : ℕ) (d : Decision) → decide n d s ≡ ok t → Step name stringify s t
  aborts : (id : Text) → t ≡ abort id s → Step name stringify s t
  finishes : (id : Text) → t ≡ end_prompt id s → Step name stringify s t

pub data Reachable (name : Text) (stringify : Json → Text) : Acp → Type 0 where
  here : Reachable name stringify started
  next :
      {s t : Acp}
      → Reachable name stringify s
      → Step name stringify s t
      → Reachable name stringify t
