-- ===== src/Server/Turn.antt =====
-- agent-adapter/server.mjs: `turn`, its callbacks, the pending permission requests (`asks`) and
-- the prompt history. The closure variables of a turn are a record under the turn's id; whatever
-- calls back into a turn (the queue, the backend, a timer, the client's connection, the permissions
-- endpoint) is an operation on the state of the server.
pub mod Asks
pub mod Invariant
pub mod Steps
pub mod Asking
pub mod Permissions
pub mod Events
pub mod Chat
use llm_stack.Base.{
  ℕ, suc, ◌≡◌, ◌≢◌, ◌⊎◌, All, Bool, true, false, not, ◌&&◌, List, [], ◌∷◌, ◌++◌, Option, none, some,
  Text, codes, Map, get, put, delete, ◌==◌, text_eq, if◌then◌else◌, decimal, init, last, get_or,
  filter,
}
use llm_stack.Js.{Json, str, truthy}
use llm_stack.Server.Keys.{Node, prompt_hash}
use llm_stack.Server.History.{continues}

pub data Decision : Type 0 where
  allow deny cancel : Decision

pub data Event : Type 0 where
  turn_begins : Text → Event
  notice text reasoning : Text → Event
  tool : Json → Event
  permission : Text → Text → Text → Text → Event
  done : Json → Event
  error : Text → Event

-- Before the request, behind `serialize`, in `backend.prompt`, and behind `res.end()`.
pub data Phase : Type 0 where
  unopened queued prompting over : Phase

pub record Turn : Type 0 where
  pub key : Text
  pub users : List Text
  pub phase : Phase
  pub aborted : Bool  -- abort.signal.aborted
  pub closed : Bool  -- res.writableEnded || res.destroyed
  pub asked : ℕ
  pub mine : List Text
  pub stop : Option Json
  pub events : List Event  -- what has been written to the response
  pub decided : List (ℕ × Decision)  -- what the permission promises have been resolved to

abbrev pub blank : Turn
blank = record {
  key = [];
  users = [];
  phase = unopened;
  aborted = false;
  closed = false;
  asked = 0;
  mine = [];
  stop = none;
  events = [];
  decided = [];
}

-- The closure `done` of a pending request, by the turn and the number that it stands for.
pub record Ask : Type 0 where
  pub turn : Text
  pub request : ℕ

pub record Server : Type 0 where
  pub history : Map Text (List Text)
  pub asks : Map Text Ask
  pub turns : Text → Turn

-- What is written to the file at `historyPath` is the history that the server starts with.
abbrev pub fresh : Map Text (List Text) → Server
fresh history = record { history = history; asks = []; turns = λ _. blank }

abbrev pub set_turn : Text → Turn → Server → Server
set_turn id t s = record s { turns = λ j. if id == j then t else s.turns j }

-- `event(e)`
abbrev pub emit : Event → Turn → Turn
emit e t = if t.closed then t else record t { events = t.events ++ e ∷ [] }

-- `res.end()`, and the turn returns.
abbrev pub end_turn : Turn → Turn
end_turn t = record t { phase = over; closed = true }

-- The request arrives: the response begins, and the body waits in `serialize`.
unfoldable pub open_turn : Text → Text → List Text → Server → Server
open_turn id key users s =
    set_turn id (emit (turn_begins id) (record blank { key = key; users = users; phase = queued }))
      s

abbrev pub refused_message : Text
refused_message =
    codes
      "This agent chat cannot edit, regenerate or branch from an earlier message: the agent has already acted on it. Continue from the latest message or start a new chat."

abbrev pub notice_text : Text
notice_text =
    codes
      "The agent starts a new session here; earlier messages in this chat are not part of its context."

abbrev pub is_nil {ℓ} : {A : Type ℓ} → List A → Bool
is_nil [] = true
is_nil (_ ∷ _) = false

abbrev pub received : Text → Server → List Text
received key s = get_or (get key s.history) []

abbrev pub last_or : List Text → Text
last_or users = get_or (last users) []

-- The notice, where the agent has no session and earlier messages are not part of one.
abbrev pub noticed : Bool → List Text → List Text → Turn → Turn
noticed has_session got earlier t =
    if is_nil got && not (is_nil earlier) && not has_session then emit (notice notice_text) t else t

-- The rest of the body in `serialize`: the prompt is recorded, and goes to the agent. Where
-- `saveHistory` throws, the catch block reports its error.
abbrev pub submit : Node → Bool → Option Text → Text → Server → Server
submit node has_session save_error id s =
    let t = s.turns id in
    let got = received t.key s in
    let t' = noticed has_session got (init t.users) t in
    let s' = record s {
      history = put t.key (got ++ prompt_hash node (last_or t.users) ∷ []) s.history;
    } in
    elim save_error [
      | none ↦ set_turn id (record t' { phase = prompting }) s'
      | some message ↦ set_turn id (end_turn (if t.aborted then t' else emit (error message) t')) s'
    ]

-- The body that `serialize` calls. `has_session` is `backend.hasSession?.(key)`, and `save_error`
-- what `saveHistory` throws, if it does.
unfoldable pub run_turn : Node → Bool → Option Text → Text → Server → Server
run_turn node has_session save_error id s =
    let t = s.turns id in
    let accepted = submit node has_session save_error id s in
    if t.aborted
    then set_turn id (end_turn t) s
    else if continues node (received t.key s) (init t.users)
    then accepted
    else set_turn id (end_turn (emit (error refused_message) t)) s

-- The backend's callbacks.
pub data Callback : Type 0 where
  on_text on_reasoning : Text → Callback
  on_tool : Json → Callback
  on_stop : Option Json → Callback

unfoldable pub report : Callback → Turn → Turn
report (on_text s) t = emit (text s) t
report (on_reasoning s) t = emit (reasoning s) t
report (on_tool v) t = emit (tool v) t
report (on_stop v) t = record t { stop = v }

unfoldable pub on_callback : Text → Callback → Server → Server
unfolding report
on_callback id c s = set_turn id (report c (s.turns id)) s

-- `${id}/${request}`
unfoldable pub ask_key : Text → ℕ → Text
ask_key id request = id ++ (codes "/" ++ decimal request)

-- The promise that onPermission returns is left pending: `asks` and the turn list it.
unfoldable pub ask_user : Text → Text → Text → Server → Server
ask_user id title detail s =
    let t = s.turns id in
    let request = suc t.asked in
    let k = ask_key id request in
    set_turn id
      (emit (permission id (decimal request) title detail)
        (record t { asked = request; mine = t.mine ++ k ∷ [] }))
      (record s { asks = put k (record { turn = id; request = request }) s.asks })

-- onPermission: in an aborted turn the promise is resolved at once.
unfoldable pub on_permission : Text → Text → Text → Server → Server × Option Decision
unfolding ask_user
on_permission id title detail s =
    if (s.turns id).aborted then (s, some cancel) else (ask_user id title detail s, none)

-- `done(decision)` of a pending request: it is no longer pending, and its promise is resolved.
unfoldable pub settle : Text → Ask → Decision → Server → Server
settle k a decision s =
    let t = s.turns a.turn in
    set_turn a.turn
      (record t {
        mine = filter (λ j. not (k == j)) t.mine;
        decided = (a.request, decision) ∷ t.decided;
      })
      (record s { asks = delete k s.asks })

-- `asks.get(k)?.(decision)`, which a timer does too: it is cleared when the request is settled.
unfoldable pub settle_if : Text → Decision → Server → Server
unfolding settle
settle_if k decision s = elim (get k s.asks) [ none ↦ s | some a ↦ settle k a decision s ]

unfoldable pub cancel_all : List Text → Server → Server
cancel_all [] s = s
cancel_all (k ∷ ks) s = cancel_all ks (settle_if k cancel s)

-- The response's 'close': the turn is aborted, unless the whole response has been written. A client
-- that goes away leaves the response destroyed.
unfoldable pub close : Bool → Text → Server → Server
unfolding cancel_all settle_if
close finished id s =
    let t = s.turns id in
    if finished
    then s
    else cancel_all t.mine (set_turn id (record t { aborted = true; closed = true }) s)

abbrev pub stop_reason : Turn → Json
stop_reason t =
    if t.aborted
    then str (codes "cancelled")
    else if truthy t.stop
    then get_or t.stop (str (codes "end_turn"))
    else str (codes "end_turn")

-- backend.prompt resolves.
unfoldable pub prompt_resolves : Text → Server → Server
prompt_resolves id s =
    let t = s.turns id in set_turn id (end_turn (emit (done (stop_reason t)) t)) s

-- backend.prompt rejects: the catch block.
unfoldable pub prompt_rejects : Text → Text → Server → Server
prompt_rejects id message s =
    let t = s.turns id in set_turn id (end_turn (if t.aborted then t else emit (error message) t)) s

-- A UUID, and any other text without a slash.
abbrev pub NoSlash : Text → Type 0
NoSlash = All (λ c. c ≢ b'/')

abbrev pub IsUnderWay : Phase → Type 0
IsUnderWay p = (p ≡ prompting) ⊎ (p ≡ over)

-- One step of a server on which any number of turns are under way. The ids are random UUIDs, so
-- one that a turn takes is new; the backend has a turn's callbacks once it has been called.
pub data Step (node : Node) (s t : Server) : Type 0 where
  opens :
      (id key : Text) (users : List Text)
      → (s.turns id).phase ≡ unopened
      → NoSlash id
      → t ≡ open_turn id key users s
      → Step node s t
  runs :
      (has_session : Bool) (save_error : Option Text) (id : Text)
      → (s.turns id).phase ≡ queued
      → t ≡ run_turn node has_session save_error id s
      → Step node s t
  calls_back :
      (id : Text) (c : Callback)
      → IsUnderWay (s.turns id).phase
      → t ≡ on_callback id c s
      → Step node s t
  asks_permission :
      (id title detail : Text)
      → IsUnderWay (s.turns id).phase
      → t ≡ (on_permission id title detail s).0
      → Step node s t
  settles : (k : Text) (d : Decision) → t ≡ settle_if k d s → Step node s t
  closes :
      (finished : Bool) (id : Text)
      → (s.turns id).phase ≢ unopened
      → t ≡ close finished id s
      → Step node s t
  resolves : (id : Text) → (s.turns id).phase ≡ prompting → t ≡ prompt_resolves id s → Step node s t
  rejects :
      (id message : Text)
      → (s.turns id).phase ≡ prompting
      → t ≡ prompt_rejects id message s
      → Step node s t

pub data Reachable (node : Node) (history : Map Text (List Text)) : Server → Type 0 where
  here : Reachable node history (fresh history)
  next : {s t : Server} → Reachable node history s → Step node s t → Reachable node history t
