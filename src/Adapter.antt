-- ===== src/Adapter.antt =====
-- agent-adapter: server.mjs and acp.mjs together. The server calls `backend.prompt` from a function
-- that it has given to `serialize`; `prompt` takes the session of the chat, listens to it until its
-- request settles, and only then does the function's promise settle.
pub mod Invariant
pub mod Entering
pub mod Laws
use mathlib.Core.Option
use llm_stack.Base.{
  ℕ, ◌≡◌, ◌≢◌, Bool, true, false, not, ◌&&◌, List, [], Option, none, some, Text, Map, get, put,
  delete, has, nat_eq, text_eq, if◌then◌else◌,
}
use llm_stack.Js.{Json, ok}
use llm_stack.Server.Turn.{Decision}
use llm_stack.Server.Queue
use llm_stack.Server.Queue.{Queues, Job, Status, job, serialize, start, finish, retire}
use llm_stack.Acp.Sessions.{Agent, Sessions, session_id}
use llm_stack.Acp.Rpc.{request}
use llm_stack.Acp.Dispatch
use llm_stack.Acp.Dispatch.{Acp, on_message, decide, begin_prompt, end_prompt, abort}

-- `under_way`: for the jobs that are within `prompt`, by number, its variable `id`.
pub record Adapter : Type 0 where
  pub queues : Queues
  pub sessions : Sessions
  pub acp : Acp
  pub under_way : Map ℕ Text

-- The start with what was on disk of the map.
abbrev pub started : Map Text Text → Adapter
started map = record {
  queues = Queue.empty;
  sessions = record { map = map; saved = map; open_ids = []; sent = [] };
  acp = Dispatch.started;
  under_way = [];
}

abbrev pub is_running : Status → Bool
is_running Queue.running = true
is_running _ = false

-- sessionID has thrown, or has given the session to listen to.
abbrev pub entered : ℕ → Text → Bool → Adapter → Option Text × Sessions → Adapter
entered i turn interactive s (none, sessions) = record s { sessions = sessions }
entered i turn interactive s (some id, sessions) = record s {
  sessions = sessions;
  acp = begin_prompt id turn interactive s.acp;
  under_way = put i id s.under_way;
}

-- Job `i` calls `prompt`, up to its request. The awaits of sessionID are one step: no other job of
-- the chat runs, and other chats have other entries.
unfoldable pub enter : Agent → ℕ → Text → Bool → Adapter → Option Adapter
enter agent i turn interactive s = elim (job i s.queues.jobs) [
  | none ↦ none
  | some j ↦
      if is_running j.status && not (has i s.under_way)
      then some (entered i turn interactive s (session_id agent j.key s.sessions))
      else none
]

-- The `finally` block of `prompt`.
unfoldable pub leave : ℕ → Adapter → Option Adapter
leave i s = elim (get i s.under_way) [
  | none ↦ none
  | some id ↦ some (record s { acp = end_prompt id s.acp; under_way = delete i s.under_way })
]

abbrev pub with_queues : Adapter → Option Queues → Option Adapter
with_queues s = Option.map (λ q. record s { queues = q })

-- The promise of the function settles, once `prompt` has.
unfoldable pub settle : ℕ → Adapter → Option Adapter
settle i s = elim (get i s.under_way) [ none ↦ with_queues s (finish i s.queues) | some _ ↦ none ]

-- The agent's answer to session/new names a session that is none of those it gave before.
abbrev pub IsFresh : Agent → Adapter → Type 0
IsFresh agent s = (k id : Text) → agent.new_session ≡ some id → get k s.sessions.map ≢ some id

pub data Step (name : Text) (stringify : Json → Text) (s t : Adapter) : Type 0 where
  calls : (key : Text) → t ≡ record s { queues = serialize key s.queues } → Step name stringify s t
  starts : (i : ℕ) → with_queues s (start i s.queues) ≡ some t → Step name stringify s t
  enters :
      (agent : Agent) (i : ℕ) (turn : Text) (interactive : Bool)
      → IsFresh agent s
      → enter agent i turn interactive s ≡ some t
      → Step name stringify s t
  requests :
      (method : Text)
      → t ≡ record s { acp = record s.acp { client = request method s.acp.client } }
      → Step name stringify s t
  reads :
      (m : Json) (a : Acp)
      → on_message name stringify m s.acp ≡ ok a
      → t ≡ record s { acp = a }
      → Step name stringify s t
  decides :
      (n : ℕ) (d : Decision) (a : Acp)
      → decide n d s.acp ≡ ok a
      → t ≡ record s { acp = a }
      → Step name stringify s t
  aborts : (id : Text) → t ≡ record s { acp = abort id s.acp } → Step name stringify s t
  leaves : (i : ℕ) → leave i s ≡ some t → Step name stringify s t
  settles : (i : ℕ) → settle i s ≡ some t → Step name stringify s t
  retires : (i : ℕ) → with_queues s (retire i s.queues) ≡ some t → Step name stringify s t

-- No session stands for two chats.
abbrev pub IsApart : Map Text Text → Type 0
IsApart m = (k l id : Text) → get k m ≡ some id → get l m ≡ some id → k ≡ l

pub data Reachable (name : Text) (stringify : Json → Text) : Adapter → Type 0 where
  here : (map : Map Text Text) → IsApart map → Reachable name stringify (started map)
  next :
      {s t : Adapter}
      → Reachable name stringify s
      → Step name stringify s t
      → Reachable name stringify t
