-- ===== src/Server/Chats.antt =====
-- agent-adapter/server.mjs: the turns in their chats. `turn` opens the response and gives its body
-- to `serialize`; the body runs when the promise of the call before it has settled, and the tail of
-- the chat settles when the turn is over. Chat completions are calls of `serialize` without a turn.
pub mod Kept
pub mod Run
pub mod Invariant
pub mod Arrive
pub mod Begin
pub mod Laws
use llm_stack.Base.{
  ℕ, ◌≡◌, Bool, true, false, List, [], ◌∷◌, Option, none, some, Text, Map, get, put, ◌==◌, text_eq,
  nat_eq, last, if◌then◌else◌,
}
use llm_stack.Server.Keys.{Node, prompt_hash}
use llm_stack.Server.Queue
use llm_stack.Server.Queue.{Queues, serialize, start, finish, retire}
use llm_stack.Server.Turn
use llm_stack.Server.Turn.{
  Phase, unopened, queued, prompting, over, NoSlash, open_turn, run_turn, received, last_or,
}

-- `turn_of`: the turn whose body a job runs, by the number of the job.
pub record Chats : Type 0 where
  pub queues : Queues
  pub server : Turn.Server
  pub turn_of : Map ℕ Text

abbrev pub fresh : Map Text (List Text) → Chats
fresh history = record { queues = Queue.empty; server = Turn.fresh history; turn_of = [] }

-- A turn's request arrives, up to the promise of `serialize`.
unfoldable pub arrive : Text → Text → List Text → Chats → Chats
arrive id key users s = record {
  queues = serialize key s.queues;
  server = open_turn id key users s.server;
  turn_of = put s.queues.next id s.turn_of;
}

abbrev pub begun : Node → Bool → Option Text → Chats → Option Text → Option Queues → Option Chats
begun node has_session save_error s turn none = none
begun node has_session save_error s none (some q) = some (record s { queues = q })
begun node has_session save_error s (some id) (some q) =
    some (record s { queues = q; server = run_turn node has_session save_error id s.server })

-- `prev.then(fn)` calls the function of job `i`: the body of its turn, if it has one.
unfoldable pub begin : Node → Bool → Option Text → ℕ → Chats → Option Chats
begin node has_session save_error i s =
    begun node has_session save_error s (get i s.turn_of) (start i s.queues)

abbrev pub is_over : Phase → Bool
is_over over = true
is_over _ = false

abbrev pub is_done : Option Text → Chats → Bool
is_done none s = true
is_done (some id) s = is_over (s.server.turns id).phase

abbrev pub with_queues : Chats → Option Queues → Option Chats
with_queues s none = none
with_queues s (some q) = some (record s { queues = q })

-- The function's promise settles: that of a turn once the turn is over.
unfoldable pub settle : ℕ → Chats → Option Chats
settle i s =
    let t = with_queues s (finish i s.queues) in if is_done (get i s.turn_of) s then t else none

-- The steps of a turn but its beginning.
abbrev pub IsWithin : {node : Node} {s t : Turn.Server} → Turn.Step node s t → Type 0
IsWithin (Turn.opens _ _ _ _ _ _) = ⊥
IsWithin (Turn.runs _ _ _ _ _) = ⊥
IsWithin _ = Unit

pub data Step (node : Node) (s t : Chats) : Type 0 where
  opens :
      (id key : Text) (users : List Text)
      → (s.server.turns id).phase ≡ unopened
      → NoSlash id
      → t ≡ arrive id key users s
      → Step node s t
  -- A chat completion.
  calls : (key : Text) → t ≡ record s { queues = serialize key s.queues } → Step node s t
  begins :
      (has_session : Bool) (save_error : Option Text) (i : ℕ)
      → begin node has_session save_error i s ≡ some t
      → Step node s t
  serves :
      (v : Turn.Server) (st : Turn.Step node s.server v)
      → IsWithin st
      → t ≡ record s { server = v }
      → Step node s t
  settles : (i : ℕ) → settle i s ≡ some t → Step node s t
  retires : (i : ℕ) → with_queues s (retire i s.queues) ≡ some t → Step node s t

pub data Reachable (node : Node) (history : Map Text (List Text)) : Chats → Type 0 where
  here : Reachable node history (fresh history)
  next : {s t : Chats} → Reachable node history s → Step node s t → Reachable node history t

-- The prompt of a turn is the last that the history of its chat has.
abbrev pub IsLatest : Node → Text → Turn.Server → Type 0
IsLatest node id s =
    last (received (s.turns id).key s) ≡ some (prompt_hash node (last_or (s.turns id).users))
