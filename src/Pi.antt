-- ===== src/Pi.antt =====
-- agent-adapter/pi.mjs: the sessions of the chats, a turn's events and its answer. The sessions
-- that the SDK creates are numbered in the order of their creation.
pub mod Laws
use llm_stack.Base.{
  ℕ, suc, Bool, true, false, not, ◌&&◌, List, [], ◌∷◌, ◌++◌, Option, none, some, Text, codes, Map,
  get, put, map, text_eq, last, if◌then◌else◌,
}
use llm_stack.Js.{Json, str, Result, ok, throws, ◌>>=◌, prop, prop_within, is_str, truthy}

-- The map `sessions`, how many sessions the SDK has created, and those disposed of.
pub record Pi : Type 0 where
  pub sessions : Map Text ℕ
  pub created : ℕ
  pub disposed : List ℕ

abbrev pub started : Pi
started = record { sessions = []; created = 0; disposed = [] }

abbrev pub made : Text → Pi → Option ℕ × Pi
made key p =
    (some p.created, record p { sessions = put key p.created p.sessions; created = suc p.created })

-- session(key), where `creates` says whether the loader and createAgentSession return; none where
-- they throw.
unfoldable pub session : Bool → Text → Pi → Option ℕ × Pi
session creates key p = elim (get key p.sessions) [
  | none ↦ if creates then made key p else (none, p)
  | some s ↦ (some s, p)
]

-- Calls of `session`, one after the other.
unfoldable pub sessions_of : List (Bool × Text) → Pi → Pi
unfolding session
sessions_of [] p = p
sessions_of ((creates, key) ∷ more) p = sessions_of more (session creates key p).1

-- stop()
unfoldable pub stop : Pi → Pi
stop p = record p { disposed = p.disposed ++ map (λ (e : Text × ℕ). e.1) p.sessions }

pub data Call : Type 0 where
  on_text on_reasoning : Option Json → Call

-- A property of what may be undefined.
abbrev prop_of : Text → Option Json → Result (Option Json)
prop_of key none = throws
prop_of key (some v) = prop key v

-- The handler of an event, and the calls of the turn's callbacks so far.
unfoldable pub on_event : Json → List Call → Result (List Call)
on_event event calls = do
  type ← prop (codes "type") event
  if not (is_str (codes "message_update") type) then ok calls else (do
    e ← prop (codes "assistantMessageEvent") event
    kind ← prop_of (codes "type") e
    if is_str (codes "text_delta") kind
        then (do delta ← prop_of (codes "delta") e; ok (calls ++ (on_text delta ∷ [])))
        else if is_str (codes "thinking_delta") kind
        then (do delta ← prop_of (codes "delta") e; ok (calls ++ (on_reasoning delta ∷ [])))
        else ok calls)

-- How `prompt` ends once the SDK's prompt has returned.
pub data Ended : Type 0 where
  answers fails : Option Json → Ended

abbrev or_json : Option Json → Text → Option Json
or_json v d = if truthy v then v else some (str d)

-- `messages` are those of the session, and `shown` is getLastAssistantText().
unfoldable pub end_prompt : List Json → Option Json → Result Ended
end_prompt messages shown = do
  role ← prop_within (codes "role") (last messages)
  stop_reason ← prop_within (codes "stopReason") (last messages)
  message ← prop_within (codes "errorMessage") (last messages)
  if is_str (codes "assistant") role && is_str (codes "error") stop_reason
      then ok (fails (or_json message (codes "model error")))
      else ok (answers (or_json shown []))
