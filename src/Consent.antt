-- ===== src/Consent.antt =====
-- agent-adapter: a permission request on its whole way, over acp.mjs and server.mjs. The agent's
-- message reaches the callback `onPermission` of the turn that listens to its session; the promise
-- that it returns is resolved by the permissions endpoint, a timer or the client's connection; the
-- agent is answered when it is.
pub mod Server
pub mod Answers
pub mod Permits
pub mod Laws
use llm_stack.Base.{
  ℕ, zero, suc, ◌≡◌, List, [], ◌∷◌, ◌++◌, Option, none, some, Text, Map, get, text_eq, nat_eq,
}
use llm_stack.Js.{Json, Result, throws, ok}
use llm_stack.Server.Keys.{Node}
use llm_stack.Server.Turn
use llm_stack.Server.Turn.{Decision, deny, on_permission, settle_if, IsUnderWay}
use llm_stack.Server.Http.{Request, read_json, permissions}
use llm_stack.Acp.Dispatch
use llm_stack.Acp.Dispatch.{Acp, Ask, on_message, decide}

-- What the agent's answer waits for: the promise of a request of a turn, or one that is resolved.
pub data Promise : Type 0 where
  at_once : Decision → Promise
  of_turn : Text → ℕ → Promise

-- `promises`: those of the client's `asks`, in their order.
pub record Link : Type 0 where
  pub server : Turn.Server
  pub acp : Acp
  pub promises : List Promise

abbrev pub promise_of : Text → Turn.Server × Option Decision → Promise
promise_of turn (s, some d) = at_once d
promise_of turn (s, none) = of_turn turn (s.turns turn).asked

-- The client calls `onPermission` of the turn of a new ask. `shown` is how a title is shown that is
-- no text.
unfoldable pub register : (Option Json → Text) → Ask → Acp → Link → Link
register shown x a s =
    let r = on_permission x.turn (shown x.title) x.text s.server in
    record { server = r.0; acp = a; promises = s.promises ++ promise_of x.turn r ∷ [] }

abbrev pub decision_of : Promise → Turn.Server → Option Decision
decision_of (at_once d) s = some d
decision_of (of_turn turn r) s = get r (s.turns turn).decided

abbrev pub at_place : ℕ → List Promise → Option Promise
at_place n [] = none
at_place zero (p ∷ ps) = some p
at_place (suc n) (p ∷ ps) = at_place n ps

abbrev pub without : ℕ → List Promise → List Promise
without n [] = []
without zero (p ∷ ps) = ps
without (suc n) (p ∷ ps) = p ∷ without n ps

abbrev pub told : ℕ → Link → Result Acp → Result Link
told n s throws = throws
told n s (ok a) = ok (record s { acp = a; promises = without n s.promises })

abbrev pub resolve_by : ℕ → Link → Option Decision → Option (Result Link)
resolve_by n s none = none
resolve_by n s (some d) = some (told n s (decide n d s.acp))

abbrev pub resolve_at : ℕ → Link → Option Promise → Option (Result Link)
resolve_at n s none = none
resolve_at n s (some p) = resolve_by n s (decision_of p s.server)

-- The `then` of the ask at this place runs, if its promise is resolved.
unfoldable pub resolve : ℕ → Link → Option (Result Link)
resolve n s = resolve_at n s (at_place n s.promises)

-- The steps of the server but those of permissions.
abbrev pub IsOther : {node : Node} {s t : Turn.Server} → Turn.Step node s t → Type 0
IsOther (Turn.settles _ _ _) = ⊥
IsOther (Turn.asks_permission _ _ _ _ _) = ⊥
IsOther _ = Unit

module _ (node : Node) (name : Text) (stringify : Json → Text) (shown : Option Json → Text) where
  pub data Step (s t : Link) : Type 0 where
    serves :
        (v : Turn.Server) (st : Turn.Step node s.server v)
        → IsOther st
        → t ≡ record s { server = v }
        → Step s t
    -- The timer of a request.
    times_out : (k : Text) → t ≡ record s { server = settle_if k deny s.server } → Step s t
    -- Any step of the client that asks nothing and answers no ask.
    talks :
        (a : Acp)
        → Dispatch.Step name stringify s.acp a
        → a.asks ≡ s.acp.asks
        → t ≡ record s { acp = a }
        → Step s t
    asks :
        (m : Json) (a : Acp) (x : Ask)
        → on_message name stringify m s.acp ≡ ok a
        → a.asks ≡ s.acp.asks ++ x ∷ []
        → IsUnderWay (s.server.turns x.turn).phase
        → t ≡ register shown x a s
        → Step s t
    resolves : (n : ℕ) → resolve n s ≡ some (ok t) → Step s t

  abbrev pub started : Map Text (List Text) → Link
  started history = record { server = Turn.fresh history; acp = Dispatch.started; promises = [] }

  -- With the bodies that the permissions endpoint has read so far.
  pub data Reachable (history : Map Text (List Text)) : List Json → Link → Type 0 where
    here : Reachable history [] (started history)
    next :
        {bodies : List Json} {s t : Link}
        → Reachable history bodies s
        → Step s t
        → Reachable history bodies t
    permits :
        {bodies : List Json} {s : Link} (req : Request) (body : Json)
        → read_json node req ≡ some body
        → Reachable history bodies s
        → Reachable history
            (body ∷ bodies)
            (record s { server = (permissions node req s.server).1 })
