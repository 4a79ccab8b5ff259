-- ===== src/Examples/Clients.antt =====
-- The ACP client and the opencode event stream on small inputs.
use llm_stack.Base.{
  ℕ, map, ltb, if◌then◌else◌, ◌+◌, ◌≡◌, refl, true, false, List, [], ◌∷◌, Option, none, some, Text,
  codes, get, put, delete, text_eq, text_beq, decimal, concat,
}
use llm_stack.Js.{Json, str, num, obj, field, end, ok, prop, to_text}
use llm_stack.Acp.Sessions.{Agent, Sessions}
use llm_stack.Acp.Updates.{
  Output, Call, fresh, on_text, run_updates, on_update, act, add_chunk, texts, out-texts,
}
use llm_stack.Acp.Rpc
use llm_stack.Opencode.{Stream, listener, on_chunk, on_chunks}
use llm_stack.Opencode.Laws.{chunks_join}

abbrev once : Json
once = obj (
    field (codes "kind") (str (codes "allow_once"))
      (field (codes "optionId") (str (codes "o1")) end))

abbrev agent : Agent
agent = record {
  resume = true;
  load = false;
  reattaches = λ m id. true;
  new_session = some (codes "s1");
  saves = true;
}

abbrev no_sessions : Sessions
no_sessions = record { map = []; saved = []; open_ids = []; sent = [] }

-- Two chunks of two messages.
abbrev chunk : Text → Text → Json
chunk message t = obj (
    field (codes "sessionUpdate") (str (codes "agent_message_chunk")) (
      field (codes "messageId") (str message) (
        field (codes "content")
          (obj (field (codes "type") (str (codes "text")) (field (codes "text") (str t) end)))
          end)))

abbrev updates : List Json
updates = chunk (codes "m1") (codes "hi") ∷ chunk (codes "m2") (codes "ho") ∷ []

abbrev heard : Output × List Call
heard = (
  record { out = codes "hi\n\nho"; last_message = some (str (codes "m2")) },
  on_text (some (str (codes "hi"))) ∷ on_text (some (str (codes "\n\nho"))) ∷ [],
)

updates-heard : run_updates updates fresh ≡ ok heard
unfolding run_updates on_update act add_chunk prop get text_beq to_text
updates-heard = refl

out-texts_example : texts heard.1 ≡ ok heard.0.out
out-texts_example = out-texts updates heard updates-heard

-- One request, and its response.
abbrev response : Json
response = obj (field (codes "id") (num (codes "1")) end)

abbrev asked : Rpc.Client
asked = Rpc.request (codes "session/new") Rpc.fresh

abbrev answered : Rpc.Client
answered = record { next_id = 1; pending = []; settled = (codes "1", Rpc.resolved none) ∷ [] }

asked-Reachable : Rpc.Reachable (codes "pi") asked
asked-Reachable = Rpc.Reachable.next Rpc.Reachable.here (Rpc.requests (codes "session/new") refl)

response_read : Rpc.on_response (codes "pi") response asked ≡ ok answered
unfolding Rpc.request Rpc.on_response Rpc.settle prop get put delete text_beq decimal
response_read = refl

settled_once_example :
    (Rpc.settlements 1 asked + Rpc.waits 1 asked ≡ Rpc.made 1 asked)
    × Rpc.Heeded (codes "pi") response asked answered
settled_once_example =
    Rpc.settled_once (codes "pi") response asked answered 1 asked-Reachable response_read

abbrev parse : Text → Option Json
parse t = none

abbrev stream : Stream
stream = record { listeners = (codes "s1", listener) ∷ []; part_types = [] }

-- Bytes of ASCII are themselves; no other byte is a character alone.
abbrev decode : List ℕ → Text
decode = map (λ b. if ltb b 128 then b else 65533)

chunks_join_example :
    on_chunks decode parse (codes "data:" ∷ codes "x\ndata" ∷ []) [] stream
    ≡ on_chunk decode parse (concat (codes "data:" ∷ codes "x\ndata" ∷ [])) [] stream
chunks_join_example = chunks_join decode parse (codes "data:" ∷ codes "x\ndata" ∷ []) stream refl
