-- ===== src/Examples/Whole.antt =====
-- Server and client of the agent-adapter together, on small inputs: a chat whose turn is within
-- `prompt`, and a permission that its user gives.
use llm_stack.Base.{
  ℕ, ◌≡◌, nat_eq, ◌⊎◌, inl, refl, true, false, List, [], ◌∷◌, ◌++◌, Option, none, some, Text, codes,
  arith, get, put, text_eq, text_beq, decimal, join,
}
use llm_stack.Js.{Json, num, str, arr, cons, nil, obj, field, end, ok, prop, to_text}
use llm_stack.Server.Keys.{prompt_hash}
use llm_stack.Server.History.{continues, matched}
use llm_stack.Server.Queue
use llm_stack.Server.Queue.{serialize, start, move, job, settled}
use llm_stack.Server.Turn
use llm_stack.Server.Turn.{
  open_turn, run_turn, on_permission, ask_user, opens, runs, NoSlash, ask_key,
}
use llm_stack.Server.Http.{permissions, read_json, read_chunks}
use llm_stack.Acp.Sessions.{Agent, session_id, create}
use llm_stack.Acp.Options.{
  selected, reply_decided, find_kind, pick, Offered, allow_kinds, reject_kinds,
}
use llm_stack.Acp.Rpc
use llm_stack.Acp.ToolText.{tool_text, input_text}
use llm_stack.Acp.Dispatch
use llm_stack.Acp.Dispatch.{Acp, Ask, answers, begin_prompt, on_message, decide, taken, array_of}
use llm_stack.Adapter
use llm_stack.Adapter.{Adapter, enter}
use llm_stack.Server.Queue.Jobs.{Runs}
use llm_stack.Adapter.Laws.{adapter_refines, one_turn_a_session}
use llm_stack.Consent
use llm_stack.Consent.{Link, register, resolve, at_place, of_turn}
use llm_stack.Consent.Permits.{Consented}
use llm_stack.Consent.Laws.{user_consents}
use llm_stack.Examples.Server.{node, chat, a, approval}
use llm_stack.Examples.Turns.{approves}

abbrev stringify : Json → Text
stringify v = []

abbrev agent : Agent
agent = record {
  resume = true;
  load = false;
  reattaches = λ method id. true;
  new_session = some (codes "s1");
  saves = true;
}

abbrev called : Adapter
called = record (Adapter.started []) { queues = serialize chat Queue.empty }

abbrev running : Adapter
running = record called {
  queues = record {
    next = 1;
    queues = (chat, 0) ∷ [];
    jobs = record { id = 0; key = chat; prev = none; status = Queue.running } ∷ [];
  };
}

abbrev prompting : Adapter
prompting = record running {
  sessions = record {
    map = (chat, codes "s1") ∷ [];
    saved = (chat, codes "s1") ∷ [];
    open_ids = codes "s1" ∷ [];
    sent = record { method = codes "session/new"; session = none } ∷ [];
  };
  acp = begin_prompt (codes "s1") (codes "t1") true Dispatch.started;
  under_way = (0, codes "s1") ∷ [];
}

running_next : Adapter.with_queues called (start 0 called.queues) ≡ some running
unfolding serialize start move job settled get put text_beq
running_next = refl

no_sessions : Adapter.IsFresh agent running
unfolding get
no_sessions k id e = λ f. ground (arith, f)

prompting_next : enter agent 0 (codes "t1") true running ≡ some prompting
unfolding enter job get put text_beq session_id create
prompting_next = refl

none-IsApart : Adapter.IsApart []
unfolding get
none-IsApart k l id e f = ground (arith, e)

prompting-Reachable : Adapter.Reachable (codes "pi") stringify prompting
prompting-Reachable =
    Adapter.next
      (Adapter.next (Adapter.next (Adapter.here [] none-IsApart) (Adapter.calls chat refl))
        (Adapter.starts 0 running_next))
      (Adapter.enters agent 0 (codes "t1") true no_sessions prompting_next)

adapter_refines_example : Dispatch.Reachable (codes "pi") stringify prompting.acp
adapter_refines_example = adapter_refines (codes "pi") stringify prompting prompting-Reachable

within : get 0 prompting.under_way ≡ some (codes "s1")
unfolding get
within = refl

one_turn_a_session_example :
    (◌≡◌ {A = ℕ} 0 0)
    × ((key : Text) × Runs prompting.queues 0 key
        × (get key prompting.sessions.map ≡ some (codes "s1")))
one_turn_a_session_example =
    one_turn_a_session (codes "pi") stringify prompting 0 0 (codes "s1") prompting-Reachable within
      within

-- Turn t1 of the session s1 is asked, its user allows the request, and the agent is answered.
abbrev option : Json
option = obj (
    field (codes "optionId") (str (codes "yes"))
      (field (codes "kind") (str (codes "allow_once")) end))

abbrev asks_to_run : Json
asks_to_run = obj (
    field (codes "id") (num (codes "7")) (
      field (codes "method") (str (codes "session/request_permission")) (
        field (codes "params")
          (obj (
            field (codes "sessionId") (str (codes "s1")) (
              field (codes "toolCall") (obj (field (codes "title") (str (codes "ls")) end))
                (field (codes "options") (arr (cons option nil)) end))))
          end)))

abbrev bodies : List Json
bodies = approval ∷ []

abbrev shown : Option Json → Text
shown v = codes "ls"

abbrev turn : Text
turn = codes "t1"

abbrev opened : Link
opened = record (Consent.started node (codes "pi") stringify shown []) {
  server = open_turn turn chat (a ∷ []) (Turn.fresh []);
}

abbrev runs_turn : Link
runs_turn = record opened { server = run_turn node false none turn opened.server }

abbrev listens : Link
listens = record runs_turn { acp = begin_prompt (codes "s1") turn true Dispatch.started }

abbrev ask : Ask
ask = record {
  turn = turn;
  id = some (num (codes "7"));
  title = some (str (codes "ls"));
  text = [];
  options = some (arr (cons option nil));
}

abbrev asked_acp : Acp
asked_acp = record listens.acp { asks = ask ∷ [] }

abbrev asking : Link
asking = register shown ask asked_acp listens

abbrev allowed : Link
allowed = record asking { server = (permissions node approves asking.server).1 }

abbrev told : Link
told = record allowed {
  acp = record asked_acp {
    asks = [];
    sent = answers ask.id (selected (some (str (codes "yes")))) ∷ [];
  };
  promises = [];
}

turn-NoSlash : NoSlash turn
turn-NoSlash = (λ e. ground arith, (λ e. ground arith, tt))

asks_read : on_message (codes "pi") stringify asks_to_run listens.acp ≡ ok asked_acp
unfolding on_message Dispatch.on_permission_request Dispatch.ask_user Dispatch.called
    Dispatch.shown_text Dispatch.merge begin_prompt prop get put text_beq tool_text input_text
    to_text Rpc.request decimal join
asks_read = refl

is_read : read_json node approves ≡ some approval
unfolding read_json read_chunks
is_read = refl

allowed-Reachable : Consent.Reachable node (codes "pi") stringify shown [] bodies allowed
unfolding open_turn run_turn continues matched prompt_hash get put text_beq begin_prompt
allowed-Reachable = Consent.permits approves approval is_read (
    Consent.next
      (Consent.next
        (Consent.next
          (Consent.next Consent.here (
            Consent.serves opened.server (opens turn chat (a ∷ []) refl turn-NoSlash refl) tt refl))
          (Consent.serves runs_turn.server (runs false none turn refl refl) tt refl))
        (Consent.talks listens.acp (Dispatch.begins (codes "s1") turn true refl refl) refl refl))
      (Consent.asks asks_to_run asked_acp ask asks_read refl (inl refl) refl))

told_next : resolve 0 allowed ≡ some (ok told)
unfolding resolve register permissions read_json read_chunks on_permission ask_user open_turn
    run_turn continues matched prompt_hash get put text_beq prop to_text ask_key decimal decide
    reply_decided pick find_kind Turn.settle begin_prompt
told_next = refl

told_sent :
    told.acp.sent ≡ allowed.acp.sent ++ answers ask.id (selected (some (str (codes "yes")))) ∷ []
unfolding begin_prompt register permissions
told_sent = refl

user_consents_example :
    (a : Ask) × (more : List Ask) × (options : List Json) × (taken 0 allowed.acp.asks
      ≡ some (a, more))
    × (a.id ≡ ask.id)
    × (array_of a.options ≡ ok options)
    × (((r : ℕ) × (at_place 0 allowed.promises ≡ some (of_turn a.turn r))
          × Consented bodies a.turn r
          × Offered options allow_kinds (some (str (codes "yes"))))
        ⊎ Offered options reject_kinds (some (str (codes "yes"))))
user_consents_example =
    user_consents node (codes "pi") stringify shown [] bodies 0 allowed told ask.id
      (some (str (codes "yes"))) allowed-Reachable told_next told_sent
