-- ===== src/Examples/Turns.antt =====
-- A turn of agent-adapter/server.mjs that asks for a permission, and the chat that it belongs to.
use llm_stack.Base.{
  ◌≡◌, ◌≢◌, ◌+◌, inl, refl, true, false, List, [], ◌∷◌, ◌++◌, none, some, Text, codes, Map, get,
  put, text_eq, text_beq, init, decimal, arith,
}
use llm_stack.Js.{prop, to_text}
use llm_stack.Server.Keys.{prompt_hash}
use llm_stack.Server.History.{continues, matched}
use llm_stack.Server.Turn.{
  Server, fresh, Reachable, here, next, open_turn, run_turn, on_permission, ask_user, close,
  received, ask_key, unopened, opens, runs, asks_permission, NoSlash,
}
use llm_stack.Server.Turn.Invariant.{decisions, pending, made}
use llm_stack.Server.Turn.Permissions.{decided_once, close-cancels}
use llm_stack.Server.Turn.Chat.{continue_after, regenerate_refused, regenerate_repeated}
use llm_stack.Server.Turn.Events.{Shape, events-Shape}
use llm_stack.Server.Http.{Request, permissions, read_json, read_chunks, accepted}
use llm_stack.Server.Http.Laws.{Accepted, accepted_named}
use llm_stack.Examples.Server.{node, a, b, chat}

-- A chat of which the agent has `a`, and a turn that sends `b` after it.
abbrev turn : Text
turn = codes "t1"

abbrev known : Map Text (List Text)
known = (chat, prompt_hash node a ∷ []) ∷ []

abbrev sent : Server
sent = open_turn turn chat (a ∷ b ∷ []) (fresh known)

abbrev asking : Server
asking = (on_permission turn (codes "ls") [] (run_turn node true none turn sent)).0

turn-NoSlash : NoSlash turn
turn-NoSlash = (λ e. ground arith, (λ e. ground arith, tt))

sent-Reachable : Reachable node known sent
sent-Reachable = next here (opens turn chat (a ∷ b ∷ []) refl turn-NoSlash refl)

asking-Reachable : Reachable node known asking
unfolding open_turn run_turn continues matched prompt_hash get put text_beq
asking-Reachable =
    next (next sent-Reachable (runs true none turn refl refl))
      (asks_permission turn (codes "ls") [] (inl refl) refl)

decided_once_example : decisions turn 1 asking + pending turn 1 asking ≡ made turn 1 asking
decided_once_example = decided_once asking turn 1 asking-Reachable turn-NoSlash

asking_opened : (asking.turns turn).phase ≢ unopened
unfolding open_turn run_turn continues matched prompt_hash get put text_beq on_permission ask_user
asking_opened e = cc

close-cancels_example : pending turn 1 (close false turn asking) ≡ 0
close-cancels_example = close-cancels asking turn 1 asking-Reachable asking_opened

events-Shape_example : Shape turn (asking.turns turn)
events-Shape_example = events-Shape asking turn asking-Reachable

sent_live : (sent.turns turn).aborted ≡ false
unfolding open_turn text_beq
sent_live = refl

sent_users : (sent.turns turn).users ≡ a ∷ b ∷ []
unfolding open_turn text_beq
sent_users = refl

continue_after_example :
    continues node
      (received (sent.turns turn).key (run_turn node true none turn sent))
      ((sent.turns turn).users ++ codes "c" ∷ [])
    ≡ true
unfolding open_turn continues matched prompt_hash get text_beq
continue_after_example =
    continue_after node true turn sent sent_live none b (codes "c" ∷ []) refl refl

regenerate_refused_example :
    continues node (received (sent.turns turn).key (run_turn node true none turn sent)) (a ∷ [])
    ≡ false
unfolding open_turn continues matched prompt_hash get text_beq
regenerate_refused_example =
    regenerate_refused node true turn sent sent_live none (a ∷ []) refl (omega arith) refl

-- A turn of a chat that the agent does not know, whose last two prompts are the same.
abbrev repeated : Server
repeated = open_turn turn chat (a ∷ a ∷ []) (fresh [])

repeated_live : (repeated.turns turn).aborted ≡ false
unfolding open_turn text_beq
repeated_live = refl

regenerate_repeated_example :
    continues node
      (received (repeated.turns turn).key (run_turn node false none turn repeated))
      (init (repeated.turns turn).users)
    ≡ true
unfolding open_turn continues matched prompt_hash get text_beq
regenerate_repeated_example =
    regenerate_repeated node false turn repeated repeated_live none a [] [] refl refl refl refl

abbrev pub approves : Request
approves = record {
  method = codes "POST";
  url = codes "/v1/agent/permissions";
  authorization = some (codes "Bearer key");
  chat_header = none;
  chunks = (123 ∷ []) ∷ [];
  broken = false;
}

approves-accepted : (permissions node approves asking).0 ≡ accepted
unfolding permissions read_json read_chunks prop to_text get put text_beq ask_key decimal open_turn
    run_turn continues matched prompt_hash on_permission ask_user
approves-accepted = refl

accepted_named_example : Accepted node approves asking
accepted_named_example = accepted_named node approves asking asking-Reachable approves-accepted
