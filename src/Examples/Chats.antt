-- ===== src/Examples/Chats.antt =====
-- A turn of agent-adapter/server.mjs that waits in its chat and goes to the agent.
use llm_stack.Base.{
  ◌≡◌, refl, false, [], ◌∷◌, none, some, Text, codes, get, put, text_eq, text_beq, nat_eq, arith,
}
use llm_stack.Server.Keys.{prompt_hash}
use llm_stack.Server.History.{continues, matched}
use llm_stack.Server.Queue
use llm_stack.Server.Queue.{serialize, start, move, job, settled}
use llm_stack.Server.Turn
use llm_stack.Server.Turn.{NoSlash, open_turn, run_turn, prompting}
use llm_stack.Server.Chats.{
  Chats, fresh, arrive, begin, Reachable, here, next, opens, begins, IsLatest,
}
use llm_stack.Server.Chats.Laws.{chats_refine, one_prompt_a_chat}
use llm_stack.Examples.Server.{node, chat, a}

abbrev turn : Text
turn = codes "t1"

turn-NoSlash : NoSlash turn
turn-NoSlash = (λ e. ground arith, (λ e. ground arith, tt))

abbrev arrived : Chats
arrived = arrive turn chat (a ∷ []) (fresh [])

abbrev begun : Chats
begun = record {
  queues = record {
    next = 1;
    queues = (chat, 0) ∷ [];
    jobs = record { id = 0; key = chat; prev = none; status = Queue.running } ∷ [];
  };
  server = run_turn node false none turn (open_turn turn chat (a ∷ []) (Turn.fresh []));
  turn_of = (0, turn) ∷ [];
}

begun_next : begin node false none 0 arrived ≡ some begun
unfolding begin arrive serialize start move job settled get put text_beq
begun_next = refl

begun-Reachable : Reachable node [] begun
begun-Reachable =
    next (next here (opens turn chat (a ∷ []) refl turn-NoSlash refl))
      (begins false none 0 begun_next)

begun_prompting : (begun.server.turns turn).phase ≡ prompting
unfolding open_turn run_turn continues matched prompt_hash get put text_beq
begun_prompting = refl

chats_refine_example : Queue.Reachable begun.queues × Turn.Reachable node [] begun.server
chats_refine_example = chats_refine node [] begun begun-Reachable

one_prompt_a_chat_example : (turn ≡ turn) × IsLatest node turn begun.server
one_prompt_a_chat_example =
    one_prompt_a_chat node [] begun turn turn begun-Reachable begun_prompting begun_prompting refl
