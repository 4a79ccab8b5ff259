-- ===== src/Examples/Backends.antt =====
-- opencode, dsh and pi on small inputs.
use llm_stack.Base.{
  ℕ, map, ltb, if◌then◌else◌, ◌≡◌, ◌≢◌, ◌⊎◌, refl, true, Bool, ℕ, nat_beq, List, [], ◌∷◌, ◌++◌,
  Option, none, some, Text, codes, get, put, text_eq, text_beq,
}
use llm_stack.Js.{Json, str, obj, field, end, ok, throws, prop, to_text, truthy}
use llm_stack.Opencode.Startup.{gives, wait, Ends, wait_terminates}
use llm_stack.Opencode.Sessions.{Server, Sessions, session_id, create, asking, session_kept}
use llm_stack.Opencode.{Stream, listener, answer_of}
use llm_stack.Opencode.Turns.{begins, Reachable, here, next, empty, begin_prompt, told}
use llm_stack.Opencode.Turns.Answers.{answer_told}
use llm_stack.Dsh.{token_of, matches, until_stop, redact, token_is}
use llm_stack.Dsh.Laws.{IsToken, redact_conceals}
use llm_stack.Pi.{sessions_of, session, started, stop}
use llm_stack.Pi.Laws.{upto, sessions_apart}

-- A server that answers at the fourth attempt.
abbrev up : ℕ → Bool
up n = nat_beq n 3

wait_terminates_example : Ends up 0 (wait 602 up 0)
wait_terminates_example = wait_terminates up

abbrev server : Server
server = record {
  finds = λ p. true;
  new_session = gives (obj (field (codes "id") (str (codes "s1")) end));
  saves = true;
}

abbrev no_sessions : Sessions
no_sessions = record { map = []; saved = []; sent = [] }

abbrev kept : Sessions
kept = (session_id server (codes "chat") no_sessions).1

session_kept_example :
    (session_id server (codes "chat") kept
      ≡ (ok (some (str (codes "s1"))), asking (codes "GET") (codes "/session/" ++ codes "s1") kept))
    × ((k : Text) → codes "chat" ≢ k → get k kept.map ≡ get k no_sessions.map)
unfolding session_id create get put text_beq prop to_text
session_kept_example =
    session_kept server server (codes "chat") no_sessions (some (str (codes "s1"))) (codes "s1")
      refl refl refl refl

abbrev parse : Text → Option Json
parse t = none

-- Bytes of ASCII are themselves; no other byte is a character alone.
abbrev decode : List ℕ → Text
decode = map (λ b. if ltb b 128 then b else 65533)

abbrev listens : Text × Stream
listens = ([], begin_prompt (codes "s1") empty.1)

listens-Reachable : Reachable decode parse listens
listens-Reachable = next here (begins (codes "s1") refl)

listens-found : get (codes "s1") listens.1.listeners ≡ some listener
unfolding begin_prompt get put text_beq
listens-found = refl

answer_told_example :
    (answer_of listener ≡ told listener.calls)
    ⊎ ((answer_of listener ≡ throws) × (truthy listener.error ≡ true))
answer_told_example =
    answer_told decode parse listens (codes "s1") listener listens-Reachable listens-found

abbrev printed : Text
printed = codes "open http://localhost:3080/?token=abc&x=1"

printed-token : token_of printed ≡ some (codes "abc")
unfolding token_of matches until_stop
printed-token = refl

redact_conceals_example :
    (pre : Text) × (post : Text) × (printed ≡ pre ++ (token_is ++ (codes "abc" ++ post)))
    × ((other : Text)
        → IsToken other
        → redact printed ≡ redact (pre ++ (token_is ++ (other ++ post))))
redact_conceals_example = redact_conceals printed (codes "abc") printed-token

-- Two chats, of which the first asks twice.
abbrev asks : List (Bool × Text)
asks = (true, codes "a") ∷ (true, codes "b") ∷ (true, codes "a") ∷ []

asks-second : get (codes "b") (sessions_of asks started).sessions ≡ some 1
unfolding sessions_of session get put text_beq
asks-second = refl

sessions_apart_example :
    (codes "b" ≡ codes "b")
    × ((stop (sessions_of asks started)).disposed ≡ upto (sessions_of asks started).created)
sessions_apart_example = sessions_apart asks (codes "b") (codes "b") 1 asks-second asks-second
