-- ===== src/Server/Completion.antt =====
-- agent-adapter/server.mjs: what a chat completion writes to its response, from the callbacks of
-- `backend.prompt` and the way its promise settles. The fields that every chunk repeats (id, created,
-- model) are left out.
pub mod Laws
use llm_stack.Base.{
  Bool, true, false, not, ◌&&◌, List, [], ◌∷◌, ◌++◌, Option, none, some, Text, codes, is_empty,
  if◌then◌else◌,
}

pub data Callback : Type 0 where
  on_text on_reasoning : Text → Callback

pub data Ending : Type 0 where
  returns fails : Text → Ending

-- `chunk(delta, finish)` by its delta, the end of the stream, and the two replies in JSON.
pub data Write : Type 0 where
  headers role : Write
  content : (t : Text) → (finish : Option Text) → Write
  reasoning : Text → Write
  finish : Text → Write
  done : Write
  reply : Text → Write
  error : Text → Write

pub record Progress : Type 0 where
  pub streamed : Bool
  pub writes : List Write

-- The callbacks: each notes that there was text, and writes only to a stream.
pub on_callback : Bool → Callback → Progress → Progress
on_callback stream (on_text t) p = record {
  streamed = true;
  writes = if stream then p.writes ++ (content t none ∷ []) else p.writes;
}
on_callback stream (on_reasoning t) p = record p {
  writes = if stream then p.writes ++ (reasoning t ∷ []) else p.writes;
}

pub on_callbacks : Bool → List Callback → Progress → Progress
unfolding on_callback
on_callbacks stream [] p = p
on_callbacks stream (c ∷ cs) p = on_callbacks stream cs (on_callback stream c p)

abbrev pub opening : Bool → Progress
opening stream = record { streamed = false; writes = if stream then headers ∷ role ∷ [] else [] }

-- What is written once the prompt settles.
pub closing : Bool → Bool → Bool → Ending → List Write
closing stream streamed aborted (returns final) =
    if stream
    then (if not streamed && not (is_empty final) then content final none ∷ [] else [])
      ++ (finish (codes "stop") ∷ done ∷ [])
    else reply final ∷ []
closing stream streamed aborted (fails err) =
    if aborted
    then []
    else if stream
    then content (codes "\n\nAgent error: " ++ err) (some (codes "stop")) ∷ done ∷ []
    else error err ∷ []

-- From `res.writeHead` to the end of the handler.
pub completion : Bool → List Callback → Bool → Ending → List Write
unfolding on_callbacks closing
completion stream cs aborted end =
    let p = on_callbacks stream cs (opening stream) in
    p.writes ++ closing stream p.streamed aborted end
