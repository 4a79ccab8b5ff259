-- ===== src/Opencode.antt =====
-- agent-adapter/opencode.mjs: the reader of the event stream, which cuts the chunks into lines and
-- hands each event to the turn that listens to its session.
pub mod Lines
pub mod Laws
pub mod Launch
pub mod Sessions
pub mod Startup
pub mod Turns
use llm_stack.Base.{
  ℕ, ◌≡◌, Bool, true, false, not, List, [], ◌∷◌, ◌++◌, Option, none, some, Text, codes, Map, get,
  put, ◌==◌, text_eq, text_beq, take, drop, trim, get_or, if◌then◌else◌,
}
use llm_stack.Js.{
  Json, null, str, obj, end, Result, ok, throws, ◌>>=◌, prop, prop_within, is_str, truthy, template,
}
use llm_stack.Opencode.Lines.{cut_lines}

pub data Call : Type 0 where
  on_text on_reasoning : Option Json → Call

-- What `prompt` registers: `idle` once `done` is called, and the callbacks so far.
pub record Listener : Type 0 where
  pub text : Text
  pub error : Option Json
  pub idle : Bool
  pub calls : List Call

abbrev pub listener : Listener
listener = record { text = []; error = some null; idle = false; calls = [] }

-- Part ids are strings, and so are the types that count.
pub record Stream : Type 0 where
  pub listeners : Map Text Listener
  pub part_types : Map Text (Option Json)

abbrev pub with_id : Text → Option Listener → Option (Text × Listener)
with_id id none = none
with_id id (some l) = some (id, l)

abbrev pub listening : Option Json → Stream → Option (Text × Listener)
listening (some (str id)) s = with_id id (get id s.listeners)
listening _ s = none

abbrev pub type_of : Option Json → Stream → Option Json
type_of (some (str id)) s = elim (get id s.part_types) [ none ↦ none | some t ↦ t ]
type_of _ s = none

abbrev pub note_type : Option Json → Option Json → Stream → Stream
note_type (some (str id)) type s = record s { part_types = put id type s.part_types }
note_type _ type s = s

-- case 'message.part.delta', for the type of its part.
pub add_delta : Option Json → Option Json → Listener → Result Listener
add_delta type delta l =
    if is_str (codes "text") type
    then (do
      t ← template delta
      ok (record l { text = l.text ++ t; calls = l.calls ++ (on_text delta ∷ []) }))
    else if is_str (codes "reasoning") type
    then ok (record l { calls = l.calls ++ (on_reasoning delta ∷ []) })
    else ok l

-- a || b
abbrev either : Option Json → Option Json → Option Json
either a b = if truthy a then a else b

abbrev pub error_of : Option Json → Result (Option Json)
error_of error = do
  data_part ← prop_within (codes "data") error
  message ← prop_within (codes "message") data_part
  name ← prop_within (codes "name") error
  ok (either message (either name (some (str (codes "model error")))))

abbrev pub set_listener : Text → Listener → Stream → Stream
set_listener id l s = record s { listeners = put id l s.listeners }

abbrev pub object_of : Option Json → Result Json
object_of none = throws
object_of (some v) = ok v

-- What an event of a session with a listener does: `p` is its properties.
pub dispatch : Option Json → Json → Text → Listener → Stream → Result Stream
unfolding add_delta
dispatch type p id l s =
    if is_str (codes "message.part.updated") type
    then (do
      found ← prop (codes "part") p
      part ← object_of found
      part_id ← prop (codes "id") part
      part_type ← prop (codes "type") part
      ok (note_type part_id part_type s))
    else if is_str (codes "message.part.delta") type
    then (do
      part_id ← prop (codes "partID") p
      field_name ← prop (codes "field") p
      delta ← prop (codes "delta") p
      if not (is_str (codes "text") field_name)
          then ok s
          else (do m ← add_delta (type_of part_id s) delta l; ok (set_listener id m s)))
    else if is_str (codes "session.error") type
    then (do
      found ← prop (codes "error") p
      error ← error_of found
      ok (set_listener id (record l { error = error }) s))
    else if is_str (codes "session.idle") type
    then ok (set_listener id (record l { idle = true }) s)
    else ok s

abbrev pub dispatch_if : Option Json → Json → Stream → Option (Text × Listener) → Result Stream
dispatch_if type p s none = ok s
dispatch_if type p s (some (id, l)) = dispatch type p id l s

-- e.properties || {}
abbrev pub properties_of : Option Json → Json
properties_of none = obj end
properties_of (some v) = if truthy (some v) then v else obj end

pub on_event : Json → Stream → Result Stream
unfolding dispatch
on_event e s = do
  found ← prop (codes "properties") e
  session ← prop (codes "sessionID") (properties_of found)
  type ← prop (codes "type") e
  dispatch_if type (properties_of found) s (listening session s)

abbrev pub parsed : Option Json → Stream → Result Stream
parsed none s = ok s
parsed (some e) s = on_event e s

-- A line of the stream; `parse` is JSON.parse, none where it throws.
pub on_line : (Text → Option Json) → Text → Stream → Result Stream
unfolding on_event
on_line parse line s =
    if text_beq (take 5 (trim line)) (codes "data:")
    then parsed (parse (drop 5 (trim line))) s
    else ok s

pub on_lines : (Text → Option Json) → List Text → Stream → Result Stream
unfolding on_line
on_lines parse [] s = ok s
on_lines parse (l ∷ ls) s = do t ← on_line parse l s; on_lines parse ls t

-- The body of the `for await`: the bytes of a chunk are decoded by themselves (`decode` is
-- `Buffer.from(…).toString('utf8')`) and join the buffer, whose lines are cut off and handled. A
-- `throws` ends the process.
pub on_chunk :
    (List ℕ → Text) → (Text → Option Json) → List ℕ → Text → Stream → Result (Text × Stream)
unfolding on_lines
on_chunk decode parse chunk buf s =
    let cut = cut_lines (buf ++ decode chunk) in (do t ← on_lines parse cut.0 s; ok (cut.1, t))

pub on_chunks :
    (List ℕ → Text) → (Text → Option Json) → List (List ℕ) → Text → Stream → Result (Text × Stream)
unfolding on_chunk
on_chunks decode parse [] buf s = ok (buf, s)
on_chunks decode parse (c ∷ cs) buf s = do
  p ← on_chunk decode parse c buf s
  on_chunks decode parse cs p.0 p.1

-- What `prompt` gives once the session is idle.
abbrev pub answer_of : Listener → Result Text
answer_of l = if truthy l.error then throws else ok l.text
