-- ===== src/Acp/Updates.antt =====
-- agent-adapter/acp.mjs: the listener of a turn on `session/update` (the callback that `prompt`
-- registers).
use mathlib.Core.List.{append-nil, append_assoc}
use llm_stack.Base.{
  ◌≡◌, ◌∙◌, refl, sym, ap, subst, Bool, true, false, not, ◌&&◌, ◌||◌, List, [], ◌∷◌, ◌++◌, Option,
  none, some, Text, codes, is_empty, text_beq, if◌then◌else◌, arith, Bool-cases, inl, inr,
}
use llm_stack.Js.{
  Json, null, bool, num, str, Result, ok, ◌>>=◌, prop, prop_within, is_str, template, to_text,
  bind-eq-ok, ok-injective,
}
use llm_stack.Acp.ToolText.{tool_text}

-- The variables of `prompt` that the listener changes.
pub record Output : Type 0 where
  pub out : Text
  pub last_message : Option Json

abbrev pub fresh : Output
fresh = record { out = []; last_message = some null }

pub data Call : Type 0 where
  on_text on_reasoning : Option Json → Call
  on_tool : (id title kind status : Option Json) → Text → Call

-- `a === b`. Two objects are never one: each message is parsed anew.
abbrev same : Option Json → Option Json → Bool
same none none = true
same (some null) (some null) = true
same (some (bool true)) (some (bool b)) = b
same (some (bool false)) (some (bool b)) = not b
same (some (num s)) (some (num t)) = text_beq s t
same (some (str s)) (some (str t)) = text_beq s t
same _ _ = false

abbrev blank_line : Text
blank_line = 10 ∷ 10 ∷ []

-- A chunk of a message: consecutive messages are separated by a blank line.
unfoldable pub add_chunk : Option Json → Option Json → Output → Result (Output × List Call)
add_chunk found message o = do
  s ← template found
  if not (is_empty o.out) && not (same message o.last_message)
      then ok (
        record { out = o.out ++ (blank_line ++ s); last_message = message },
        on_text (some (str (blank_line ++ s))) ∷ [],
      )
      else ok (record { out = o.out ++ s; last_message = message }, on_text found ∷ [])

-- What the listener's tests find an update to be.
pub data Sort : Type 0 where
  a_tool a_thought a_message nothing : Sort

abbrev sort_of : Option Json → Option Json → Sort
sort_of kind type =
    if is_str (codes "tool_call") kind || is_str (codes "tool_call_update") kind
    then a_tool
    else if not (is_str (codes "text") type)
    then nothing
    else if is_str (codes "agent_thought_chunk") kind
    then a_thought
    else if is_str (codes "agent_message_chunk") kind
    then a_message
    else nothing

unfoldable pub act : Sort → Option Json → Json → Output → Result (Output × List Call)
unfolding tool_text add_chunk
act a_tool content u o = do
  id ← prop (codes "toolCallId") u
  title ← prop (codes "title") u
  kind ← prop (codes "kind") u
  status ← prop (codes "status") u
  t ← tool_text u
  ok (o, on_tool id title kind status t ∷ [])
act a_thought content u o = do
  found ← prop_within (codes "text") content
  ok (o, on_reasoning found ∷ [])
act a_message content u o = do
  found ← prop_within (codes "text") content
  message ← prop (codes "messageId") u
  add_chunk found message o
act nothing content u o = ok (o, [])

-- The listener: the new variables, and the callbacks that it calls.
unfoldable pub on_update : Json → Output → Result (Output × List Call)
unfolding act
on_update u o = do
  kind ← prop (codes "sessionUpdate") u
  content ← prop (codes "content") u
  type ← prop_within (codes "type") content
  act (sort_of kind type) content u o

-- The updates of a turn, in order.
unfoldable pub run_updates : List Json → Output → Result (Output × List Call)
unfolding on_update
run_updates [] o = ok (o, [])
run_updates (u ∷ us) o = do r ← on_update u o; rest ← run_updates us r.0; ok (rest.0, r.1 ++ rest.1)

-- What the `onText` callbacks have been given, as one text.
unfoldable pub texts : List Call → Result Text
texts [] = ok []
texts (on_text v ∷ cs) = do t ← template v; rest ← texts cs; ok (t ++ rest)
texts (_ ∷ cs) = texts cs

pub texts-append :
    (xs ys : List Call) (s t : Text)
    → texts xs ≡ ok s
    → texts ys ≡ ok t
    → texts (xs ++ ys) ≡ ok (s ++ t)
unfolding texts
texts-append [] ys s t e f = ground arith
texts-append (on_text v ∷ xs) ys s t e f =
    let (a, is_a, e₁) = bind-eq-ok (template v) _ e in
    let (b, is_b, e₂) = bind-eq-ok (texts xs) _ e₁ in
    rw (is_a, texts-append xs ys b t is_b f) (ground (arith, e₂, append_assoc a b t))
texts-append (on_reasoning v ∷ xs) ys s t e f = texts-append xs ys s t e f
texts-append (on_tool i ti k st x ∷ xs) ys s t e f = texts-append xs ys s t e f

-- The callbacks report what the update added to `out`.
pub record Reports (o : Output) (r : Output × List Call) : Type 0 where
  pub added : Text
  pub reported : texts r.1 ≡ ok added
  pub grown : r.0.out ≡ o.out ++ added

none-Reports : (o : Output) → Reports o (o, [])
unfolding texts
none-Reports o = record { added = []; reported = refl; grown = sym (append-nil o.out) }

add_chunk-Reports :
    (found message : Option Json) (o : Output) (r : Output × List Call)
    → add_chunk found message o ≡ ok r
    → Reports o r
unfolding add_chunk texts to_text
add_chunk-Reports found message o r e =
    let (s, is_s, e₁) = bind-eq-ok (template found) _ e in
    elim (Bool-cases (not (is_empty o.out) && not (same message o.last_message))) [
      | inl apart ↦ record {
        added = blank_line ++ s;
        reported = ground (arith, append-nil s);
        grown = ground arith;
      }
      | inr joined ↦ record {
        added = s;
        reported = ground (arith, append-nil s);
        grown = ground arith;
      }
    ]

quiet-Reports :
    (o : Output) (c : Call) (r : Output × List Call)
    → texts (c ∷ []) ≡ ok []
    → ok (o, c ∷ []) ≡ ok r
    → Reports o r
quiet-Reports o c r h e =
    subst (Reports o) (ok-injective (o, c ∷ []) r e)
      (record { added = []; reported = h; grown = sym (append-nil o.out) })

act-Reports :
    (k : Sort) (content : Option Json) (u : Json) (o : Output) (r : Output × List Call)
    → act k content u o ≡ ok r
    → Reports o r
unfolding act texts
act-Reports a_tool content u o r e =
    let (id, _, e₁) = bind-eq-ok (prop (codes "toolCallId") u) _ e in
    let (title, _, e₂) = bind-eq-ok (prop (codes "title") u) _ e₁ in
    let (kind, _, e₃) = bind-eq-ok (prop (codes "kind") u) _ e₂ in
    let (status, _, e₄) = bind-eq-ok (prop (codes "status") u) _ e₃ in
    let (t, _, e₅) = bind-eq-ok (tool_text u) _ e₄ in
    quiet-Reports o (on_tool id title kind status t) r refl e₅
act-Reports a_thought content u o r e =
    let (found, _, e₁) = bind-eq-ok (prop_within (codes "text") content) _ e in
    quiet-Reports o (on_reasoning found) r refl e₁
act-Reports a_message content u o r e =
    let (found, _, e₁) = bind-eq-ok (prop_within (codes "text") content) _ e in
    let (message, _, e₂) = bind-eq-ok (prop (codes "messageId") u) _ e₁ in
    add_chunk-Reports found message o r e₂
act-Reports nothing content u o r e = subst (Reports o) (ok-injective (o, []) r e) (none-Reports o)

pub on_update-Reports :
    (u : Json) (o : Output) (r : Output × List Call) → on_update u o ≡ ok r → Reports o r
unfolding on_update
on_update-Reports u o r e =
    let (kind, _, e₁) = bind-eq-ok (prop (codes "sessionUpdate") u) _ e in
    let (content, _, e₂) = bind-eq-ok (prop (codes "content") u) _ e₁ in
    let (type, _, e₃) = bind-eq-ok (prop_within (codes "type") content) _ e₂ in
    act-Reports (sort_of kind type) content u o r e₃

run-Reports :
    (us : List Json) (o : Output) (r : Output × List Call) → run_updates us o ≡ ok r → Reports o r
unfolding run_updates
run-Reports [] o r e = subst (Reports o) (ok-injective (o, []) r e) (none-Reports o)
run-Reports (u ∷ us) o r e =
    let (first, is_first, e₁) = bind-eq-ok (on_update u o) _ e in
    let (rest, is_rest, e₂) = bind-eq-ok (run_updates us first.0) _ e₁ in
    let a = on_update-Reports u o first is_first in
    let b = run-Reports us first.0 rest is_rest in
    subst (Reports o) (ok-injective (rest.0, first.1 ++ rest.1) r e₂) (record {
      added = a.added ++ b.added;
      reported = texts-append first.1 rest.1 a.added b.added a.reported b.reported;
      grown = b.grown ∙ ap (λ x. x ++ b.added) a.grown ∙ append_assoc o.out a.added b.added;
    })

-- The final text of a turn is what its `onText` callbacks were given, in order, whatever updates
-- the agent sends between the prompt and its answer.
pub out-texts :
    (us : List Json) (r : Output × List Call) → run_updates us fresh ≡ ok r → texts r.1 ≡ ok r.0.out
out-texts us r e = let a = run-Reports us fresh r e in rw a.grown a.reported
