-- ===== src/Opencode/Turns.antt =====
-- agent-adapter/opencode.mjs: `prompt`, which listens to its session until it is idle.
pub mod Answers
use mathlib.Core.List.{append-nil, append_assoc}
use llm_stack.Base.{
  ℕ, ◌≡◌, ◌∙◌, refl, sym, ap, subst, codes, List, [], ◌∷◌, ◌++◌, Option, none, some, Text, Map, get,
  put, delete, get-put, get-delete, ◌==◌, text_eq, arith, if_ind, not, true, inl, inr, ◌⊎◌,
  text_beq, take, drop, trim, get-nil,
}
use llm_stack.Js.{
  Json, null, bool, num, str, arr, obj, prop, truthy, Result, ok, throws, ◌>>=◌, template, is_str,
  bind-eq-ok, ok-injective,
}
use llm_stack.Opencode.{
  Call, on_text, on_reasoning, Listener, Stream, listener, answer_of, set_listener, on_chunk,
  on_event, add_delta, dispatch, dispatch_if, note_type, type_of, error_of, object_of, listening,
  with_id, properties_of, parsed, on_line, on_lines,
}
use llm_stack.Opencode.Lines.{cut_lines}

-- listeners.set(id, l)
unfoldable pub begin_prompt : Text → Stream → Stream
begin_prompt id s = set_listener id listener s

-- listeners.delete(id)
unfoldable pub end_prompt : Text → Stream → Stream
end_prompt id s = record s { listeners = delete id s.listeners }

abbrev pub empty : Text × Stream
empty = ([], record { listeners = []; part_types = [] })

module _ (decode : List ℕ → Text) (parse : Text → Option Json) where
  -- One step of the adapter on the buffer and the stream: a turn begins or ends, or a chunk is read.
  pub data Step : Text × Stream → Text × Stream → Type 0 where
    begins : {p q : Text × Stream} (id : Text) → q ≡ (p.0, begin_prompt id p.1) → Step p q
    ends : {p q : Text × Stream} (id : Text) → q ≡ (p.0, end_prompt id p.1) → Step p q
    reads :
        {p q : Text × Stream} (chunk : List ℕ)
        → on_chunk decode parse chunk p.0 p.1 ≡ ok q
        → Step p q

  pub data Reachable : Text × Stream → Type 0 where
    here : Reachable empty
    next : {p q : Text × Stream} → Reachable p → Step p q → Reachable q

-- The texts that `onText` was called with, one after the other.
abbrev said : Call → Result Text
said (on_text d) = template d
said (on_reasoning _) = ok []

abbrev pub told : List Call → Result Text
told [] = ok []
told (c ∷ cs) = do t ← said c; ts ← told cs; ok (t ++ ts)

told-snoc :
    (cs : List Call) (c : Call) (a b : Text)
    → told cs ≡ ok a
    → said c ≡ ok b
    → told (cs ++ c ∷ []) ≡ ok (a ++ b)
told-snoc [] c a b h k =
    let none_yet : [] ≡ a = ok-injective [] a h in
    rw k (subst (λ x. ok (b ++ []) ≡ ok (x ++ b)) none_yet (ap ok (append-nil b)))
told-snoc (d ∷ cs) c a b h k =
    let (t, first, h₁) = bind-eq-ok (said d) _ h in
    let (ts, more, h₂) = bind-eq-ok (told cs) _ h₁ in
    rw (first, told-snoc cs c ts b more k)
      (ap ok (sym (append_assoc t ts b)) ∙ ap (λ x. ok (x ++ b)) (ok-injective _ a h₂))

abbrev pub IsTold : Listener → Type 0
IsTold l = told l.calls ≡ ok l.text

add_delta-IsTold :
    (type delta : Option Json) (l m : Listener)
    → add_delta type delta l ≡ ok m
    → IsTold l
    → IsTold m
unfolding add_delta
add_delta-IsTold type delta l m e h =
    if_ind (λ r. r ≡ ok m → IsTold m) (is_str (codes "text") type) _ _
      (λ _ e.
        let (t, shown, e₁) = bind-eq-ok (template delta) _ e in
        subst IsTold (ok-injective _ m e₁) (told-snoc l.calls (on_text delta) l.text t h shown))
      (λ _ e.
        if_ind (λ r. r ≡ ok m → IsTold m) (is_str (codes "reasoning") type) _ _
          (λ _ e.
            subst IsTold (ok-injective _ m e)
              (told-snoc l.calls (on_reasoning delta) l.text [] h refl ∙ ap ok (append-nil l.text)))
          (λ _ e. subst IsTold (ok-injective l m e) h) e)
      e

-- What becomes of the listeners where one session's event is dispatched.
pub data Heard (l : Listener) (id : Text) (s t : Stream) : Type 0 where
  same : t.listeners ≡ s.listeners → Heard l id s t
  heard :
      (m : Listener) → t.listeners ≡ put id m s.listeners → (IsTold l → IsTold m) → Heard l id s t

note_type-listeners :
    (id type : Option Json) (s : Stream) → (note_type id type s).listeners ≡ s.listeners
note_type-listeners none type s = refl
note_type-listeners (some null) type s = refl
note_type-listeners (some (bool _)) type s = refl
note_type-listeners (some (num _)) type s = refl
note_type-listeners (some (str id)) type s = refl
note_type-listeners (some (arr _)) type s = refl
note_type-listeners (some (obj _)) type s = refl

ok-same :
    (l : Listener) (id : Text) (s r t : Stream)
    → r.listeners ≡ s.listeners
    → ok r ≡ ok t
    → Heard l id s t
ok-same l id s r t h e = same (ap (λ (x : Stream). x.listeners) (sym (ok-injective r t e)) ∙ h)

ok-heard :
    (l m : Listener) (id : Text) (s t : Stream)
    → (IsTold l → IsTold m)
    → ok (set_listener id m s) ≡ ok t
    → Heard l id s t
ok-heard l m id s t h e =
    heard m (ap (λ (x : Stream). x.listeners) (sym (ok-injective (set_listener id m s) t e))) h

pub dispatch-Heard :
    (type : Option Json) (p : Json) (id : Text) (l : Listener) (s t : Stream)
    → dispatch type p id l s ≡ ok t
    → Heard l id s t
unfolding dispatch
dispatch-Heard type p id l s t =
    if_ind Hears (is_str (codes "message.part.updated") type) _ _
      (λ _ e.
        let (found, _, e₁) = bind-eq-ok (prop (codes "part") p) _ e in
        let (part, _, e₂) = bind-eq-ok (object_of found) _ e₁ in
        let (part_id, _, e₃) = bind-eq-ok (prop (codes "id") part) _ e₂ in
        let (part_type, _, e₄) = bind-eq-ok (prop (codes "type") part) _ e₃ in
        ok-same l id s _ t (note_type-listeners part_id part_type s) e₄)
      (λ _.
        if_ind Hears (is_str (codes "message.part.delta") type) _ _
          (λ _ e.
            let (part_id, _, e₁) = bind-eq-ok (prop (codes "partID") p) _ e in
            let (field_name, _, e₂) = bind-eq-ok (prop (codes "field") p) _ e₁ in
            let (delta, _, e₃) = bind-eq-ok (prop (codes "delta") p) _ e₂ in
            if_ind Hears (not (is_str (codes "text") field_name)) _ _
              (λ _ e. ok-same l id s s t refl e)
              (λ _ e.
                let (m, added, e₄) = bind-eq-ok (add_delta (type_of part_id s) delta l) _ e in
                ok-heard l m id s t (add_delta-IsTold (type_of part_id s) delta l m added) e₄)
              e₃)
          (λ _.
            if_ind Hears (is_str (codes "session.error") type) _ _
              (λ _ e.
                let (found, _, e₁) = bind-eq-ok (prop (codes "error") p) _ e in
                let (error, _, e₂) = bind-eq-ok (error_of found) _ e₁ in
                ok-heard l (record l { error = error }) id s t (λ h. h) e₂)
              (λ _.
                if_ind Hears (is_str (codes "session.idle") type) _ _
                  (λ _ e. ok-heard l (record l { idle = true }) id s t (λ h. h) e)
                  (λ _ e. ok-same l id s s t refl e))))
  where
    Hears : Result Stream → Type 0
    Hears r = r ≡ ok t → Heard l id s t
