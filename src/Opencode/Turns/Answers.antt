-- ===== src/Opencode/Turns/Answers.antt =====
-- What the turns of opencode answer.
use llm_stack.Base.{
  ℕ, ◌≡◌, ◌∙◌, refl, sym, ap, subst, codes, List, [], ◌∷◌, ◌++◌, Option, none, some, Text, Map, get,
  put, delete, get-put, get-delete, ◌==◌, text_eq, arith, if_ind, true, inl, inr, ◌⊎◌, text_beq,
  take, drop, trim, get-nil,
}
use llm_stack.Js.{
  Json, null, bool, num, str, arr, obj, prop, truthy, Result, ok, throws, bind-eq-ok, ok-injective,
}
use llm_stack.Opencode.{
  Listener, Stream, listener, answer_of, on_chunk, on_event, dispatch_if, listening, with_id,
  properties_of, parsed, on_line, on_lines,
}
use llm_stack.Opencode.Lines.{cut_lines}
use llm_stack.Opencode.Turns.{
  begin_prompt, end_prompt, Step, begins, ends, reads, Reachable, here, next, told, IsTold, Heard,
  same, heard, dispatch-Heard,
}

AllTold : Map Text Listener → Type 0
AllTold m = (id : Text) (l : Listener) → get id m ≡ some l → IsTold l

put-AllTold :
    (k : Text) (x : Listener) (m : Map Text Listener) → IsTold x → AllTold m → AllTold (put k x m)
unfolding AllTold
put-AllTold k x m h all id l e =
    if_ind (λ o. o ≡ some l → IsTold l) (k == id) (some x) (get id m)
      (λ _ same. let at : x ≡ l = ground arith in subst IsTold at h) (λ _. all id l)
      (sym (get-put k id x m) ∙ e)

delete-AllTold : (k : Text) (m : Map Text Listener) → AllTold m → AllTold (delete k m)
unfolding AllTold
delete-AllTold k m all id l e =
    if_ind (λ o. o ≡ some l → IsTold l) (k == id) none (get id m) (λ _ gone. absurd (ground arith))
      (λ _. all id l) (sym (get-delete k id m) ∙ e)

-- Events keep what every listener has told.
Keeps : Stream → Result Stream → Type 0
Keeps s r = (t : Stream) → r ≡ ok t → AllTold s.listeners → AllTold t.listeners

Heard-AllTold :
    (l : Listener) (id : Text) (s t : Stream)
    → get id s.listeners ≡ some l
    → Heard l id s t
    → AllTold s.listeners
    → AllTold t.listeners
unfolding AllTold
Heard-AllTold l id s t was (same e) all = subst AllTold (sym e) all
Heard-AllTold l id s t was (heard m e h) all =
    subst AllTold (sym e) (put-AllTold id m s.listeners (h (all id l was)) all)

listening-get :
    (session : Option Json) (s : Stream) (id : Text) (l : Listener)
    → listening session s ≡ some (id, l)
    → get id s.listeners ≡ some l
listening-get none s id l e = absurd (ground arith)
listening-get (some null) s id l e = absurd (ground arith)
listening-get (some (bool _)) s id l e = absurd (ground arith)
listening-get (some (num _)) s id l e = absurd (ground arith)
listening-get (some (arr _)) s id l e = absurd (ground arith)
listening-get (some (obj _)) s id l e = absurd (ground arith)
listening-get (some (str j)) s id l e = by_entry (get j s.listeners) refl e
  where
    by_entry :
        (o : Option Listener)
        → get j s.listeners ≡ o
        → with_id j o ≡ some (id, l)
        → get id s.listeners ≡ some l
    by_entry none at h = absurd (ground arith)
    by_entry (some m) at h =
        let here_too : j ≡ id = ground arith in
        let it : m ≡ l = ground arith in
        subst (λ x. get x s.listeners ≡ some l) here_too (at ∙ ap some it)

on_event-Keeps : (e : Json) (s : Stream) → Keeps s (on_event e s)
unfolding on_event Keeps
on_event-Keeps e s t h =
    let (found, _, h₁) = bind-eq-ok (prop (codes "properties") e) _ h in
    let (session, _, h₂) = bind-eq-ok (prop (codes "sessionID") (properties_of found)) _ h₁ in
    let (type, _, h₃) = bind-eq-ok (prop (codes "type") e) _ h₂ in
    by_listener type (properties_of found) (listening session s) (listening-get session s) h₃
  where
    by_listener :
        (type : Option Json) (p : Json) (o : Option (Text × Listener))
        → ((id : Text) (l : Listener) → o ≡ some (id, l) → get id s.listeners ≡ some l)
        → dispatch_if type p s o ≡ ok t
        → AllTold s.listeners
        → AllTold t.listeners
    by_listener type p none at h =
        subst (λ (x : Stream). AllTold s.listeners → AllTold x.listeners) (ok-injective s t h)
          (λ all. all)
    by_listener type p (some (id, l)) at h =
        Heard-AllTold l id s t (at id l refl) (dispatch-Heard type p id l s t h)

on_line-Keeps :
    (parse : Text → Option Json) (line : Text) (s : Stream) → Keeps s (on_line parse line s)
unfolding on_line Keeps
on_line-Keeps parse line s =
    if_ind (Keeps s) (text_beq (take 5 (trim line)) (codes "data:")) _ (ok s)
      (λ _. by_event (parse (drop 5 (trim line)))) (λ _. unchanged)
  where
    unchanged : Keeps s (ok s)
    unchanged t h =
        subst (λ (x : Stream). AllTold s.listeners → AllTold x.listeners) (ok-injective s t h)
          (λ all. all)

    by_event : (o : Option Json) → Keeps s (parsed o s)
    by_event none = unchanged
    by_event (some e) = on_event-Keeps e s

on_lines-Keeps :
    (parse : Text → Option Json) (ls : List Text) (s : Stream) → Keeps s (on_lines parse ls s)
unfolding on_lines Keeps
on_lines-Keeps parse [] s t h all =
    subst (λ (x : Stream). AllTold x.listeners) (ok-injective s t h) all
on_lines-Keeps parse (l ∷ ls) s t h all =
    let (u, first, more) = bind-eq-ok (on_line parse l s) _ h in
    on_lines-Keeps parse ls u t more (on_line-Keeps parse l s u first all)

Told : Text × Stream → Type 0
Told p = AllTold p.1.listeners

on_chunk-Told :
    (decode : List ℕ → Text) (parse : Text → Option Json) (chunk : List ℕ) (p q : Text × Stream)
    → on_chunk decode parse chunk p.0 p.1 ≡ ok q
    → Told p
    → Told q
unfolding on_chunk Told Keeps
on_chunk-Told decode parse chunk p q e all =
    let (t, handled, e₁) =
      bind-eq-ok (on_lines parse (cut_lines (p.0 ++ decode chunk)).0 p.1) _ e in
    subst (λ (x : Text × Stream). AllTold x.1.listeners) (ok-injective _ q e₁)
      (on_lines-Keeps parse (cut_lines (p.0 ++ decode chunk)).0 p.1 t handled all)

Step-Told :
    (decode : List ℕ → Text) (parse : Text → Option Json) (p q : Text × Stream)
    → Step decode parse p q
    → Told p
    → Told q
unfolding begin_prompt end_prompt Told
Step-Told decode parse p q (begins id e) all =
    subst Told (sym e) (put-AllTold id listener p.1.listeners refl all)
Step-Told decode parse p q (ends id e) all =
    subst Told (sym e) (delete-AllTold id p.1.listeners all)
Step-Told decode parse p q (reads chunk e) all = on_chunk-Told decode parse chunk p q e all

Reachable-Told :
    (decode : List ℕ → Text) (parse : Text → Option Json) (p : Text × Stream)
    → Reachable decode parse p
    → Told p
unfolding Told AllTold
Reachable-Told decode parse _ here id l e = absurd (nothing (get-nil id) e)
  where
    nothing : {o : Option Listener} → o ≡ none → o ≡ some l → ⊥
    nothing h e = ground arith
Reachable-Told decode parse q (next {p = p} r st) id l e =
    Step-Told decode parse p q st (Reachable-Told decode parse p r) id l e

-- However turns begin and end, and however the stream is cut into chunks and decoded: what the turn
-- of a session would answer is what it has told `onText`, or it has been given an error.
pub answer_told :
    (decode : List ℕ → Text) (parse : Text → Option Json) (p : Text × Stream) (id : Text)
    (l : Listener)
    → Reachable decode parse p
    → get id p.1.listeners ≡ some l
    → (answer_of l ≡ told l.calls) ⊎ ((answer_of l ≡ throws) × (truthy l.error ≡ true))
unfolding Told AllTold
answer_told decode parse p id l r at =
    if_ind (λ a. (a ≡ told l.calls) ⊎ ((a ≡ throws) × (truthy l.error ≡ true))) (truthy l.error)
      throws (ok l.text) (λ is. inr (refl, is))
      (λ _. inl (sym (Reachable-Told decode parse p r id l at)))
