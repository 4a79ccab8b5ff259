-- ===== src/Server/Turn/Events.antt =====
-- The events that a turn writes: one stream per turn, ended once.
use llm_stack.Base.{
  ℕ, suc, ◌+◌, ◌≡◌, ◌≢◌, ◌∙◌, refl, sym, subst, inl, inr, Bool, true, false, List, [], ◌∷◌, ◌++◌,
  Option, none, some, Text, Map, get, ◌==◌, text_eq, eq_refl, eq_of, if◌then◌else◌, arith,
  Bool-cases, Option-cases, init, init-append, if_ind,
}
use llm_stack.Server.Keys.{Node}
use llm_stack.Server.History.{continues}
use llm_stack.Server.Turn.{
  Decision, cancel, Event, turn_begins, text, reasoning, tool, done, error, Turn, Server, unopened,
  queued, prompting, over, blank, emit, end_turn, set_turn, settle_if, cancel_all, open_turn,
  run_turn, noticed, on_callback, on_permission, ask_user, close, prompt_resolves, prompt_rejects,
  Step, opens, runs, calls_back, asks_permission, settles, closes, resolves, rejects, Reachable,
  here, next, report, received, submit, Callback, on_text, on_reasoning, on_tool, on_stop,
  stop_reason, refused_message,
}

abbrev ends : Event → Bool
ends (done _) = true
ends (error _) = true
ends _ = false

abbrev pub count_ends : List Event → ℕ
count_ends [] = 0
count_ends (e ∷ es) = if ends e then suc (count_ends es) else count_ends es

abbrev pub begins : Text → List Event → Bool
begins id (turn_begins j ∷ _) = id == j
begins id _ = false

-- The shape of a turn's events. The stream begins with the turn's id; nothing stands behind a
-- `done` or `error`; a turn that is not over has written neither; and one that is over has written
-- one of them, unless its client went away.
pub record Shape (id : Text) (t : Turn) : Type 0 where
  pub start : t.phase ≢ unopened → begins id t.events ≡ true
  pub final : count_ends (init t.events) ≡ 0
  pub running : t.phase ≢ over → count_ends t.events ≡ 0
  pub shut : t.phase ≡ over → t.closed ≡ true
  pub ended : t.phase ≡ over → t.aborted ≡ false → count_ends t.events ≡ 1
  pub writable : t.phase ≢ over → t.aborted ≡ false → t.closed ≡ false

count_ends-snoc :
    (es : List Event) (e : Event)
    → count_ends (es ++ e ∷ []) ≡ count_ends es + (if ends e then 1 else 0)
count_ends-snoc [] e = ground arith
count_ends-snoc (x ∷ es) e = ground (arith, count_ends-snoc es e)

begins-snoc :
    (id : Text) (es : List Event) (e : Event)
    → begins id es ≡ true
    → begins id (es ++ e ∷ []) ≡ true
begins-snoc id [] e h = absurd (ground arith)
begins-snoc id (turn_begins j ∷ es) e h = h
begins-snoc id (x ∷ es) e h = absurd (ground arith)

-- An event that ends nothing.
emit-Shape :
    (id : Text) (e : Event) (t : Turn)
    → ends e ≡ false
    → t.phase ≢ unopened
    → Shape id t
    → Shape id (emit e t)
emit-Shape id e t quiet opened h =
    if_ind (Shape id) t.closed t (record t { events = t.events ++ e ∷ [] }) (λ _. h)
      λ live.
        ground
          (arith, count_ends-snoc t.events e, begins-snoc id t.events e, init-append t.events e)

-- The event that ends the turn.
end-Shape :
    (id : Text) (e : Event) (t : Turn)
    → ends e ≡ true
    → t.phase ≢ unopened
    → t.phase ≢ over
    → Shape id t
    → Shape id (end_turn (emit e t))
end-Shape id e t final opened going h = elim (Bool-cases t.closed) [
  | inl shut ↦ ground (arith, shut)
  | inr live ↦
      ground
        (arith, live, count_ends-snoc t.events e, begins-snoc id t.events e, init-append t.events e)
]

aborted-Shape :
    (id : Text) (t : Turn)
    → t.aborted ≡ true
    → t.phase ≢ unopened
    → Shape id t
    → Shape id (end_turn t)
aborted-Shape id t a opened h = ground arith

set-Shape :
    (id : Text) (u : Turn) (s : Server)
    → Shape id u
    → ((j : Text) → Shape j (s.turns j))
    → (j : Text) → Shape j ((set_turn id u s).turns j)
set-Shape id u s h all j = elim (Bool-cases (id == j)) [
  | inl same ↦ rw same (subst (λ x. Shape x u) (eq_of id j same) h)
  | inr other ↦ rw other (all j)
]

open-Shape :
    (id key : Text) (users : List Text)
    → Shape id (emit (turn_begins id) (record blank { key = key; users = users; phase = queued }))
open-Shape id key users = ground (arith, eq_refl id)

prompting-Shape :
    (id : Text) (t : Turn)
    → t.phase ≡ queued
    → Shape id t
    → Shape id (record t { phase = prompting })
prompting-Shape id t p h = ground arith

noticed-phase :
    (b : Bool) (got earlier : List Text) (t : Turn) → (noticed b got earlier t).phase ≡ t.phase
noticed-phase b got earlier t = ground arith

noticed-aborted :
    (b : Bool) (got earlier : List Text) (t : Turn) → (noticed b got earlier t).aborted ≡ t.aborted
noticed-aborted b got earlier t = ground arith

noticed-Shape :
    (b : Bool) (got earlier : List Text) (id : Text) (t : Turn)
    → t.phase ≢ unopened
    → Shape id t
    → Shape id (noticed b got earlier t)
noticed-Shape true [] [] id t ne h = h
noticed-Shape true [] (x ∷ xs) id t ne h = h
noticed-Shape true (x ∷ xs) earlier id t ne h = h
noticed-Shape false [] [] id t ne h = h
noticed-Shape false [] (x ∷ xs) id t ne h = emit-Shape id _ t refl ne h
noticed-Shape false (x ∷ xs) earlier id t ne h = h

abbrev AllShape : Server → Type 0
AllShape s = (j : Text) → Shape j (s.turns j)

run-Shape :
    (node : Node) (has_session : Bool) (save_error : Option Text) (id : Text) (s : Server)
    → (s.turns id).phase ≡ queued
    → AllShape s
    → AllShape (run_turn node has_session save_error id s)
unfolding run_turn
run-Shape node has_session save_error id s p all =
    if_ind AllShape t.aborted (set_turn id (end_turn t) s) _
      (λ a. set-Shape id (end_turn t) s (aborted-Shape id t a opened (all id)) all)
      λ live.
        if_ind AllShape (continues node (received t.key s) (init t.users))
          (submit node has_session save_error id s)
          (set_turn id (end_turn (emit (error refused_message) t)) s) (λ _. by_saving save_error)
          λ _.
            set-Shape id (end_turn (emit (error refused_message) t)) s
              (end-Shape id (error refused_message) t refl opened (ground arith) (all id)) all
  where
    t : Turn
    t = s.turns id

    opened : t.phase ≢ unopened
    opened = ground arith

    told : Turn
    told = noticed has_session (received t.key s) (init t.users) t

    told_phase : told.phase ≡ queued
    told_phase = noticed-phase has_session (received t.key s) (init t.users) t ∙ p

    told-Shape : Shape id told
    told-Shape = noticed-Shape has_session (received t.key s) (init t.users) id t opened (all id)

    by_saving : (e : Option Text) → AllShape (submit node has_session e id s)
    by_saving none =
        set-Shape id (record told { phase = prompting }) s
          (prompting-Shape id told told_phase told-Shape) all
    by_saving (some message) =
        set-Shape id _ s
          (if_ind (λ u. Shape id (end_turn u)) t.aborted told (emit (error message) told)
            (λ a.
              aborted-Shape id told
                (noticed-aborted has_session (received t.key s) (init t.users) t ∙ a)
                (ground (arith, told_phase)) told-Shape)
            (λ _.
              end-Shape id (error message) told refl (ground (arith, told_phase))
                (ground (arith, told_phase)) told-Shape))
          all

callback-Shape :
    (id : Text) (c : Callback) (t : Turn) → t.phase ≢ unopened → Shape id t → Shape id (report c t)
unfolding report
callback-Shape id (on_text x) t ne h = emit-Shape id (text x) t refl ne h
callback-Shape id (on_reasoning x) t ne h = emit-Shape id (reasoning x) t refl ne h
callback-Shape id (on_tool v) t ne h = emit-Shape id (tool v) t refl ne h
callback-Shape id (on_stop v) t ne h = ground arith

-- What the permissions do to a turn's variables leaves its events alone.
settled-Shape :
    (id : Text) (t : Turn) (ks : List Text) (ds : List (ℕ × Decision))
    → Shape id t
    → Shape id (record t { mine = ks; decided = ds })
settled-Shape id t ks ds h = ground arith

asking-Shape :
    (id : Text) (t : Turn) (n : ℕ) (ks : List Text)
    → Shape id t
    → Shape id (record t { asked = n; mine = ks })
asking-Shape id t n ks h = ground arith

gone-Shape :
    (id : Text) (t : Turn) → Shape id t → Shape id (record t { aborted = true; closed = true })
gone-Shape id t h = ground arith

rejected-Shape :
    (id message : Text) (t : Turn)
    → t.phase ≡ prompting
    → Shape id t
    → Shape id (end_turn (if t.aborted then t else emit (error message) t))
rejected-Shape id message t p h =
    if_ind (λ u. Shape id (end_turn u)) t.aborted t (emit (error message) t)
      (λ a. aborted-Shape id t a (ground arith) h)
      (λ _. end-Shape id (error message) t refl (ground arith) (ground arith) h)

settle_if-AllShape :
    (k : Text) (d : Decision) (s : Server) → AllShape s → AllShape (settle_if k d s)
unfolding settle_if
settle_if-AllShape k d s all = elim (Option-cases (get k s.asks)) [
  | inl e ↦ rw (e, settle_if) all
  | inr (a, e) ↦
      rw (e, settle_if)
        (set-Shape a.turn _ s (settled-Shape a.turn (s.turns a.turn) _ _ (all a.turn)) all)
]

cancel_all-AllShape : (ks : List Text) (s : Server) → AllShape s → AllShape (cancel_all ks s)
unfolding cancel_all
cancel_all-AllShape [] s all = all
cancel_all-AllShape (k ∷ ks) s all =
    cancel_all-AllShape ks (settle_if k cancel s) (settle_if-AllShape k cancel s all)

close-AllShape :
    (finished : Bool) (id : Text) (s : Server) → AllShape s → AllShape (close finished id s)
unfolding close
close-AllShape true id s all = all
close-AllShape false id s all = cancel_all-AllShape (s.turns id).mine _ (
    set-Shape id (record (s.turns id) { aborted = true; closed = true }) s
      (gone-Shape id (s.turns id) (all id)) all)

asked-AllShape :
    (id title detail : Text) (s : Server)
    → (s.turns id).phase ≢ unopened
    → AllShape s
    → AllShape (on_permission id title detail s).0
unfolding on_permission
asked-AllShape id title detail s ne all =
    if_ind (λ (r : Server × Option Decision). AllShape r.0) (s.turns id).aborted (s, some cancel)
      (ask_user id title detail s, none) (λ _. all)
      λ _.
        set-Shape id _ s (emit-Shape id _ _ refl ne (asking-Shape id (s.turns id) _ _ (all id))) all

Step-AllShape : {node : Node} {s t : Server} → Step node s t → AllShape s → AllShape t
Step-AllShape {s = s} (opens id key users p h e) all =
    subst AllShape (sym e) (unfold open_turn in set-Shape id _ s (open-Shape id key users) all)
Step-AllShape {node} {s = s} (runs has_session save_error id p e) all =
    subst AllShape (sym e) (run-Shape node has_session save_error id s p all)
Step-AllShape {s = s} (calls_back id c u e) all = subst AllShape (sym e) (
    unfold on_callback in
    set-Shape id _ s (callback-Shape id c (s.turns id) (ground arith) (all id)) all)
Step-AllShape {s = s} (asks_permission id title detail u e) all =
    subst AllShape (sym e) (asked-AllShape id title detail s (ground arith) all)
Step-AllShape {s = s} (settles k d e) all = subst AllShape (sym e) (settle_if-AllShape k d s all)
Step-AllShape {s = s} (closes finished id ne e) all =
    subst AllShape (sym e) (close-AllShape finished id s all)
Step-AllShape {s = s} (resolves id p e) all = subst AllShape (sym e) (
    unfold prompt_resolves in
    set-Shape id _ s
      (end-Shape id (done (stop_reason (s.turns id))) (s.turns id) refl (ground arith)
        (ground arith) (all id))
      all)
Step-AllShape {s = s} (rejects id message p e) all = subst AllShape (sym e) (
    unfold prompt_rejects in
    set-Shape id _ s (rejected-Shape id message (s.turns id) p (all id)) all)

-- In every reachable state the events of every turn have the shape of one stream that is ended once.
pub events-Shape :
    {node : Node} {history : Map Text (List Text)} (s : Server) (id : Text)
    → Reachable node history s
    → Shape id (s.turns id)
events-Shape s id here = ground arith
events-Shape {node} {history} s id (next {s = before} r st) =
    Step-AllShape st (λ j. events-Shape before j r) id
