-- ===== src/Acp/Dispatch/Turns.antt =====
-- The turns under way on an agent: what their callbacks have heard, and which of them is asked.
use llm_stack.Base.{
  ◌∷◌, ◌++◌, text_beq, ◌≡◌, ◌∙◌, refl, sym, ap, subst, Bool, true, false, not, ◌&&◌, List, [],
  Option, none, some, Text, ℕ, codes, Map, get, put, delete, get-nil, get-put, get-delete, ◌==◌,
  text_eq, eq_of, if◌then◌else◌, arith, inl, inr, if_ind,
}
use llm_stack.Js.{str, prop_within, ◌>>=◌, Json, ok, prop, bind-eq-ok, ok-injective}
use llm_stack.Server.Turn.{Decision}
use llm_stack.Acp.Options.{Reply, reply_unasked, reply_decided}
use llm_stack.Acp.Updates.{fresh, on_update, texts, texts-append, on_update-Reports}
use llm_stack.Acp.Dispatch.{
  Listener, Ask, Acp, Step, Reachable, here, next, requests, reads, begins, decides, aborts,
  finishes, is_tool, answers, prop_of, array_of, asked_turn, called, shown_text, ask_user, approve,
  by_turn, by_method, on_permission_request, on_message, listen, decide, begin_prompt, end_prompt,
  abort, taken, answered, options_of,
}
use llm_stack.Acp.Dispatch.Laws.{
  addressed, addressed_of, Same, Quiet, ok-Quiet, Heard, on_message-Heard,
}

-- What a listener has put together is what it has told `onText`.
abbrev pub IsTold : Listener → Type 0
IsTold l = texts l.calls ≡ ok l.output.out

-- The turn that a listener would have asked.
abbrev pub asked_of : Option Listener → Option Text
asked_of none = none
asked_of (some l) = if l.interactive then some l.turn else none

record Kept (l m : Listener) : Type 0 where
  told : IsTold l → IsTold m
  asked : asked_of (some m) ≡ asked_of (some l)

listen-Kept : (u : Json) (l m : Listener) → listen u l ≡ ok m → Kept l m
unfolding listen
listen-Kept u l m e =
    let (kind, _, e₁) = bind-eq-ok (prop (codes "sessionUpdate") u) _ e in
    if_ind (λ r. r ≡ ok m → Kept l m) (is_tool kind && not l.interactive) (ok l) _
      (λ _ e. subst (Kept l) (ok-injective l m e) (record { told = λ h. h; asked = refl }))
      (λ _ e.
        let (r, heard, e₂) = bind-eq-ok (on_update u l.output) _ e in
        let a = on_update-Reports u l.output r heard in
        subst (Kept l) (ok-injective _ m e₂) (record {
          told =
              λ h. texts-append l.calls r.1 l.output.out a.added h a.reported ∙ ap ok (sym a.grown);
          asked = refl;
        }))
      e₁

record Inv (s : Acp) : Type 0 where
  told : (id : Text) (l : Listener) → get id s.updates ≡ some l → IsTold l
  routed : (id : Text) → get id s.permissions ≡ asked_of (get id s.updates)

Same-Inv : (s t : Acp) → Same s t → Inv s → Inv t
Same-Inv s t (u, p) v = record {
  told = λ id l e. v.told id l (ap (get id) (sym u) ∙ e);
  routed = λ id. ap (get id) p ∙ v.routed id ∙ ap (λ x. asked_of (get id x)) (sym u);
}

AllTold : Map Text Listener → Type 0
AllTold m = (id : Text) (l : Listener) → get id m ≡ some l → IsTold l

put-AllTold :
    (k : Text) (x : Listener) (m : Map Text Listener) → IsTold x → AllTold m → AllTold (put k x m)
unfolding AllTold
put-AllTold k x m h all id l e =
    if_ind (λ o. o ≡ some l → IsTold l) (k == id) (some x) (get id m)
      (λ _ same. let at : x ≡ l = ground arith in subst IsTold at h) (λ _. all id l)
      (sym (get-put k id x m) ∙ e)

delete-AllTold : (k : Text) (m : Map Text Listener) → AllTold m → AllTold (delete k m)
unfolding AllTold
delete-AllTold k m all id l e =
    if_ind (λ o. o ≡ some l → IsTold l) (k == id) none (get id m) (λ _ gone. absurd (ground arith))
      (λ _. all id l) (sym (get-delete k id m) ∙ e)

put_asked :
    (k id : Text) (x : Listener) (m : Map Text Listener)
    → asked_of (some x) ≡ asked_of (get k m)
    → asked_of (get id (put k x m)) ≡ asked_of (get id m)
put_asked k id x m h =
    ap asked_of (get-put k id x m)
    ∙ if_ind (λ o. asked_of o ≡ asked_of (get id m)) (k == id) (some x) (get id m)
        (λ same. h ∙ ap (λ j. asked_of (get j m)) (eq_of k id same)) (λ _. refl)

Heard-Inv : (m : Json) (s t : Acp) → Heard m s t → Inv s → Inv t
unfolding AllTold
Heard-Inv m s t h v =
    let kept = listen-Kept h.update h.before h.after h.hears in
    record {
      told =
          subst AllTold (sym h.updates)
            (put-AllTold h.id h.after s.updates (kept.told (v.told h.id h.before h.was)) v.told);
      routed = λ id.
          ap (get id) h.permissions
          ∙ (v.routed id
              ∙ (sym (put_asked h.id id h.after s.updates (kept.asked ∙ ap asked_of (sym h.was)))
                  ∙ ap (λ x. asked_of (get id x)) (sym h.updates)));
    }

begin_prompt-Inv :
    (id turn : Text) (interactive : Bool) (s : Acp)
    → get id s.updates ≡ none
    → Inv s
    → Inv (begin_prompt id turn interactive s)
unfolding begin_prompt AllTold texts
begin_prompt-Inv id turn true s idle v = record {
  told = put-AllTold id _ s.updates refl v.told;
  routed = λ j.
      rw (get-put id j turn s.permissions)
        (rw (get-put id j _ s.updates) (ground (arith, v.routed j, eq_of id j)));
}
begin_prompt-Inv id turn false s idle v = record {
  told = put-AllTold id _ s.updates refl v.told;
  routed = λ j.
      v.routed j
      ∙ sym (
          put_asked id j (record { turn = turn; interactive = false; output = fresh; calls = [] })
            s.updates (ap asked_of (sym idle)));
}

end_prompt-Inv : (id : Text) (s : Acp) → Inv s → Inv (end_prompt id s)
unfolding end_prompt AllTold
end_prompt-Inv id s v = record {
  told = delete-AllTold id s.updates v.told;
  routed = λ j.
      rw (get-delete id j s.permissions)
        (rw (get-delete id j s.updates) (ground (arith, v.routed j)));
}

pub decide-Quiet : (n : ℕ) (d : Decision) (s : Acp) → Quiet s (decide n d s)
unfolding decide
decide-Quiet n d s = by_ask (taken n s.asks)
  where
    by_ask : (o : Option (Ask × List Ask)) → Quiet s (answered d s o)
    by_ask none = ok-Quiet s s (refl, refl)
    by_ask (some (a, more)) = λ t e.
        let (list, _, e₁) = bind-eq-ok (options_of d a) _ e in
        let (reply, _, e₂) = bind-eq-ok (reply_decided d list) _ e₁ in
        ok-Quiet s _ (refl, refl) t e₂

Step-Inv :
    (name : Text) (stringify : Json → Text) (s t : Acp) → Step name stringify s t → Inv s → Inv t
unfolding abort
Step-Inv name stringify s t (requests method e) v = subst Inv (sym e) (Same-Inv s _ (refl, refl) v)
Step-Inv name stringify s t (reads m e) v = elim (on_message-Heard name stringify m s t e) [
  | inl same ↦ Same-Inv s t same v
  | inr h ↦ Heard-Inv m s t h v
]
Step-Inv name stringify s t (begins id turn interactive idle e) v =
    subst Inv (sym e) (begin_prompt-Inv id turn interactive s idle v)
Step-Inv name stringify s t (decides n d e) v = Same-Inv s t (decide-Quiet n d s t e) v
Step-Inv name stringify s t (aborts id e) v = subst Inv (sym e) (Same-Inv s _ (refl, refl) v)
Step-Inv name stringify s t (finishes id e) v = subst Inv (sym e) (end_prompt-Inv id s v)

Reachable-Inv :
    (name : Text) (stringify : Json → Text) (s : Acp) → Reachable name stringify s → Inv s
Reachable-Inv name stringify _ here = record {
  told = λ id l e. absurd (nothing (get-nil id) e);
  routed = λ id. get-nil id ∙ ap asked_of (sym (get-nil id));
}
  where
    nothing : {o : Option Listener} {l : Listener} → o ≡ none → o ≡ some l → ⊥
    nothing h e = ground arith
Reachable-Inv name stringify t (next {s = s} r st) =
    Step-Inv name stringify s t st (Reachable-Inv name stringify s r)

-- What a turn has told `onText` is its answer, where there is a turn.
abbrev pub IsToldBy : Option Listener → Type 0
IsToldBy none = Unit
IsToldBy (some l) = IsTold l

-- What a permission request comes to, by the turn that is to be asked: the user of that turn is
-- asked and the agent waits; or, without one, the agent is answered at once and no user is asked.
pub data Routed (s t : Acp) : Option Text → Type 0 where
  put_to :
      {turn : Text} (a : Ask)
      → a.turn ≡ turn
      → t.asks ≡ s.asks ++ a ∷ []
      → t.sent ≡ s.sent
      → Routed s t (some turn)
  approved :
      (id : Option Json) (reply : Reply)
      → t.asks ≡ s.asks
      → t.sent ≡ s.sent ++ answers id reply ∷ []
      → Routed s t none

by_turn-Routed :
    (stringify : Json → Text) (m : Json) (params : Option Json) (turn : Option Text) (s t : Acp)
    → by_turn stringify m params s turn ≡ ok t
    → Routed s t turn
unfolding ask_user approve
by_turn-Routed stringify m params none s t e =
    let (options, _, e₁) = bind-eq-ok (prop_of (codes "options") params) _ e in
    let (list, _, e₂) = bind-eq-ok (array_of options) _ e₁ in
    let (reply, _, e₃) = bind-eq-ok (reply_unasked list) _ e₂ in
    let (id, _, e₄) = bind-eq-ok (prop (codes "id") m) _ e₃ in
    let built : record s { sent = s.sent ++ answers id reply ∷ [] } ≡ t = ok-injective _ t e₄ in
    approved id reply (ap (λ (x : Acp). x.asks) (sym built)) (ap (λ (x : Acp). x.sent) (sym built))
by_turn-Routed stringify m params (some turn) s t e =
    let (own, _, e₁) = bind-eq-ok (prop_of (codes "toolCall") params) _ e in
    let (call_id, _, e₂) = bind-eq-ok (prop_within (codes "toolCallId") own) _ e₁ in
    let (shown, _, e₃) = bind-eq-ok (shown_text stringify (called call_id own s)) _ e₂ in
    let (id, _, e₄) = bind-eq-ok (prop (codes "id") m) _ e₃ in
    let (options, _, e₅) = bind-eq-ok (prop_of (codes "options") params) _ e₄ in
    let built = ok-injective _ t e₅ in
    put_to _ refl (ap (λ (x : Acp). x.asks) (sym built)) (ap (λ (x : Acp). x.sent) (sym built))

request-Routed :
    (stringify : Json → Text) (m : Json) (id : Text) (s t : Acp)
    → addressed m ≡ ok (some (str id))
    → on_permission_request stringify m s ≡ ok t
    → Routed s t (get id s.permissions)
unfolding on_permission_request addressed
request-Routed stringify m id s t named e =
    let (params, is_params, e₁) = bind-eq-ok (prop (codes "params") m) _ e in
    let (session, is_session, e₂) = bind-eq-ok (prop_of (codes "sessionId") params) _ e₁ in
    let same : session ≡ some (str id) =
      ok-injective session _ (sym (addressed_of m params session is_params is_session) ∙ named) in
    by_turn-Routed stringify m params (get id s.permissions) s t
      (subst (λ x. by_turn stringify m params s (asked_turn x s) ≡ ok t) same e₂)

-- On an agent with any number of turns under way, however its messages, the turns' beginnings and
-- ends, aborts and decisions interleave: what the turn of a session has put together as its answer is
-- what it has told `onText`; and a permission request that names the session asks the user of the
-- interactive turn that listens to this session, and nobody where there is none, in which case it is
-- answered at once.
pub turns_apart :
    (name : Text) (stringify : Json → Text) (s t : Acp) (m : Json) (id : Text)
    → Reachable name stringify s
    → prop (codes "method") m ≡ ok (some (str (codes "session/request_permission")))
    → addressed m ≡ ok (some (str id))
    → on_message name stringify m s ≡ ok t
    → IsToldBy (get id s.updates) × Routed s t (asked_of (get id s.updates))
unfolding on_message text_beq
turns_apart name stringify s t m id r method named e =
    let v = Reachable-Inv name stringify s r in
    (
      told_by (get id s.updates) (λ l at. v.told id l at),
      subst (Routed s t) (v.routed id) (
          request-Routed stringify m id s t named
            (subst (λ x. (x >>= by_method name stringify m s) ≡ ok t) method e)),
    )
  where
    told_by : (o : Option Listener) → ((l : Listener) → o ≡ some l → IsTold l) → IsToldBy o
    told_by none h = tt
    told_by (some l) h = h l refl
