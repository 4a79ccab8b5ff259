-- ===== src/Acp/Dispatch/Laws.antt =====
-- What a message of the agent reaches: the turn of its session, and no other.
use llm_stack.Base.{
  ◌≡◌, ◌≢◌, ◌∙◌, refl, sym, ap, subst, not, Option, none, some, Text, codes, get, put, get-put,
  ◌==◌, text_eq, eq_of, Option-cases, inl, inr, if_ind, ◌⊎◌,
}
use llm_stack.Js.{
  Json, null, bool, num, str, arr, obj, Result, ok, ◌>>=◌, prop, prop_within, is_str, truthy,
  bind-eq-ok, ok-injective,
}
use llm_stack.Acp.Rpc.{on_response}
use llm_stack.Acp.Options.{reply_unasked}
use llm_stack.Acp.Dispatch.{
  Listener, Acp, prop_of, is_tool, note_call, listen, listening, notify, on_session_update,
  asked_turn, ask_user, approve, note_fields, array_of, object_of, with_id, refuse, called,
  shown_text, by_method, on_permission_request, on_message, by_turn,
}

-- A message that is handled leaves what is registered alone, or is an update that one listener hears:
-- that of the session which the message names.
abbrev pub Same : Acp → Acp → Type 0
Same s t = (t.updates ≡ s.updates) × (t.permissions ≡ s.permissions)

unfoldable pub addressed : Json → Result (Option Json)
addressed m = do params ← prop (codes "params") m; prop_of (codes "sessionId") params

pub record Heard (m : Json) (s t : Acp) : Type 0 where
  pub id : Text
  pub before : Listener
  pub after : Listener
  pub update : Json
  pub names : addressed m ≡ ok (some (str id))
  pub was : get id s.updates ≡ some before
  pub hears : listen update before ≡ ok after
  pub updates : t.updates ≡ put id after s.updates
  pub permissions : t.permissions ≡ s.permissions

note_fields-Same : (id u : Option Json) (s : Acp) → Same s (note_fields id u s)
note_fields-Same (some (str id)) u s = (refl, refl)
note_fields-Same none u s = (refl, refl)
note_fields-Same (some null) u s = (refl, refl)
note_fields-Same (some (bool b)) u s = (refl, refl)
note_fields-Same (some (num t)) u s = (refl, refl)
note_fields-Same (some (arr xs)) u s = (refl, refl)
note_fields-Same (some (obj fs)) u s = (refl, refl)

-- What is returned leaves the registers alone.
abbrev pub Quiet : Acp → Result Acp → Type 0
Quiet s r = (t : Acp) → r ≡ ok t → Same s t

pub ok-Quiet : (s u : Acp) → Same s u → Quiet s (ok u)
ok-Quiet s u same t e = subst (Same s) (ok-injective u t e) same

note_call-Quiet : (u : Option Json) (s : Acp) → Quiet s (note_call u s)
unfolding note_call
note_call-Quiet u s t e =
    let (id, _, e₁) = bind-eq-ok (prop_within (codes "toolCallId") u) _ e in
    if_ind (Quiet s) (not (truthy id)) (ok s) _ (λ _. ok-Quiet s s (refl, refl))
      (λ _ t e.
        let (kind, _, e₂) = bind-eq-ok (prop_of (codes "sessionUpdate") u) _ e in
        ok-Quiet s _
          (if_ind (Same s) (is_tool kind) (note_fields id u s) s (λ _. note_fields-Same id u s)
            (λ _. (refl, refl)))
          t e₂)
      t e₁

approve-Quiet : (m : Json) (params : Option Json) (s : Acp) → Quiet s (approve m params s)
unfolding approve
approve-Quiet m params s t e =
    let (options, _, e₁) = bind-eq-ok (prop_of (codes "options") params) _ e in
    let (list, _, e₂) = bind-eq-ok (array_of options) _ e₁ in
    let (reply, _, e₃) = bind-eq-ok (reply_unasked list) _ e₂ in
    let (id, _, e₄) = bind-eq-ok (prop (codes "id") m) _ e₃ in ok-Quiet s _ (refl, refl) t e₄

ask_user-Quiet :
    (stringify : Json → Text) (m : Json) (params : Option Json) (turn : Text) (s : Acp)
    → Quiet s (ask_user stringify m params turn s)
unfolding ask_user
ask_user-Quiet stringify m params turn s t e =
    let (own, _, e₁) = bind-eq-ok (prop_of (codes "toolCall") params) _ e in
    let (call_id, _, e₂) = bind-eq-ok (prop_within (codes "toolCallId") own) _ e₁ in
    let (shown, _, e₃) = bind-eq-ok (shown_text stringify (called call_id own s)) _ e₂ in
    let (id, _, e₄) = bind-eq-ok (prop (codes "id") m) _ e₃ in
    let (options, _, e₅) = bind-eq-ok (prop_of (codes "options") params) _ e₄ in
    subst (Same s) (ok-injective _ t e₅) (refl, refl)

by_turn-Quiet :
    (stringify : Json → Text) (m : Json) (params : Option Json) (s : Acp) (turn : Option Text)
    → Quiet s (by_turn stringify m params s turn)
by_turn-Quiet stringify m params s none = approve-Quiet m params s
by_turn-Quiet stringify m params s (some turn) = ask_user-Quiet stringify m params turn s

hearing :
    (m : Json) (u : Option Json) (id : Text) (s s' t : Acp) (l : Listener)
    → Same s s'
    → addressed m ≡ ok (some (str id))
    → get id s'.updates ≡ some l
    → notify u s' (some (id, l)) ≡ ok t
    → Heard m s t
hearing m u id s s' t l same named is e =
    let (v, _, e₁) = bind-eq-ok (object_of u) _ e in
    let (after, hears, e₂) = bind-eq-ok (listen v l) _ e₁ in
    let built : record s' { updates = put id after s'.updates } ≡ t = ok-injective _ t e₂ in
    record {
      id = id;
      before = l;
      after = after;
      update = v;
      names = named;
      was = subst (λ x. get id x ≡ some l) same.0 is;
      hears = hears;
      updates = ap (λ (x : Acp). x.updates) (sym built) ∙ ap (λ x. put id after x) same.0;
      permissions = ap (λ (x : Acp). x.permissions) (sym built) ∙ same.1;
    }

pub addressed_of :
    (m : Json) (params session : Option Json)
    → prop (codes "params") m ≡ ok params
    → prop_of (codes "sessionId") params ≡ ok session
    → addressed m ≡ ok session
unfolding addressed
addressed_of m params session h k = rw h k

notify-Heard :
    (m : Json) (u session : Option Json) (s s' t : Acp)
    → Same s s'
    → addressed m ≡ ok session
    → notify u s' (listening session s') ≡ ok t
    → Same s t ⊎ Heard m s t
notify-Heard m u (some (str id)) s s' t same named e = elim (Option-cases (get id s'.updates)) [
  | inl gone ↦
      let still : ok s' ≡ ok t = subst (λ o. notify u s' (with_id id o) ≡ ok t) gone e in
      inl (subst (Same s) (ok-injective s' t still) same)
  | inr (l, is) ↦
      let heard : notify u s' (some (id, l)) ≡ ok t =
        subst (λ o. notify u s' (with_id id o) ≡ ok t) is e in
      inr (hearing m u id s s' t l same named is heard)
]
notify-Heard m u none s s' t same named e = inl (subst (Same s) (ok-injective s' t e) same)
notify-Heard m u (some null) s s' t same named e = inl (subst (Same s) (ok-injective s' t e) same)
notify-Heard m u (some (bool b)) s s' t same named e =
    inl (subst (Same s) (ok-injective s' t e) same)
notify-Heard m u (some (num x)) s s' t same named e =
    inl (subst (Same s) (ok-injective s' t e) same)
notify-Heard m u (some (arr x)) s s' t same named e =
    inl (subst (Same s) (ok-injective s' t e) same)
notify-Heard m u (some (obj x)) s s' t same named e =
    inl (subst (Same s) (ok-injective s' t e) same)

on_session_update-Heard :
    (m : Json) (s t : Acp) → on_session_update m s ≡ ok t → Same s t ⊎ Heard m s t
unfolding on_session_update
on_session_update-Heard m s t e =
    let (params, is_params, e₁) = bind-eq-ok (prop (codes "params") m) _ e in
    let (u, _, e₂) = bind-eq-ok (prop_of (codes "update") params) _ e₁ in
    let (s', noted, e₃) = bind-eq-ok (note_call u s) _ e₂ in
    let (session, is_session, e₄) = bind-eq-ok (prop_of (codes "sessionId") params) _ e₃ in
    notify-Heard m u session s s' t (note_call-Quiet u s s' noted)
      (addressed_of m params session is_params is_session) e₄

on_permission_request-Quiet :
    (stringify : Json → Text) (m : Json) (s : Acp) → Quiet s (on_permission_request stringify m s)
unfolding on_permission_request
on_permission_request-Quiet stringify m s t e =
    let (params, _, e₁) = bind-eq-ok (prop (codes "params") m) _ e in
    let (session, _, e₂) = bind-eq-ok (prop_of (codes "sessionId") params) _ e₁ in
    by_turn-Quiet stringify m params s (asked_turn session s) t e₂

refuse-Quiet : (id : Option Json) (s : Acp) → Quiet s (ok (refuse id s))
refuse-Quiet none s = ok-Quiet s s (refl, refl)
refuse-Quiet (some id) s = ok-Quiet s (refuse (some id) s) (refl, refl)

by_method-Heard :
    (name : Text) (stringify : Json → Text) (m : Json) (s t : Acp) (method : Option Json)
    → by_method name stringify m s method ≡ ok t
    → Same s t ⊎ Heard m s t
by_method-Heard name stringify m s t none e =
    let (c, _, e₁) = bind-eq-ok (on_response name m s.client) _ e in
    inl (ok-Quiet s _ (refl, refl) t e₁)
by_method-Heard name stringify m s t (some method) e =
    if_ind (λ r. r ≡ ok t → Same s t ⊎ Heard m s t) (is_str (codes "session/update") (some method))
      (on_session_update m s) _ (λ _. on_session_update-Heard m s t)
      (λ _.
        if_ind (λ r. r ≡ ok t → Same s t ⊎ Heard m s t)
          (is_str (codes "session/request_permission") (some method))
          (on_permission_request stringify m s) _
          (λ _ e. inl (on_permission_request-Quiet stringify m s t e))
          (λ _ e.
            let (id, _, e₁) = bind-eq-ok (prop (codes "id") m) _ e in inl (refuse-Quiet id s t e₁)))
      e

pub on_message-Heard :
    (name : Text) (stringify : Json → Text) (m : Json) (s t : Acp)
    → on_message name stringify m s ≡ ok t
    → Same s t ⊎ Heard m s t
unfolding on_message
on_message-Heard name stringify m s t e =
    let (method, _, e₁) = bind-eq-ok (prop (codes "method") m) _ e in
    by_method-Heard name stringify m s t method e₁

-- A message of the agent changes nothing of a session that it does not name: neither what the turn
-- of that session has heard, nor who would be asked for its permissions.
pub on_message-elsewhere :
    (name : Text) (stringify : Json → Text) (m : Json) (s t : Acp) (id : Text)
    → on_message name stringify m s ≡ ok t
    → addressed m ≢ ok (some (str id))
    → (get id t.updates ≡ get id s.updates) × (get id t.permissions ≡ get id s.permissions)
on_message-elsewhere name stringify m s t id e other =
    elim (on_message-Heard name stringify m s t e) [
      | inl same ↦ (ap (get id) same.0, ap (get id) same.1)
      | inr h ↦ (
        ap (get id) h.updates
            ∙ (get-put h.id id h.after s.updates
                ∙ if_ind (λ o. o ≡ get id s.updates) (h.id == id) (some h.after) (get id s.updates)
                    (λ same. absurd (
                      other (
                        subst (λ x. addressed m ≡ ok (some (str x))) (eq_of h.id id same) h.names)))
                    (λ _. refl)),
        ap (get id) h.permissions,
      )
    ]
