-- ===== src/Acp/Rpc.antt =====
-- agent-adapter/acp.mjs: `request` and the branch of the line handler that settles its promises.
-- JSON-RPC ids are numbers, so a `pending` entry stands under the text of its number.
use llm_stack.Base.{
  ℕ, suc, ◌+◌, ◌≡◌, refl, sym, subst, inl, inr, Bool, true, false, ◌&&◌, List, [], ◌∷◌, ◌++◌,
  Option, none, some, Text, codes, decimal, decimal-injective, Map, get, get-nil, put, delete,
  get-put, get-delete, has, is_some, ◌==◌, text_eq, nat_eq, eq_refl, eq_of, leb, if◌then◌else◌,
  arith, Bool-cases, if_ind,
}
use llm_stack.Js.{
  Json, null, bool, num, str, arr, obj, Result, ok, ◌>>=◌, prop, truthy, template, bind-eq-ok,
  ok-injective,
}

pub data Answer : Type 0 where
  resolved : Option Json → Answer
  rejected : Text → Answer

pub record Client : Type 0 where
  pub next_id : ℕ
  pub pending : Map Text Text
  pub settled : List (Text × Answer)

abbrev pub fresh : Client
fresh = record { next_id = 0; pending = []; settled = [] }

-- `request(method, params)`: the id that is sent, under which the promise waits.
unfoldable pub request : Text → Client → Client
request method c = record c {
  next_id = suc c.next_id;
  pending = put (decimal (suc c.next_id)) method c.pending;
}

-- `pending.get(m.id)` finds an entry by a number only.
abbrev waiting_for : Option Json → Client → Option Text
waiting_for (some (num t)) c = if has t c.pending then some t else none
waiting_for _ c = none

abbrev pub answer_of : Text → Json → Result Answer
answer_of name m = do
  error ← prop (codes "error") m
  if truthy error
      then (do
        message ← of_error error
        t ← template message
        ok (rejected (name ++ (codes ": " ++ t))))
      else (do result ← prop (codes "result") m; ok (resolved result))
  where
    of_error : Option Json → Result (Option Json)
    of_error none = ok none
    of_error (some e) = prop (codes "message") e

unfoldable pub settle : Text → Text → Json → Client → Result Client
settle name t m c = do
  a ← answer_of name m
  ok (record c { pending = delete t c.pending; settled = (t, a) ∷ c.settled })

abbrev settle_if : Text → Json → Client → Option Text → Result Client
settle_if name m c none = ok c
settle_if name m c (some t) = settle name t m c

-- A message with no method.
unfoldable pub on_response : Text → Json → Client → Result Client
unfolding settle
on_response name m c = do id ← prop (codes "id") m; settle_if name m c (waiting_for id c)

pub data Step (name : Text) (c d : Client) : Type 0 where
  requests : (method : Text) → d ≡ request method c → Step name c d
  responds : (m : Json) → on_response name m c ≡ ok d → Step name c d

pub data Reachable (name : Text) : Client → Type 0 where
  here : Reachable name fresh
  next : {c d : Client} → Reachable name c → Step name c d → Reachable name d

abbrev count : Text → List (Text × Answer) → ℕ
count t [] = 0
count t ((u, a) ∷ rs) = if u == t then suc (count t rs) else count t rs

-- 1 while the promise of request `n` waits; how often it has been settled; 1 if it was made.
abbrev pub waits : ℕ → Client → ℕ
waits n c = if has (decimal n) c.pending then 1 else 0

abbrev pub settlements : ℕ → Client → ℕ
settlements n c = count (decimal n) c.settled

abbrev pub made : ℕ → Client → ℕ
made n c = if leb 1 n && leb n c.next_id then 1 else 0

abbrev Once : Client → Type 0
Once c = (n : ℕ) → settlements n c + waits n c ≡ made n c

has-put :
    (k j v : Text) (m : Map Text Text) → has j (put k v m) ≡ (if k == j then true else has j m)
has-put k j v m = rw (get-put k j v m) (
    if_ind (λ o. is_some o ≡ (if k == j then true else has j m)) (k == j) (some v) (get j m)
      (λ e. rw e refl) (λ e. rw e refl))

has-delete :
    (k j : Text) (m : Map Text Text) → has j (delete k m) ≡ (if k == j then false else has j m)
has-delete k j m = rw (get-delete k j m) (
    if_ind (λ o. is_some o ≡ (if k == j then false else has j m)) (k == j) none (get j m)
      (λ e. rw e refl) (λ e. rw e refl))

weigh : Bool → ℕ
weigh b = if b then 1 else 0

request-Once : (method : Text) (c : Client) → Once c → Once (request method c)
unfolding request
request-Once method c h n = elim (Bool-cases (decimal (suc c.next_id) == decimal n)) [
  | inl same ↦
      let e : suc c.next_id ≡ n =
        decimal-injective (suc c.next_id) n (eq_of (decimal (suc c.next_id)) (decimal n) same) in
      rw (has-put (decimal (suc c.next_id)) (decimal n) method c.pending, same)
        (ground (arith, h n, e))
  | inr other ↦
      rw (has-put (decimal (suc c.next_id)) (decimal n) method c.pending, other)
        (ground (arith, h n, apart other))
]
  where
    apart : (decimal (suc c.next_id) == decimal n) ≡ false → (suc c.next_id ≡ n) → ⊥
    apart other e =
        ground
          (arith, other, subst (λ x. (decimal x == decimal n) ≡ true) (sym e) (eq_refl (decimal n)))

settled-Once :
    (t : Text) (a : Answer) (c : Client)
    → Once c
    → has t c.pending ≡ true
    → Once (record c { pending = delete t c.pending; settled = (t, a) ∷ c.settled })
settled-Once t a c h waiting n = elim (Bool-cases (t == decimal n)) [
  | inl same ↦
      rw (has-delete t (decimal n) c.pending, same)
        (ground (arith, h n, eq_of t (decimal n) same, waiting))
  | inr other ↦ rw (has-delete t (decimal n) c.pending, other) (h n)
]

settle-Once :
    (name t : Text) (m : Json) (c d : Client)
    → Once c
    → has t c.pending ≡ true
    → settle name t m c ≡ ok d
    → Once d
unfolding settle
settle-Once name t m c d h waiting e =
    let got = bind-eq-ok (answer_of name m) _ e in
    subst Once (ok-injective _ d got.2) (settled-Once t got.0 c h waiting)

settle_if-Once :
    (name : Text) (m : Json) (c d : Client) (id : Option Json)
    → Once c
    → settle_if name m c (waiting_for id c) ≡ ok d
    → Once d
settle_if-Once name m c d (some (num t)) h e = elim (Bool-cases (has t c.pending)) [
  | inl waiting ↦
      settle-Once name t m c d h waiting
        (subst (λ b. settle_if name m c (if b then some t else none) ≡ ok d) waiting e)
  | inr gone ↦
      subst Once
        (ok-injective c d
          (subst (λ b. settle_if name m c (if b then some t else none) ≡ ok d) gone e))
        h
]
settle_if-Once name m c d none h e = subst Once (ok-injective c d e) h
settle_if-Once name m c d (some null) h e = subst Once (ok-injective c d e) h
settle_if-Once name m c d (some (bool b)) h e = subst Once (ok-injective c d e) h
settle_if-Once name m c d (some (str t)) h e = subst Once (ok-injective c d e) h
settle_if-Once name m c d (some (arr xs)) h e = subst Once (ok-injective c d e) h
settle_if-Once name m c d (some (obj fs)) h e = subst Once (ok-injective c d e) h

on_response-Once :
    (name : Text) (m : Json) (c d : Client) → Once c → on_response name m c ≡ ok d → Once d
unfolding on_response
on_response-Once name m c d h e =
    let got = bind-eq-ok (prop (codes "id") m) _ e in settle_if-Once name m c d got.0 h got.2

unmade :
    (n : ℕ)
    → get (decimal n) fresh.pending ≡ none
    → settlements n fresh + waits n fresh ≡ made n fresh
unmade n h = rw h (ground arith)

Reachable-Once : (name : Text) (c : Client) → Reachable name c → Once c
Reachable-Once name _ here n = unmade n (get-nil (decimal n))
Reachable-Once name d (next {c} r (requests method e)) n =
    subst Once (sym e) (request-Once method c (Reachable-Once name c r)) n
Reachable-Once name d (next {c} r (responds m e)) n =
    on_response-Once name m c d (Reachable-Once name c r) e n

-- Whether a promise waits for the id of a response.
abbrev pub is_awaited : Option Json → Client → Bool
is_awaited (some (num t)) c = has t c.pending
is_awaited _ c = false

-- What a response does: nothing, where no promise waits for its id; or it settles the promise of its
-- id with what it says, and no other.
pub data Heeded (name : Text) (m : Json) (c d : Client) : Type 0 where
  nothing :
      (id : Option Json)
      → prop (codes "id") m ≡ ok id
      → is_awaited id c ≡ false
      → d ≡ c
      → Heeded name m c d
  one :
      (t : Text) (a : Answer)
      → prop (codes "id") m ≡ ok (some (num t))
      → has t c.pending ≡ true
      → answer_of name m ≡ ok a
      → d ≡ record c { pending = delete t c.pending; settled = (t, a) ∷ c.settled }
      → Heeded name m c d

settle_if-Heeded :
    (name : Text) (m : Json) (c d : Client) (id : Option Json)
    → prop (codes "id") m ≡ ok id
    → settle_if name m c (waiting_for id c) ≡ ok d
    → Heeded name m c d
unfolding settle
settle_if-Heeded name m c d (some (num t)) at e = elim (Bool-cases (has t c.pending)) [
  | inl waiting ↦
      let settles : settle name t m c ≡ ok d =
        subst (λ b. settle_if name m c (if b then some t else none) ≡ ok d) waiting e in
      let got = bind-eq-ok (answer_of name m) _ settles in
      one t got.0 at waiting got.1 (sym (ok-injective _ d got.2))
  | inr gone ↦ nothing (some (num t)) at gone (
      sym (
        ok-injective c d
          (subst (λ b. settle_if name m c (if b then some t else none) ≡ ok d) gone e)))
]
settle_if-Heeded name m c d none at e = nothing none at refl (sym (ok-injective c d e))
settle_if-Heeded name m c d (some null) at e = nothing _ at refl (sym (ok-injective c d e))
settle_if-Heeded name m c d (some (bool b)) at e = nothing _ at refl (sym (ok-injective c d e))
settle_if-Heeded name m c d (some (str t)) at e = nothing _ at refl (sym (ok-injective c d e))
settle_if-Heeded name m c d (some (arr xs)) at e = nothing _ at refl (sym (ok-injective c d e))
settle_if-Heeded name m c d (some (obj fs)) at e = nothing _ at refl (sym (ok-injective c d e))

-- However requests and responses interleave, each request that was made is either still waiting
-- or has been settled exactly once, and nothing else was ever settled; and a response settles the
-- promise that waits under its own id, with what it says, or nothing where none waits.
pub settled_once :
    (name : Text) (m : Json) (c d : Client) (n : ℕ)
    → Reachable name c
    → on_response name m c ≡ ok d
    → (settlements n c + waits n c ≡ made n c) × Heeded name m c d
unfolding on_response
settled_once name m c d n r e =
    let got = bind-eq-ok (prop (codes "id") m) _ e in
    (Reachable-Once name c r n, settle_if-Heeded name m c d got.0 got.1 got.2)
