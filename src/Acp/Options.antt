-- ===== src/Acp/Options.antt =====
-- agent-adapter/acp.mjs: `pick` and the answers to permission requests.
use llm_stack.Base.{
  ◌≡◌, ◌∙◌, refl, sym, ap, inl, inr, Bool, true, List, [], ◌∷◌, Option, none, some, Text, codes,
  if◌then◌else◌, arith, Bool-cases,
}
use llm_stack.Js.{Json, Result, ok, ◌>>=◌, prop, is_str, bind-eq-ok}
use llm_stack.Server.Turn.{Decision, allow, deny, cancel}
use mathlib.Core.List.{Memᴰ}

-- options.find((o) => o.kind === k)
unfoldable pub find_kind : Text → List Json → Result (Option Json)
find_kind k [] = ok none
find_kind k (o ∷ os) =
    let rest = find_kind k os in
    (do kind ← prop (codes "kind") o; if is_str k kind then ok (some o) else rest)

abbrev or_next : Option Json → Result (Option Json) → Result (Option Json)
or_next none next = next
or_next (some o) next = ok (some o)

unfoldable pub pick : List Json → List Text → Result (Option Json)
unfolding find_kind
pick options [] = ok none
pick options (k ∷ ks) =
    let rest = pick options ks in (do found ← find_kind k options; or_next found rest)

-- The `outcome` that the agent gets.
pub data Reply : Type 0 where
  selected : Option Json → Reply
  cancelled : Reply

abbrev pub allow_kinds : List Text
allow_kinds = codes "allow_once" ∷ codes "allow_always" ∷ []

abbrev pub reject_kinds : List Text
reject_kinds = codes "reject_once" ∷ codes "reject_always" ∷ []

abbrev reply_with : Option Json → Result Reply
reply_with none = ok cancelled
reply_with (some o) = do id ← prop (codes "optionId") o; ok (selected id)

-- Without a turn of the interaction path: the request is approved.
pub reply_unasked : List Json → Result Reply
unfolding pick
reply_unasked options = do o ← pick options allow_kinds; reply_with o

-- On the interaction path the user's decision answers it.
unfoldable pub reply_decided : Decision → List Json → Result Reply
unfolding pick
reply_decided allow options = do o ← pick options allow_kinds; reply_with o
reply_decided deny options = do o ← pick options reject_kinds; reply_with o
reply_decided cancel options = ok cancelled

-- An option of the request that has one of these kinds and this id.
pub record Offered (options : List Json) (kinds : List Text) (id : Option Json) : Type 0 where
  pub option : Json
  pub kind : Text
  pub own_kind : Option Json
  pub listed : Memᴰ option options
  pub allowed : Memᴰ kind kinds
  pub has_kind : prop (codes "kind") option ≡ ok own_kind
  pub is_kind : is_str kind own_kind ≡ true
  pub has_id : prop (codes "optionId") option ≡ ok id

record Found (k : Text) (options : List Json) (o : Json) : Type 0 where
  own_kind : Option Json
  listed : Memᴰ o options
  has_kind : prop (codes "kind") o ≡ ok own_kind
  is_kind : is_str k own_kind ≡ true

find_kind-Found :
    (k : Text) (options : List Json) (o : Json)
    → find_kind k options ≡ ok (some o)
    → Found k options o
unfolding find_kind
find_kind-Found k [] o e = absurd (ground arith)
find_kind-Found k (p ∷ ps) o e =
    let (kind, has_kind, e') = bind-eq-ok (prop (codes "kind") p) _ e in
    elim (Bool-cases (is_str k kind)) [
      | inl is ↦
          let same : p ≡ o = first (find_kind k ps) is e' in
          record {
            own_kind = kind;
            listed = Memᴰ.head (sym same);
            has_kind = ap (prop (codes "kind")) (sym same) ∙ has_kind;
            is_kind = is;
          }
      | inr other ↦
          let f = find_kind-Found k ps o (rw other at e') in
          record {
            own_kind = f.own_kind;
            listed = Memᴰ.tail f.listed;
            has_kind = f.has_kind;
            is_kind = f.is_kind;
          }
    ]
  where
    first :
        {b : Bool} (r : Result (Option Json))
        → b ≡ true
        → (if b then ok (some p) else r) ≡ ok (some o)
        → p ≡ o
    first r h e = ground arith

pick-Offered :
    (options : List Json) (kinds : List Text) (o : Json) (id : Option Json)
    → pick options kinds ≡ ok (some o)
    → prop (codes "optionId") o ≡ ok id
    → Offered options kinds id
unfolding pick
pick-Offered options [] o id e h = absurd (ground arith)
pick-Offered options (k ∷ ks) o id e h =
    let (found, is_found, e') = bind-eq-ok (find_kind k options) _ e in
    by_found found (λ r. shift (pick-Offered options ks o id r h)) is_found e'
  where
    shift : Offered options ks id → Offered options (k ∷ ks) id
    shift f = record {
      option = f.option;
      kind = f.kind;
      own_kind = f.own_kind;
      listed = f.listed;
      allowed = Memᴰ.tail f.allowed;
      has_kind = f.has_kind;
      is_kind = f.is_kind;
      has_id = f.has_id;
    }

    by_found :
        (found : Option Json)
        → (pick options ks ≡ ok (some o) → Offered options (k ∷ ks) id)
        → find_kind k options ≡ ok found
        → or_next found (pick options ks) ≡ ok (some o)
        → Offered options (k ∷ ks) id
    by_found none later is e = later e
    by_found (some p) later is e =
        let f = find_kind-Found k options o (is ∙ e) in
        record {
          option = o;
          kind = k;
          own_kind = f.own_kind;
          listed = f.listed;
          allowed = Memᴰ.head refl;
          has_kind = f.has_kind;
          is_kind = f.is_kind;
          has_id = h;
        }

reply_with-Offered :
    (options : List Json) (kinds : List Text) (id : Option Json)
    → (pick options kinds >>= reply_with) ≡ ok (selected id)
    → Offered options kinds id
reply_with-Offered options kinds id e =
    let (found, is_found, e') = bind-eq-ok (pick options kinds) reply_with e in
    by_found found is_found e'
  where
    by_found :
        (found : Option Json)
        → pick options kinds ≡ ok found
        → reply_with found ≡ ok (selected id)
        → Offered options kinds id
    by_found none is e = absurd (ground arith)
    by_found (some o) is e =
        let (v, has_id, e') = bind-eq-ok (prop (codes "optionId") o) _ e in
        pick-Offered options kinds o id is (has_id ∙ ap ok (same v e'))
      where
        same : (v : Option Json) → ok (selected v) ≡ ok (selected id) → v ≡ id
        same v e = cc

abbrev pub kinds_of : Decision → List Text
kinds_of allow = allow_kinds
kinds_of deny = reject_kinds
kinds_of cancel = []

-- On the interaction path the agent is given an option of a kind that the user's decision allows:
-- an `allow_` option only for `allow`, a `reject_` option only for `deny`, and none for `cancel`.
pub reply_decided-Offered :
    (d : Decision) (options : List Json) (id : Option Json)
    → reply_decided d options ≡ ok (selected id)
    → Offered options (kinds_of d) id
unfolding reply_decided
reply_decided-Offered allow options id e = reply_with-Offered options allow_kinds id e
reply_decided-Offered deny options id e = reply_with-Offered options reject_kinds id e
reply_decided-Offered cancel options id e = absurd (ground arith)
