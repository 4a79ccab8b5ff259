-- ===== src/Consent/Permits.antt =====
-- What a body that the permissions endpoint reads can allow.
use mathlib.Core.List.{Memᴰ}
use llm_stack.Base.{
  ℕ, codes, ◌≡◌, ◌∙◌, ◌⊎◌, refl, ap, subst, true, false, List, ◌∷◌, Option, some, Text, get, ◌==◌,
  text_eq, nat_eq, eq_of, if◌then◌else◌, arith, Bool-cases, Option-cases, inl, inr, if_ind,
}
use llm_stack.Js.{Json, ok, prop, is_true, Result-cases}
use llm_stack.Server.Keys.{Node}
use llm_stack.Server.Turn
use llm_stack.Server.Turn.{
  Decision, allow, deny, cancel, on_permission, settle_if, settle, ask_key, IsUnderWay,
}
use llm_stack.Server.Http.{Request, read_json, permissions, asked_key}
use llm_stack.Consent.Server.{Allowed}

-- A body that allows this request of this turn has been read.
pub record Consented (bodies : List Json) (turn : Text) (request : ℕ) : Type 0 where
  pub body : Json
  pub allows : Option Json
  pub is_read : Memᴰ body bodies
  pub names : asked_key body ≡ ok (ask_key turn request)
  pub allow_field : prop (codes "allow") body ≡ ok allows
  pub is_allowed : is_true allows ≡ true

pub widened :
    (body : Json) (bodies : List Json) (id : Text) (r : ℕ)
    → Consented bodies id r
    → Consented (body ∷ bodies) id r
widened body bodies id r c = record {
  body = c.body;
  allows = c.allows;
  is_read = Memᴰ.tail c.is_read;
  names = c.names;
  allow_field = c.allow_field;
  is_allowed = c.is_allowed;
}

-- What a body does to the server: nothing, or it settles the pending request that it names.
pub data Permitted (body : Json) (s t : Turn.Server) : Type 0 where
  nothing : t ≡ s → Permitted body s t
  settled :
      (k : Text) (a : Turn.Ask) (v : Option Json)
      → asked_key body ≡ ok k
      → get k s.asks ≡ some a
      → prop (codes "allow") body ≡ ok v
      → t ≡ settle k a (if is_true v then allow else deny) s
      → Permitted body s t

pub permissions-Permitted :
    (node : Node) (req : Request) (body : Json) (s : Turn.Server)
    → read_json node req ≡ some body
    → Permitted body s (permissions node req s).1
unfolding permissions
permissions-Permitted node req body s is_read = elim (Result-cases (asked_key body)) [
  | inl thrown ↦ nothing (ground (arith, is_read, thrown))
  | inr (k, asked) ↦ elim (Option-cases (get k s.asks)) [
    | inl missing ↦ nothing (ground (arith, is_read, asked, missing))
    | inr (a, found) ↦ elim (Result-cases (prop (codes "allow") body)) [
      | inl thrown ↦ nothing (ground (arith, is_read, asked, found, thrown))
      | inr (v, decides) ↦
          settled k a v asked found decides (ground (arith, is_read, asked, found, decides))
    ]
  ]
]

pub some-injective : (c d : Decision) → some c ≡ some d → c ≡ d
some-injective c d e = cc

pub settle_if-found :
    (k : Text) (a : Turn.Ask) (d : Decision) (s : Turn.Server)
    → get k s.asks ≡ some a
    → settle_if k d s ≡ settle k a d s
unfolding settle_if
settle_if-found k a d s found = rw (found, settle_if) refl

-- Only the request that the body names can be allowed by it.
pub settle-Consented :
    (bodies : List Json) (body : Json) (s : Turn.Server) (k : Text) (a : Turn.Ask) (v : Option Json)
    → asked_key body ≡ ok k
    → k ≡ ask_key a.turn a.request
    → prop (codes "allow") body ≡ ok v
    → ((id : Text) (r : ℕ) → Allowed s id r → Consented bodies id r)
    → (id : Text) (r : ℕ) → Allowed (settle k a (if is_true v then allow else deny) s) id r
    → Consented (body ∷ bodies) id r
unfolding settle get
settle-Consented bodies body s k a v asked is_key says old id r =
    if_ind (λ (t : Turn.Turn). get r t.decided ≡ some allow → Consented (body ∷ bodies) id r)
      (a.turn == id) _ (s.turns id)
      (λ same e.
        subst (λ x. Consented (body ∷ bodies) x r) (eq_of a.turn id same)
          (by_number (by_decision (Bool-cases (is_true v))) e))
      (λ _ e. widened body bodies id r (old id r e))
  where
    by_decision :
        (is_true v ≡ true) ⊎ (is_true v ≡ false)
        → (if is_true v then allow else deny) ≡ allow
        → is_true v ≡ true
    by_decision (inl yes_it_is) e = yes_it_is
    by_decision (inr refused) e = ground (arith, refused, e)

    by_number :
        ((if is_true v then allow else deny) ≡ allow → is_true v ≡ true)
        → get r ((a.request, if is_true v then allow else deny) ∷ (s.turns a.turn).decided)
          ≡ some allow
        → Consented (body ∷ bodies) a.turn r
    by_number allows e = elim (Bool-cases (a.request == r)) [
      | inl same ↦ record {
        body = body;
        allows = v;
        is_read = Memᴰ.head refl;
        names = asked ∙ ap ok (is_key ∙ ap (ask_key a.turn) (eq_of a.request r same));
        allow_field = says;
        is_allowed = allows (some-injective _ allow (rw same at e));
      }
      | inr other ↦ widened body bodies a.turn r (old a.turn r (rw other at e))
    ]
