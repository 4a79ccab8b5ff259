-- ===== src/Server/Http/Laws.antt =====
-- What the request handler lets through.
use mathlib.Core.List.{append-nil, append_assoc}
use native.Mathlib.Nat.{add_assoc}
use llm_stack.Base.{
  ℕ, ◌+◌, ◌<◌, All, ◌≤◌, ◌≡◌, ◌≢◌, ◌↔◌, ◌⊎◌, ◌∙◌, refl, ap, subst, inl, inr, Bool, true, false,
  ◌||◌, List, [], ◌∷◌, ◌++◌, concat, Option, none, some, Text, codes, Map, get, text_eq,
  text_beq_iff, ltb, if◌then◌else◌, length, length-append, get_or, arith, Bool-cases, Option-cases,
  if_ind, decimal,
}
use llm_stack.Js.{Json, ok, prop, template, is_true, bind-eq-ok, ok-injective, Result-cases}
use llm_stack.Server.Keys.{Node}
use llm_stack.Server.Turn.{Server, Reachable, Ask, allow, deny, settle, ask_key, NoSlash}
use llm_stack.Server.Turn.Asks.{ask_key_named}
use llm_stack.Server.Turn.Permissions.{Reachable-Core}
use llm_stack.Server.Http.{
  Config, Request, Outcome, healthy, starting, fails, accepted, rejects, authorized, body_limit,
  read_chunks, read_json, permissions, handle, at_path, is_call, asked_key,
}

-- No unit of the text is a surrogate.
abbrev pub IsPlain : Text → Type 0
IsPlain = All (λ c. (c < 55296) ⊎ (57344 ≤ c))

-- Texts without surrogates are told apart by their UTF-8 bytes.
abbrev pub IsEncoding : (Text → List ℕ) → Type 0
IsEncoding utf8 = (s t : Text) → IsPlain s → IsPlain t → utf8 s ≡ utf8 t → s ≡ t

-- The key is the only bearer token that is let through, of those without surrogates.
pub authorized_iff :
    (node : Node) (header : Option Text) (key : Text)
    → IsEncoding node.utf8
    → IsPlain (get_or header [])
    → IsPlain (codes "Bearer " ++ key)
    → (authorized node header key ≡ true) ↔ (get_or header [] ≡ codes "Bearer " ++ key)
unfolding authorized
authorized_iff node header key injective plain plain_key = (
  λ e. injective _ _ plain plain_key ((text_beq_iff _ _).0 e),
  λ e. (text_beq_iff _ _).1 (ap node.utf8 e),
)

-- What a request without the key gets, by the path of its URL.
abbrev pub IsOutside : Option Text → Outcome → Type 0
IsOutside none o = o ≡ rejects
IsOutside (some path) o =
    (o ≡ healthy)
    ⊎ (o ≡ starting)
    ⊎ (o ≡ fails 401 (codes "unauthorized") (codes "invalid API key"))

module _ (node : Node) (config : Config) (req : Request) (s : Server) where
  outside :
      (p : Option Text)
      → authorized node req.authorization config.api_key ≡ false
      → IsOutside p (at_path node config req p s).0 × ((at_path node config req p s).1 ≡ s)
  unfolding at_path
  outside none refused = (refl, refl)
  outside (some path) refused =
      if_ind (λ (r : Outcome × Server). IsOutside (some path) r.0 × (r.1 ≡ s))
        (is_call (codes "GET") (codes "/health") req path)
        (if config.ready then healthy else starting, s) _ (λ _. (health config.ready, refl))
        (λ _. rw refused (inr (inr refl), refl))
    where
      health : (b : Bool) → IsOutside (some path) (if b then healthy else starting)
      health true = inl refl
      health false = inr (inl refl)

  -- Where the header (which is Latin-1) and the key have no surrogates, whose UTF-8 bytes would not
  -- tell them apart: a request without the right bearer token gets the health check or a 401, or, where its URL
  -- cannot be parsed, a handler that throws; it changes nothing, whatever its body and path.
  pub no_key_no_access :
      IsEncoding node.utf8
      → IsPlain (get_or req.authorization [])
      → IsPlain (codes "Bearer " ++ config.api_key)
      → get_or req.authorization [] ≢ codes "Bearer " ++ config.api_key
      → IsOutside (node.url_path req.url) (handle node config req s).0
        × ((handle node config req s).1 ≡ s)
  unfolding handle
  no_key_no_access injective plain plain_key wrong =
      outside (node.url_path req.url)
        (elim (Bool-cases (authorized node req.authorization config.api_key)) [
          | inl let_in ↦ absurd (
              wrong (
                (authorized_iff node req.authorization config.api_key injective plain plain_key).0
                  let_in))
          | inr kept_out ↦ kept_out
        ])

  -- A URL that cannot be parsed makes the handler throw before the bearer token is looked at.
  pub bad_url_throws : node.url_path req.url ≡ none → handle node config req s ≡ (rejects, s)
  unfolding handle
  bad_url_throws bad = rw (bad, at_path) refl

abbrev total : List (List ℕ) → ℕ
total cs = length (concat cs)

read_chunks_lem :
    (size : ℕ) (got : List ℕ) (cs : List (List ℕ))
    → size ≤ body_limit
    → read_chunks size got cs
      ≡ (if ltb body_limit (size + total cs) then none else some (got ++ concat cs))
unfolding read_chunks
read_chunks_lem size got [] h = rw append-nil (ground arith)
read_chunks_lem size got (c ∷ cs) h = elim (Bool-cases (ltb body_limit (size + length c))) [
  | inl over ↦ rw over (ground (arith, length-append c (concat cs)))
  | inr fits ↦
      rw
        (
          fits,
          read_chunks_lem (size + length c) (got ++ c) cs (ground arith),
          append_assoc,
          length-append,
          add_assoc,
        )
        refl
]

-- The body is read in whatever chunks it comes: it is refused exactly where it is longer than
-- 32 MiB in all, or its stream fails, or the whole of it is not JSON.
pub read_json_lem :
    (node : Node) (req : Request)
    → read_json node req ≡ (
        if ltb body_limit (length (concat req.chunks)) || req.broken
        then none
        else node.json_parse (concat req.chunks))
unfolding read_json
read_json_lem node req = rw (read_chunks_lem 0 [] req.chunks (omega arith)) (ground arith)

-- The request that a body names.
pub record Names (body : Json) (a : Ask) : Type 0 where
  pub turn : Option Json
  pub request : Option Json
  pub has_turn : prop (codes "turn") body ≡ ok turn
  pub has_request : prop (codes "request") body ≡ ok request
  pub is_turn : template turn ≡ ok a.turn
  pub is_request : template request ≡ ok (decimal a.request)

asked_key-Names :
    (body : Json) (a : Ask) (k : Text)
    → k ≡ ask_key a.turn a.request
    → NoSlash a.turn
    → asked_key body ≡ ok k
    → Names body a
asked_key-Names body a k is_key named e =
    let (turn, has_turn, e₁) = bind-eq-ok (prop (codes "turn") body) _ e in
    let (t, is_t, e₂) = bind-eq-ok (template turn) _ e₁ in
    let (request, has_request, e₃) = bind-eq-ok (prop (codes "request") body) _ e₂ in
    let (r, is_r, e₄) = bind-eq-ok (template request) _ e₃ in
    let (same_turn, same_request) =
      ask_key_named t r a.turn a.request named (ok-injective _ _ e₄ ∙ is_key) in
    record {
      turn = turn;
      request = request;
      has_turn = has_turn;
      has_request = has_request;
      is_turn = is_t ∙ ap ok same_turn;
      is_request = is_r ∙ ap ok same_request;
    }

-- A permission that the endpoint accepts: what was asked, and what becomes of it.
pub record Accepted (node : Node) (req : Request) (s : Server) : Type 0 where
  pub body : Json
  pub ask : Ask
  pub allowed : Option Json
  pub is_read : read_json node req ≡ some body
  pub names : Names body ask
  pub was_pending : get (ask_key ask.turn ask.request) s.asks ≡ some ask
  pub decides : prop (codes "allow") body ≡ ok allowed
  pub settled :
      (permissions node req s).1
      ≡ settle (ask_key ask.turn ask.request) ask (if is_true allowed then allow else deny) s

-- In every reachable state, a permission that the endpoint accepts is the one that its body names, by the id of its turn and
-- its number; that request was pending, and it is allowed only by `allow: true`.
pub accepted_named :
    {history : Map Text (List Text)} (node : Node) (req : Request) (s : Server)
    → Reachable node history s
    → (permissions node req s).0 ≡ accepted
    → Accepted node req s
unfolding permissions
accepted_named node req s reached e = elim (Option-cases (read_json node req)) [
  | inl unread ↦ absurd (ground arith)
  | inr (body, is_read) ↦ elim (Result-cases (asked_key body)) [
    | inl thrown ↦ absurd (ground arith)
    | inr (k, asked) ↦ elim (Option-cases (get k s.asks)) [
      | inl missing ↦ absurd (ground arith)
      | inr (a, found) ↦ elim (Result-cases (prop (codes "allow") body)) [
        | inl thrown ↦ absurd (ground arith)
        | inr (allowed, decides) ↦
            let l = (Reachable-Core reached).listed k a found in
            record {
              body = body;
              ask = a;
              allowed = allowed;
              is_read = is_read;
              names = asked_key-Names body a k l.is_key l.named asked;
              was_pending = subst (λ x. get x s.asks ≡ some a) l.is_key found;
              decides = decides;
              settled = rw (← l.is_key) (ground arith);
            }
      ]
    ]
  ]
]
