-- ===== src/Server/Start.antt =====
-- agent-adapter/server.mjs: `main`, from the environment to the server's settings and the backend's
-- module. The numbers of the port and of the timeout stay the texts that they are read from.
use llm_stack.Base.{
  ◌≡◌, ◌⊎◌, inl, inr, refl, ap, Bool, true, false, not, ◌&&◌, ◌||◌, List, [], ◌∷◌, ◌++◌, Option,
  none, some, Text, codes, is_empty, text_beq, text_beq_iff, if◌then◌else◌, arith, Bool-cases, any,
  if_ind, subst,
}

-- process.env
pub record Env : Type 0 where
  pub runtime : Option Text
  pub home : Option Text
  pub api_key : Option Text
  pub protocol : Option Text
  pub model_name : Option Text
  pub port : Option Text
  pub timeout_seconds : Option Text
  pub cwd : Option Text

pub record Settings : Type 0 where
  pub api_key : Text
  pub history_path : Text
  pub timeout_seconds : Text
  pub model : Text
  pub interactive : Bool
  pub port : Text
  pub backend_file : Text
  pub home : Text
  pub cwd : Text
  pub runtime : Text

pub data Start : Type 0 where
  exits : Text → Start
  serves : Settings → Start

-- `value || d`
abbrev pub or_text : Option Text → Text → Text
or_text none d = d
or_text (some t) d = if is_empty t then d else t

abbrev pub runtimes : List Text
runtimes = codes "pi" ∷ codes "opencode" ∷ codes "dsh" ∷ codes "hermes" ∷ []

-- `import(…)`
abbrev pub file_of : Text → Bool → Text
file_of runtime acp =
    if text_beq runtime (codes "dsh") || not acp
    then codes "./" ++ (runtime ++ codes ".mjs")
    else codes "./acp.mjs"

abbrev pub settings : Env → Text → Bool → Settings
settings env runtime acp = record {
  api_key = or_text env.api_key [];
  history_path = or_text env.home (codes "/opt/data/home") ++ codes "/agent-turns.json";
  timeout_seconds = or_text env.timeout_seconds (codes "300");
  model = or_text env.model_name (runtime ++ codes "-agent");
  interactive = acp;
  port = or_text env.port (codes "8642");
  backend_file = file_of runtime acp;
  home = or_text env.home (codes "/opt/data/home");
  cwd = or_text env.cwd (codes "/work");
  runtime = runtime;
}

abbrev pub speaks_acp : Env → Text → Bool
speaks_acp env runtime =
    text_beq runtime (codes "dsh") || text_beq (or_text env.protocol []) (codes "acp")

-- What `main` does with a runtime, which may be the empty text for none.
unfoldable pub start_with : Env → Text → Start
start_with env runtime =
    if is_empty (or_text env.api_key []) || not (any (text_beq runtime) runtimes)
    then exits (codes "API_SERVER_KEY and AGENT_RUNTIME=pi|opencode|dsh|hermes are required")
    else if not (speaks_acp env runtime) && text_beq runtime (codes "hermes")
    then exits (codes "AGENT_RUNTIME=hermes needs AGENT_PROTOCOL=acp")
    else serves (settings env runtime (speaks_acp env runtime))

unfoldable pub start : Env → Start
unfolding start_with
start env = start_with env (or_text env.runtime [])

-- The files of the backends, by whether they speak ACP.
abbrev pub IsBackend : Bool → Text → Type 0
IsBackend true f = (f ≡ codes "./acp.mjs") ⊎ (f ≡ codes "./dsh.mjs")
IsBackend false f = (f ≡ codes "./pi.mjs") ⊎ (f ≡ codes "./opencode.mjs")

known-IsBackend :
    (runtime : Text) (acp : Bool)
    → any (text_beq runtime) runtimes ≡ true
    → (text_beq runtime (codes "dsh") ≡ true → acp ≡ true)
    → (text_beq runtime (codes "hermes") ≡ true → acp ≡ true)
    → IsBackend acp (file_of runtime acp)
known-IsBackend runtime true known dsh hermes = elim (Bool-cases (text_beq runtime (codes "dsh"))) [
  | inl is ↦ rw is (
      inr (ap (λ r. codes "./" ++ (r ++ codes ".mjs")) ((text_beq_iff runtime (codes "dsh")).0 is)))
  | inr other ↦ rw other (inl refl)
]
known-IsBackend runtime false known dsh hermes =
    elim (Bool-cases (text_beq runtime (codes "dsh"))) [
      | inl is ↦ absurd (ground (arith, dsh is))
      | inr other ↦ rw other (elim (Bool-cases (text_beq runtime (codes "pi"))) [
        | inl is ↦ inl (named (codes "pi") is)
        | inr no_pi ↦ elim (Bool-cases (text_beq runtime (codes "opencode"))) [
          | inl is ↦ inr (named (codes "opencode") is)
          | inr no_opencode ↦ absurd (ground (arith, known, no_pi, no_opencode, other, hermes))
        ]
      ])
    ]
  where
    named :
        (t : Text)
        → text_beq runtime t ≡ true
        → codes "./" ++ (runtime ++ codes ".mjs") ≡ codes "./" ++ (t ++ codes ".mjs")
    named t is = ap (λ r. codes "./" ++ (r ++ codes ".mjs")) ((text_beq_iff runtime t).0 is)

Backed : Start → Type 0
Backed (exits message) = Unit
Backed (serves c) = IsBackend c.interactive c.backend_file

start_with-Backed : (env : Env) (runtime : Text) → Backed (start_with env runtime)
unfolding start_with Backed
start_with-Backed env runtime =
    if_ind Backed (is_empty (or_text env.api_key []) || not (any (text_beq runtime) runtimes)) _ _
      (λ _. tt)
      (λ allowed.
        if_ind Backed (not (speaks_acp env runtime) && text_beq runtime (codes "hermes")) _ _
          (λ _. tt)
          (λ fits.
            known-IsBackend runtime (speaks_acp env runtime) (ground (arith, allowed))
              (λ is. ground (arith, is)) (λ is. ground (arith, fits, is))))

-- Where `main` serves, the file that it imports is that of a backend that is there and that speaks
-- as the settings say: acp.mjs or dsh.mjs for ACP, else pi.mjs or opencode.mjs, never hermes.mjs.
pub start-IsBackend :
    (env : Env) (c : Settings) → start env ≡ serves c → IsBackend c.interactive c.backend_file
unfolding start Backed
start-IsBackend env c e = subst Backed e (start_with-Backed env (or_text env.runtime []))
