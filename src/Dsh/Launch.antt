-- ===== src/Dsh/Launch.antt =====
-- agent-adapter/dsh.mjs: `start`, the processes that it starts and when it returns. `join` is that of
-- node:path.
use llm_stack.Base.{
  Bool, true, false, not, ◌&&◌, Map, get, put, text_eq, List, [], ◌∷◌, ◌++◌, Option, none, some,
  Text, codes, is_empty, if◌then◌else◌,
}
use llm_stack.Acp.Launch.{Launch}
use llm_stack.Dsh.{token_of, redact}

-- What spawn is given.
pub record Process : Type 0 where
  pub command : Text
  pub args : List Text
  pub cwd : Text
  pub env : Map Text Text

-- process.env.DSH_WEB_HOST, where it is set and not empty
abbrev trusted : Option Text → List Text
trusted none = []
trusted (some host) = if is_empty host then [] else codes "--trusted-host" ∷ host ∷ []

module _ (join : Text → Text → Text) (process_env : Map Text Text) (home cwd : Text) where
  abbrev dsh_home : Text
  dsh_home = join home (codes "dsh")

  abbrev env : Map Text Text
  env = put (codes "DSH_HOME") dsh_home process_env

  pub web : Process
  web = record {
    command = codes "dsh";
    args =
        (codes "web"
          ∷ codes "--patch"
          ∷ join dsh_home (codes "web.patch.yml")
          ∷ codes "--no-open"
          ∷ [])
        ++ trusted (get (codes "DSH_WEB_HOST") process_env);
    cwd = cwd;
    env = env;
  }

  pub acp : Launch
  acp = record {
    name = codes "dsh acp";
    command = codes "dsh";
    args =
        codes "--profile"
        ∷ codes "acp"
        ∷ codes "--patch"
        ∷ join dsh_home (codes "acp.patch.yml")
        ∷ [];
    cwd = cwd;
    map_path = join home (codes "dsh-sessions.json");
    env = env;
  }

-- `webToken`, whether `tokenReady` is resolved, what has been logged, and whether the handler of
-- a line has thrown, which ends the process.
pub record Web : Type 0 where
  pub web_token : Option Text
  pub is_seen : Bool
  pub logged : List Text
  pub has_thrown : Bool

abbrev pub started : Web
started = record { web_token = none; is_seen = false; logged = []; has_thrown = false }

abbrev decoded : Text → Option Text → Web → Web
decoded line none s = record s { has_thrown = true }
decoded line (some token) s = record s {
  web_token = some token;
  is_seen = true;
  logged = s.logged ++ redact line ∷ [];
}

abbrev found : (Text → Option Text) → Text → Option Text → Web → Web
found decode line none s = record s { logged = s.logged ++ redact line ∷ [] }
found decode line (some coded) s = decoded line (decode coded) s

-- A line of `dsh web`; `decode` is decodeURIComponent, none where it throws.
pub on_line : (Text → Option Text) → Text → Web → Web
on_line decode line s = if s.has_thrown then s else found decode line (token_of line) s

pub on_lines : (Text → Option Text) → List Text → Web → Web
unfolding on_line
on_lines decode [] s = s
on_lines decode (l ∷ ls) s = on_lines decode ls (on_line decode l s)

-- Whether `start` has returned: the agent is up, and the token is there.
abbrev pub is_ready : Bool → Web → Bool
is_ready acp_up s = acp_up && s.is_seen && not s.has_thrown
