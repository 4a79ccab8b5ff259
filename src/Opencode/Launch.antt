-- ===== src/Opencode/Launch.antt =====
-- agent-adapter/opencode.mjs: the server process that `start` spawns, and the map of its chats.
use llm_stack.Base.{
  ◌≡◌, ◌≢◌, refl, List, [], ◌∷◌, ◌++◌, some, Text, codes, Map, get, put, get-put, decimal, ◌==◌,
  text_eq, eq_of, if_ind, ℕ, drop,
}
use llm_stack.Js.{Json}
use llm_stack.Acp.Launch.{put_all, opencode}
use llm_stack.Acp.Launch.Laws.{put_all_alike}

pub record Process : Type 0 where
  pub base : Text
  pub command : Text
  pub args : List Text
  pub cwd : Text
  pub env : Map Text Text
  pub map_path : Text

abbrev port : ℕ
port = 4096

-- The variables that are set over those of process.env.
abbrev variables : (Text → Text → Text) → Text → List (Text × Text)
variables join home =
    (codes "OPENCODE_CONFIG", join (join home (codes "opencode")) (codes "opencode.json"))
    ∷ (codes "XDG_DATA_HOME", join home (codes "opencode-data"))
    ∷ (codes "XDG_STATE_HOME", join (join home (codes "opencode-data")) (codes "state"))
    ∷ (codes "XDG_CONFIG_HOME", codes "/tmp/opencode-config")
    ∷ (codes "XDG_CACHE_HOME", codes "/tmp/opencode-cache")
    ∷ (codes "OPENCODE_PURE", codes "1")
    ∷ (codes "OPENCODE_DISABLE_AUTOUPDATE", codes "1")
    ∷ (codes "OPENCODE_DISABLE_MODELS_FETCH", codes "1")
    ∷ (codes "OPENCODE_DISABLE_LSP_DOWNLOAD", codes "1")
    ∷ (codes "OPENCODE_DISABLE_DEFAULT_PLUGINS", codes "1")
    ∷ (codes "OPENCODE_DISABLE_SHARE", codes "1")
    ∷ (codes "OPENCODE_DISABLE_CLAUDE_CODE", codes "1")
    ∷ (codes "OPENCODE_DISABLE_PROJECT_CONFIG", codes "1")
    ∷ (codes "npm_config_offline", codes "true")
    ∷ []

-- `env` is process.env, and `join` that of node:path.
unfoldable pub server : (Text → Text → Text) → Map Text Text → Text → Text → Process
unfolding put_all
server join env home cwd = record {
  base = codes "http://127.0.0.1:" ++ decimal port;
  command = codes "opencode";
  args =
      codes "serve" ∷ codes "--hostname" ∷ codes "127.0.0.1" ∷ codes "--port" ∷ decimal port ∷ [];
  cwd = cwd;
  env = put_all (variables join home) env;
  map_path = join home (codes "opencode-sessions.json");
}

skips : (n k : Text) (v : Text) (e : Map Text Text) → k ≢ n → get n (put k v e) ≡ get n e
skips n k v e ne = rw (get-put k n v e) (
    if_ind (λ o. o ≡ get n e) (k == n) (some v) (get n e) (λ is. absurd (ne (eq_of k n is)))
      (λ _. refl))

-- opencode has the same profile whether it is driven over HTTP or over ACP: the chats are kept in
-- the same map file, and each variable of the environment is the same but OPENCODE_PERMISSION.
pub opencode_shared :
    (join : Text → Text → Text) (stringify : Json → Text) (env : Map Text Text)
    (home cwd name : Text)
    → codes "OPENCODE_PERMISSION" ≢ name
    → (get name (opencode join stringify env home cwd).env
        ≡ get name (server join env home cwd).env)
      × ((opencode join stringify env home cwd).map_path ≡ (server join env home cwd).map_path)
unfolding server opencode put_all
opencode_shared join stringify env home cwd name ne = (
  put_all_alike name (drop 1 (variables join home)) _ _
      (skips name (codes "OPENCODE_PERMISSION") _ _ ne),
  refl,
)
