-- ===== src/Acp/Launch.antt =====
-- agent-adapter/acp.mjs: `start`, the command, the environment and the session map of each runtime.
-- `join`, `dirname` of this file (`here`), and `homedir()` (`user_home`) are arguments.
pub mod Laws
use llm_stack.Base.{List, [], ◌∷◌, ◌++◌, Text, codes, Map, put, text_eq, text_beq, ℕ, if◌then◌else◌}
use llm_stack.Js.{Json, str, obj, field, end}

-- What `startACP` is given.
pub record Launch : Type 0 where
  pub name : Text
  pub command : Text
  pub args : List Text
  pub cwd : Text
  pub map_path : Text
  pub env : Map Text Text

-- What `start` does before it.
pub data Effect : Type 0 where
  makes_dir : Text → Effect
  links : Text → Text → Effect
  migrates : Text → Text → Text → Effect
  sets_umask : ℕ → Effect

pub data Started : Type 0 where
  launches : List Effect → Launch → Started
  throws_error : Text → Started

-- `{ ...env, K: v, … }`
unfoldable pub put_all : List (Text × Text) → Map Text Text → Map Text Text
put_all [] env = env
put_all ((k, v) ∷ kvs) env = put_all kvs (put k v env)

abbrev ask : Json
ask = obj (field (codes "bash") (str (codes "ask")) (field (codes "edit") (str (codes "ask")) end))

module _ (join : Text → Text → Text) (stringify : Json → Text) where
  unfoldable pub opencode : Map Text Text → Text → Text → Launch
  unfolding put_all
  opencode env home cwd = record {
    name = codes "opencode acp";
    command = codes "opencode";
    args = codes "acp" ∷ [];
    cwd = cwd;
    map_path = join home (codes "opencode-sessions.json");
    env =
        put_all
          ((codes "OPENCODE_CONFIG", join (join home (codes "opencode")) (codes "opencode.json"))
            ∷ (codes "OPENCODE_PERMISSION", stringify ask)
            ∷ (codes "XDG_DATA_HOME", join home (codes "opencode-data"))
            ∷ (codes "XDG_STATE_HOME", join (join home (codes "opencode-data")) (codes "state"))
            ∷ (codes "XDG_CONFIG_HOME", codes "/tmp/opencode-config")
            ∷ (codes "XDG_CACHE_HOME", codes "/tmp/opencode-cache")
            ∷ (codes "OPENCODE_PURE", codes "1")
            ∷ (codes "OPENCODE_DISABLE_AUTOUPDATE", codes "1")
            ∷ (codes "OPENCODE_DISABLE_MODELS_FETCH", codes "1")
            ∷ (codes "OPENCODE_DISABLE_LSP_DOWNLOAD", codes "1")
            ∷ (codes "OPENCODE_DISABLE_DEFAULT_PLUGINS", codes "1")
            ∷ (codes "OPENCODE_DISABLE_SHARE", codes "1")
            ∷ (codes "OPENCODE_DISABLE_CLAUDE_CODE", codes "1")
            ∷ (codes "OPENCODE_DISABLE_PROJECT_CONFIG", codes "1")
            ∷ (codes "npm_config_offline", codes "true")
            ∷ [])
          env;
  }

  unfoldable pub pi : Text → Map Text Text → Text → Text → Launch
  unfolding put_all
  pi here env home cwd = record {
    name = codes "pi-acp";
    command = join (join (join here (codes "node_modules")) (codes ".bin")) (codes "pi-acp");
    args = [];
    cwd = cwd;
    map_path = join home (codes "pi-acp-sessions.json");
    env =
        put_all
          ((codes "PI_CODING_AGENT_DIR", join home (codes "pi"))
            ∷ (codes "PI_ACP_PI_COMMAND", join here (codes "pi-rpc"))
            ∷ (codes "npm_config_offline", codes "true")
            ∷ [])
          env;
  }

  -- The directory of pi-acp, linked to the profile, and the chats of the native path.
  unfoldable pub before_pi : Text → Text → Text → List Effect
  before_pi user_home home cwd =
      let acp_dir = join home (codes "pi-acp") in
      let dot_pi = join user_home (codes ".pi") in
      makes_dir acp_dir
      ∷ makes_dir dot_pi
      ∷ links acp_dir (join dot_pi (codes "pi-acp"))
      ∷ migrates home cwd acp_dir
      ∷ []

  unfoldable pub hermes : Map Text Text → Text → Text → Launch
  unfolding put_all
  hermes env home cwd = record {
    name = codes "hermes acp";
    command = codes "/opt/hermes/.venv/bin/hermes";
    args = codes "acp" ∷ [];
    cwd = cwd;
    map_path = join home (codes "hermes-acp-sessions.json");
    env = put_all ((codes "HERMES_HOME", home) ∷ []) env;
  }

  unfoldable pub start_acp : Text → Text → Map Text Text → Text → Text → Text → Started
  unfolding opencode pi hermes before_pi
  start_acp here user_home env home cwd runtime =
      if text_beq runtime (codes "opencode")
      then launches (makes_dir cwd ∷ []) (opencode env home cwd)
      else if text_beq runtime (codes "pi")
      then launches (makes_dir cwd ∷ before_pi user_home home cwd) (pi here env home cwd)
      else if text_beq runtime (codes "hermes")
      then launches (makes_dir cwd ∷ sets_umask 2 ∷ []) (hermes env home cwd)
      else throws_error (codes "no ACP command for runtime " ++ runtime)
