-- ===== src/Examples/Http.antt =====
-- Requests to agent-adapter/server.mjs with and without the key.
use llm_stack.Base.{
  ◌++◌, Bool, ◌&&◌, inl, arith, ◌≡◌, ◌||◌, true, false, [], ◌∷◌, none, some, Text, codes, refl,
  text_beq, ltb, length, concat, if◌then◌else◌,
}
use llm_stack.Server.Turn.{Server, fresh}
use llm_stack.Server.Http.{Config, Request, handle, read_json, body_limit}
use llm_stack.Server.Http.Laws.{IsOutside, IsPlain, no_key_no_access, read_json_lem}
use llm_stack.Server.Start.{Env, Settings, serves, start, start_with}
use llm_stack.Examples.Server.{node}

abbrev config : Config
config = record {
  api_key = codes "key";
  model = codes "pi-agent";
  ready = true;
  interactive = true;
  web_token = none;
}

abbrev request_to : Text → Request
request_to url = record {
  method = codes "POST";
  url = url;
  authorization = none;
  chat_header = none;
  chunks = (123 ∷ []) ∷ (125 ∷ []) ∷ [];
  broken = false;
}

abbrev server : Server
server = fresh []

is_plain : Text → Bool
is_plain [] = true
is_plain (c ∷ cs) = ltb c 55296 && is_plain cs

is_plain-IsPlain : (t : Text) → is_plain t ≡ true → IsPlain t
unfolding is_plain
is_plain-IsPlain [] h = tt
is_plain-IsPlain (c ∷ cs) h = (inl (ground (arith, h)), is_plain-IsPlain cs (ground (arith, h)))

bearer-IsPlain : IsPlain (codes "Bearer " ++ codes "key")
unfolding is_plain
bearer-IsPlain = is_plain-IsPlain (codes "Bearer " ++ codes "key") refl

no_key_no_access_example :
    IsOutside
      (node.url_path (codes "/v1/agent/turns"))
      (handle node config (request_to (codes "/v1/agent/turns")) server).0
    × ((handle node config (request_to (codes "/v1/agent/turns")) server).1 ≡ server)
no_key_no_access_example =
    no_key_no_access node config (request_to (codes "/v1/agent/turns")) server (λ s t p q e. e) tt
      bearer-IsPlain (λ e. cc)

read_json_lem_example : read_json node (request_to []) ≡ (
    if ltb body_limit (length (concat (request_to []).chunks)) || (request_to []).broken
    then none
    else node.json_parse (concat (request_to []).chunks))
read_json_lem_example = read_json_lem node (request_to [])

abbrev pi_env : Env
pi_env = record {
  runtime = some (codes "pi");
  home = none;
  api_key = some (codes "key");
  protocol = none;
  model_name = none;
  port = none;
  timeout_seconds = none;
  cwd = none;
}

abbrev pi_settings : Settings
pi_settings = record {
  api_key = codes "key";
  history_path = codes "/opt/data/home/agent-turns.json";
  timeout_seconds = codes "300";
  model = codes "pi-agent";
  interactive = false;
  port = codes "8642";
  backend_file = codes "./pi.mjs";
  home = codes "/opt/data/home";
  cwd = codes "/work";
  runtime = codes "pi";
}

pi_starts : start pi_env ≡ serves pi_settings
unfolding start start_with text_beq
pi_starts = refl
