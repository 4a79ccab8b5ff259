-- ===== src/Examples/Agents.antt =====
-- The backends on small inputs: an ACP agent with two turns, chats of the native pi path, the
-- opencode server, the lines of `dsh web`, and the sessions of pi.
use llm_stack.Base.{
  join, arith, ◌≡◌, ◌≢◌, ◌⊎◌, refl, true, false, ℕ, List, [], ◌∷◌, ◌++◌, Option, none, some, Text,
  codes, get, put, text_eq, text_beq, decimal, All, if◌then◌else◌,
}
use llm_stack.Js.{num, Json, str, obj, field, end, Result, ok, throws, prop, to_text}
use llm_stack.Acp.Updates.{on_update, act, add_chunk}
use llm_stack.Acp.Rpc
use llm_stack.Acp.ToolText.{tool_text, input_text}
use llm_stack.Acp.Dispatch.{
  on_permission_request, ask_user, called, shown_text, merge, Acp, started, on_message,
  on_session_update, note_call, listen, begin_prompt, Reachable, here, next, reads, begins,
}
use llm_stack.Acp.Dispatch.Laws.{addressed, on_message-elsewhere}
use llm_stack.Acp.Dispatch.Turns.{IsToldBy, Routed, asked_of, turns_apart}
use llm_stack.Acp.Migrate.{
  migrate_keys, migrate_key, newest, newest_first, insert_newer, File, Files, migrate,
}
use llm_stack.Acp.Migrate.Laws.{Fate, IsSettled, migrate_lem}
use llm_stack.Acp.Launch
use llm_stack.Acp.Launch.{start_acp}
use llm_stack.Acp.Launch.Laws.{acp_has_command}
use llm_stack.Server.Start.{Env, Settings, serves, start, start_with}
use llm_stack.Server.Disk.{save, load, run}
use llm_stack.Server.Disk.Laws.{Crashed, save-load}

abbrev stringify : Json → Text
stringify v = []

-- Turns t1 and t2 of the sessions s1 and s2, and a chunk for s1.
abbrev two_turns : Acp
two_turns =
    begin_prompt (codes "s2") (codes "t2") false
      (begin_prompt (codes "s1") (codes "t1") true started)

abbrev chunk : Json
chunk = obj (
    field (codes "method") (str (codes "session/update")) (
      field (codes "params")
        (obj (
          field (codes "sessionId") (str (codes "s1")) (
            field (codes "update")
              (obj (
                field (codes "sessionUpdate") (str (codes "agent_message_chunk")) (
                  field (codes "content")
                    (obj (
                      field (codes "type") (str (codes "text"))
                        (field (codes "text") (str (codes "hi")) end)))
                    end)))
              end)))
        end))

abbrev or_state : Acp → Result Acp → Acp
or_state s throws = s
or_state s (ok t) = t

abbrev after_chunk : Acp
after_chunk = or_state two_turns (on_message (codes "pi") stringify chunk two_turns)

chunk-read : on_message (codes "pi") stringify chunk two_turns ≡ ok after_chunk
unfolding on_message on_session_update note_call listen begin_prompt on_update act add_chunk prop
    get put text_beq to_text Rpc.request decimal
chunk-read = refl

chunk-addressed : addressed chunk ≢ ok (some (str (codes "s2")))
unfolding addressed prop get text_beq
chunk-addressed e = ground arith

on_message-elsewhere_example :
    (get (codes "s2") after_chunk.updates ≡ get (codes "s2") two_turns.updates)
    × (get (codes "s2") after_chunk.permissions ≡ get (codes "s2") two_turns.permissions)
on_message-elsewhere_example =
    on_message-elsewhere (codes "pi") stringify chunk two_turns after_chunk (codes "s2") chunk-read
      chunk-addressed

s2-idle : get (codes "s2") (begin_prompt (codes "s1") (codes "t1") true started).updates ≡ none
unfolding begin_prompt get put text_beq
s2-idle = refl

s1-idle : get (codes "s1") started.updates ≡ none
unfolding get
s1-idle = refl

after_chunk-Reachable : Reachable (codes "pi") stringify after_chunk
after_chunk-Reachable =
    next
      (next (next here (begins (codes "s1") (codes "t1") true s1-idle refl))
        (begins (codes "s2") (codes "t2") false s2-idle refl))
      (reads chunk chunk-read)

-- The session s1 asks for a permission; the turn t1 listens to it.
abbrev asks_to_run : Json
asks_to_run = obj (
    field (codes "id") (num (codes "7")) (
      field (codes "method") (str (codes "session/request_permission")) (
        field (codes "params")
          (obj (
            field (codes "sessionId") (str (codes "s1"))
              (field (codes "toolCall") (obj (field (codes "title") (str (codes "ls")) end)) end)))
          end)))

abbrev after_ask : Acp
after_ask = or_state after_chunk (on_message (codes "pi") stringify asks_to_run after_chunk)

asks-method :
    prop (codes "method") asks_to_run ≡ ok (some (str (codes "session/request_permission")))
unfolding prop get text_beq
asks-method = refl

asks-addressed : addressed asks_to_run ≡ ok (some (str (codes "s1")))
unfolding addressed prop get text_beq
asks-addressed = refl

asks_read : on_message (codes "pi") stringify asks_to_run after_chunk ≡ ok after_ask
unfolding on_message on_permission_request ask_user called shown_text merge on_session_update
    note_call listen begin_prompt on_update act add_chunk prop get put text_beq to_text tool_text
    input_text Rpc.request decimal join
asks_read = refl

turns_apart_example :
    IsToldBy (get (codes "s1") after_chunk.updates)
    × Routed after_chunk after_ask (asked_of (get (codes "s1") after_chunk.updates))
turns_apart_example =
    turns_apart (codes "pi") stringify after_chunk after_ask asks_to_run (codes "s1")
      after_chunk-Reachable asks-method asks-addressed asks_read

-- Chats of the native path: one with two session files, one that has a session, one without files.
abbrev dirs : Text → Option (List File)
dirs k =
    if text_beq k (codes "new")
    then some (
        record { name = codes "old.jsonl"; mtime = 1; has_stat = true }
        ∷ record { name = codes "late.jsonl"; mtime = 2; has_stat = true }
        ∷ [])
    else none

abbrev path : Text → Text → Text
path k f = k ++ (codes "/" ++ f)

abbrev before : Files
before = record { map_file = (codes "known", codes "s1") ∷ []; store_file = [] }

abbrev keys : List Text
keys = codes "known" ∷ codes "new" ∷ codes "empty" ∷ []

abbrev or_before : Result Files → Files
or_before throws = before
or_before (ok f) = f

abbrev after : Files
after = or_before (migrate path dirs (some keys) before)

migrated : migrate path dirs (some keys) before ≡ ok after
unfolding migrate migrate_keys migrate_key newest newest_first insert_newer get put text_beq
migrated = refl

migrate_lem_example :
    ((k : Text) → Fate path dirs k before after)
    × All (IsSettled path dirs after.map_file) keys
    × (migrate path dirs (some keys) after ≡ ok after)
migrate_lem_example = migrate_lem path dirs keys before after migrated

abbrev hermes_env : Env
hermes_env = record {
  runtime = some (codes "hermes");
  home = none;
  api_key = some (codes "key");
  protocol = some (codes "acp");
  model_name = none;
  port = none;
  timeout_seconds = none;
  cwd = none;
}

abbrev hermes_settings : Settings
hermes_settings = record {
  api_key = codes "key";
  history_path = codes "/opt/data/home/agent-turns.json";
  timeout_seconds = codes "300";
  model = codes "hermes-agent";
  interactive = true;
  port = codes "8642";
  backend_file = codes "./acp.mjs";
  home = codes "/opt/data/home";
  cwd = codes "/work";
  runtime = codes "hermes";
}

hermes_starts : start hermes_env ≡ serves hermes_settings
unfolding start start_with text_beq
hermes_starts = refl

acp_has_command_example :
    (effects : List Launch.Effect) × (l : Launch.Launch) × (start_acp path stringify
        (codes "/app")
        (codes "/root")
        []
        hermes_settings.home
        hermes_settings.cwd
        hermes_settings.runtime
      ≡ Launch.launches effects l)
    × (l.cwd ≡ hermes_settings.cwd)
acp_has_command_example =
    acp_has_command path stringify (codes "/app") (codes "/root") hermes_env [] hermes_settings
      hermes_starts refl

-- A number of one digit, and its text.
abbrev digit : Text → Option ℕ
digit (c ∷ []) = some c
digit _ = none

abbrev print : ℕ → Text
print n = n ∷ []

save-load_example :
    (load digit 0 (some (codes "f")) (run (save (some (codes "f")) (print 7)) []) ≡ 7)
    × ((after : _)
        → Crashed (save (some (codes "f")) (print 7)) [] after
        → (load digit 0 (some (codes "f")) after ≡ 7)
          ⊎ (load digit 0 (some (codes "f")) after ≡ load digit 0 (some (codes "f")) []))
save-load_example = save-load digit print 0 7 refl (codes "f") []
