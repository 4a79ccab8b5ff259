-- ===== src/Acp/ToolText.antt =====
-- agent-adapter/acp.mjs: `toolText` and `inputText`, what the user is shown of a tool call.
use llm_stack.Base.{
  ◌&&◌, List, [], ◌∷◌, ◌++◌, Option, none, some, Text, codes, join, take, if◌then◌else◌,
}
use llm_stack.Js.{
  Json, str, arr, obj, items, Result, ok, throws, ◌>>=◌, prop, prop_within, is_str, truthy,
  template,
}
use llm_stack.Server.Keys.{join_part}

-- `tc.content || []` as a loop walks it: the characters of a string have no `type`.
abbrev blocks : Option Json → Result (List Json)
blocks (some (arr xs)) = ok (items xs)
blocks (some (str s)) = ok []
blocks v = if truthy v then throws else ok []

-- What one block of a tool call adds to `parts`.
tool_part : Json → Result (List Text)
tool_part c = do
  type ← prop (codes "type") c
  content ← prop (codes "content") c
  inner ← prop_within (codes "type") content
  if is_str (codes "content") type && is_str (codes "text") inner
      then (do found ← prop_within (codes "text") content; t ← join_part found; ok (t ∷ []))
      else if is_str (codes "diff") type
      then (do path ← prop (codes "path") c; t ← template path; ok ((codes "diff: " ++ t) ∷ []))
      else if is_str (codes "terminal") type
      then (do
        id ← prop (codes "terminalId") c
        t ← template id
        ok ((codes "terminal: " ++ t) ∷ []))
      else ok []

tool_parts : List Json → Result (List Text)
tool_parts [] = ok []
tool_parts (c ∷ cs) = do part ← tool_part c; rest ← tool_parts cs; ok (part ++ rest)

unfoldable pub tool_text : Json → Result Text
unfolding tool_part tool_parts
tool_text tc = do
  content ← prop (codes "content") tc
  cs ← blocks content
  parts ← tool_parts cs
  ok (join (codes "\n") parts)

-- `stringify` is JSON.stringify.
abbrev command_or : (Json → Text) → Json → Option Json → Text
command_or stringify input (some (str s)) = codes "$ " ++ s
command_or stringify input _ = take 2000 (stringify input)

unfoldable pub input_text : (Json → Text) → Option Json → Result Text
input_text stringify (some (obj fs)) = do
  command ← prop (codes "command") (obj fs)
  ok (command_or stringify (obj fs) command)
input_text stringify (some (arr xs)) = ok (command_or stringify (arr xs) none)
input_text stringify _ = ok []
