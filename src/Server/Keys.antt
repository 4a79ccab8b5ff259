-- ===== src/Server/Keys.antt =====
-- agent-adapter/server.mjs: which text of a request goes to the agent, and which session it
-- belongs to (lastUserText, contentText, sessionKey, chatKey, promptHash).
use mathlib.Core.List.{reverse}
use llm_stack.Base.{
  ℕ, Bool, true, ◌&&◌, ◌||◌, List, [], ◌∷◌, ◌++◌, Option, none, some, Text, codes, nat_beq, leb,
  length, take, if◌then◌else◌,
}
use llm_stack.Js.{Json, null, str, arr, items, Result, ok, ◌>>=◌, prop, is_str, to_text}

-- What the adapter takes from Node: a hash in hexadecimal digits, the UTF-8 bytes of a text, the
-- parser of a body, and the path of a request's URL, which may be refused as invalid.
pub record Node : Type 0 where
  pub sha256_hex : Text → Text
  pub utf8 : Text → List ℕ
  pub json_parse : List ℕ → Option Json
  pub url_path : Text → Option Text

-- contentText: the text parts of a message's content.
text_parts : List Json → Result (List Json)
text_parts [] = ok []
text_parts (p ∷ ps) = do
  type ← prop (codes "type") p
  rest ← text_parts ps
  ok (if is_str (codes "text") type then p ∷ rest else rest)

-- `p.text` as `join('')` prints it: nothing for undefined and null.
abbrev pub join_part : Option Json → Result Text
join_part none = ok []
join_part (some null) = ok []
join_part (some v) = to_text v

join_parts : List Json → Result Text
join_parts [] = ok []
join_parts (p ∷ ps) = do
  found ← prop (codes "text") p
  t ← join_part found
  rest ← join_parts ps
  ok (t ++ rest)

pub content_text : Option Json → Result Text
unfolding text_parts join_parts
content_text (some (str s)) = ok s
content_text (some (arr xs)) = do ps ← text_parts (items xs); join_parts ps
content_text _ = ok []

-- The loop of lastUserText, over the messages from the last to the first.
last_user_from : List Json → Result Text
last_user_from [] = ok []
last_user_from (m ∷ ms) =
    let rest = last_user_from ms in
    (do
      role ← prop (codes "role") m
      if is_str (codes "user") role
          then (do content ← prop (codes "content") m; content_text content)
          else rest)

pub last_user_text : List Json → Result Text
unfolding last_user_from content_text
last_user_text messages = last_user_from (reverse messages)

-- messages.find((m) => m.role === 'user')
find_user : List Json → Result (Option Json)
find_user [] = ok none
find_user (m ∷ ms) =
    let rest = find_user ms in
    (do role ← prop (codes "role") m; if is_str (codes "user") role then ok (some m) else rest)

-- [A-Za-z0-9_-]
unfoldable pub is_key_char : ℕ → Bool
is_key_char c =
    (leb b'A' c && leb c b'Z')
    || (leb b'a' c && leb c b'z')
    || (leb b'0' c && leb c b'9')
    || nat_beq c b'_'
    || nat_beq c b'-'

all_key_chars : Text → Bool
all_key_chars [] = true
all_key_chars (c ∷ s) = is_key_char c && all_key_chars s

-- /^[A-Za-z0-9_-]{1,128}$/
pub matches_key : Text → Bool
unfolding all_key_chars is_key_char
matches_key s = leb 1 (length s) && leb (length s) 128 && all_key_chars s

pub hash_key : Node → Text → Text
hash_key node s = codes "h-" ++ take 32 (node.sha256_hex s)

-- The text that sessionKey hashes where the header names no chat.
first_user_text : Option Json → Result Text
first_user_text none = ok []
first_user_text (some m) = do content ← prop (codes "content") m; content_text content

pub session_key : Node → Option Text → List Json → Result Text
unfolding find_user first_user_text hash_key matches_key content_text
session_key node header messages = elim header [
  | none ↦ hashed
  | some chat ↦ if matches_key chat then ok chat else hashed
]
  where
    hashed : Result Text
    hashed = do first ← find_user messages; t ← first_user_text first; ok (hash_key node t)

abbrev first_of_users : List Text → Text
first_of_users [] = []
first_of_users (u ∷ us) = u

abbrev keyed : Node → Option Json → Text → Text
keyed node (some (str s)) first = if matches_key s then s else hash_key node first
keyed node _ first = hash_key node first

pub chat_key : Node → Option Json → List Text → Text
unfolding hash_key matches_key
chat_key node chat_id users = keyed node chat_id (first_of_users users)

unfoldable pub prompt_hash : Node → Text → Text
prompt_hash node s = take 16 (node.sha256_hex s)
