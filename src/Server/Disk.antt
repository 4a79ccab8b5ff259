-- ===== src/Server/Disk.antt =====
-- agent-adapter/server.mjs: how the history is read at the start and saved, `load` and
-- `saveHistory`. acp.mjs and opencode.mjs keep their session maps in the same way.
pub mod Laws
use llm_stack.Base.{
  List, [], ◌∷◌, ◌++◌, Option, none, some, Text, codes, Map, get, put, delete, text_eq, get_or,
}

-- Path by path, what the files hold.
abbrev pub Files : Type 0
Files = Map Text Text

pub data Op : Type 0 where
  writes : Text → Text → Op
  renames : Text → Text → Op

abbrev moved : Text → Text → Files → Option Text → Files
moved from to files none = files
moved from to files (some t) = delete from (put to t files)

abbrev pub apply : Op → Files → Files
apply (writes path t) files = put path t files
apply (renames from to) files = moved from to files (get from files)

unfoldable pub run : List Op → Files → Files
run [] files = files
run (op ∷ ops) files = run ops (apply op files)

abbrev pub temporary : Text → Text
temporary path = path ++ codes ".tmp"

-- The calls of `saveHistory`, for the path if there is one.
abbrev pub save : Option Text → Text → List Op
save none t = []
save (some path) t = writes (temporary path) t ∷ renames (temporary path) path ∷ []

-- `parse` is JSON.parse, none where it throws; `fresh` is {}.
module _ {A : Type 0} (parse : Text → Option A) (fresh : A) where
  abbrev read : Option Text → A
  read none = fresh
  read (some t) = get_or (parse t) fresh

  abbrev pub load : Option Text → Files → A
  load none files = fresh
  load (some path) files = read (get path files)
