-- ===== src/Acp/Migrate.antt =====
-- agent-adapter/acp.mjs: `migratePiSessions`, which hands the chats of the native pi path to pi-acp.
pub mod Laws
use llm_stack.Js.{Result, throws, ok, ◌>>=◌}
use llm_stack.Base.{
  any, ◌&&◌, ℕ, ◌≡◌, Bool, true, false, not, List, [], ◌∷◌, ◌++◌, Option, none, some, Text, codes,
  Map, get, put, ◌==◌, text_eq, text_beq, is_empty, filter, length, drop, ltb, ◌-◌, if◌then◌else◌,
}

-- A file of a chat's directory, with its time of change, and whether statSync can read it.
pub record File : Type 0 where
  pub name : Text
  pub mtime : ℕ
  pub has_stat : Bool

-- An entry of pi-acp's session map, without its directory and time.
pub record Stored : Type 0 where
  pub session_id : Text
  pub session_file : Text

-- The chat map and pi-acp's store, and whether they are to be written.
pub record Maps : Type 0 where
  pub map : Map Text Text
  pub store : Map Text Stored
  pub changed : Bool

-- f.endsWith('.jsonl')
abbrev pub is_session : File → Bool
is_session f = text_beq (drop (length f.name - 6) f.name) (codes ".jsonl")

-- .sort((a, b) => mtime(b) - mtime(a)), which is stable: an equal file stays behind.
unfoldable pub insert_newer : File → List File → List File
insert_newer f [] = f ∷ []
insert_newer f (g ∷ gs) = if ltb f.mtime g.mtime then g ∷ insert_newer f gs else f ∷ g ∷ gs

unfoldable pub newest_first : List File → List File
unfolding insert_newer
newest_first [] = []
newest_first (f ∷ fs) = insert_newer f (newest_first fs)

abbrev pub first_of : List File → Option File
first_of [] = none
first_of (f ∷ fs) = some f

-- Two files or more are compared, each of them at least once.
abbrev pub compares : List File → Bool
compares [] = false
compares (f ∷ []) = false
compares (f ∷ g ∷ fs) = true

-- A comparison throws where statSync does.
abbrev pub sorted : List File → Result (List File)
sorted fs =
    if compares fs && any (λ (f : File). not f.has_stat) fs then throws else ok (newest_first fs)

unfoldable pub newest : List File → Result (Option File)
unfolding newest_first
newest fs = do gs ← sorted (filter is_session fs); ok (first_of gs)

-- `native-${key}`
abbrev pub native : Text → Text
native key = codes "native-" ++ key

-- `map[key]`, which counts as missing where it is empty.
abbrev pub is_mapped : Option Text → Bool
is_mapped none = false
is_mapped (some id) = not (is_empty id)

abbrev pub hand_over : (Text → Text → Text) → Text → Maps → Option File → Maps
hand_over path key m none = m
hand_over path key m (some f) = record {
  map = put key (native key) m.map;
  store =
      put (native key) (record { session_id = native key; session_file = path key f.name }) m.store;
  changed = true;
}

abbrev pub files_of : Option (List File) → Result (Option File)
files_of none = ok none
files_of (some fs) = newest fs

-- The body of the loop. `dirs` reads a chat's directory, none where it is none; `path` joins.
unfoldable pub migrate_key :
    (Text → Text → Text) → (Text → Option (List File)) → Text → Maps → Result Maps
unfolding newest
migrate_key path dirs key m =
    let handed = (do f ← files_of (dirs key); ok (hand_over path key m f)) in
    if is_mapped (get key m.map) then ok m else handed

unfoldable pub migrate_keys :
    (Text → Text → Text) → (Text → Option (List File)) → List Text → Maps → Result Maps
unfolding migrate_key
migrate_keys path dirs [] m = ok m
migrate_keys path dirs (k ∷ ks) m = do n ← migrate_key path dirs k m; migrate_keys path dirs ks n

-- The two files before and after: they are written only where something has changed.
pub record Files : Type 0 where
  pub map_file : Map Text Text
  pub store_file : Map Text Stored

abbrev pub written : Files → Maps → Files
written f m = if m.changed then record { map_file = m.map; store_file = m.store } else f

-- `keys`: what readdir gives of pi-sessions, or none. Where it throws, nothing has been written.
unfoldable pub migrate :
    (Text → Text → Text) → (Text → Option (List File)) → Option (List Text) → Files → Result Files
unfolding migrate_keys
migrate path dirs none f = ok f
migrate path dirs (some keys) f = do
  m ←
      migrate_keys path dirs keys
        (record { map = f.map_file; store = f.store_file; changed = false })
  ok (written f m)
