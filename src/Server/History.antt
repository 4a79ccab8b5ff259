-- ===== src/Server/History.antt =====
-- agent-adapter/server.mjs: `continues`, which compares the prompts that an agent session has
-- received with the earlier user messages of the chat.
pub mod Laws
use llm_stack.Base.{
  ℕ, zero, suc, Bool, List, [], ◌∷◌, map, Option, none, some, Text, nat_beq, ltb, length, ◌==◌,
  text_eq, if◌then◌else◌, ◌&&◌, false,
}
use llm_stack.Server.Keys.{Node, prompt_hash}

abbrev pub get_elem? {ℓ} : {A : Type ℓ} → List A → ℕ → Option A
get_elem? [] i = none
get_elem? (x ∷ xs) zero = some x
get_elem? (x ∷ xs) (suc i) = get_elem? xs i

-- `received[i] === h`
abbrev is_at : List Text → ℕ → Text → Bool
is_at received i h = elim (get_elem? received i) [ none ↦ false | some r ↦ r == h ]

-- The loop, and the value of `i` behind it.
unfoldable pub matched : List Text → ℕ → List Text → ℕ
matched received i [] = i
matched received i (h ∷ hs) =
    matched received (if ltb i (length received) && is_at received i h then suc i else i) hs

unfoldable pub continues : Node → List Text → List Text → Bool
unfolding matched prompt_hash
continues node received earlier =
    nat_beq (matched received 0 (map (prompt_hash node) earlier)) (length received)
