-- ===== src/Dsh.antt =====
-- agent-adapter/dsh.mjs: the launch token that `dsh web` prints, and what is logged of its lines.
pub mod Launch
pub mod Laws
use llm_stack.Base.{
  ℕ, zero, suc, Bool, true, false, not, ◌&&◌, ◌||◌, List, [], ◌∷◌, ◌++◌, Option, none, some, Text,
  codes, ◌==◌, nat_eq, is_space, drop, if◌then◌else◌,
}

-- A character that [^&\s)] does not match.
abbrev pub is_stop : ℕ → Bool
is_stop c = c == 38 || is_space c || c == 41

-- Whether a text starts with the given one, and one character more that is no stop.
unfoldable pub matches : Text → Text → Bool
matches [] [] = false
matches [] (c ∷ _) = not (is_stop c)
matches (p ∷ ps) [] = false
matches (p ∷ ps) (c ∷ s) = p == c && matches ps s

-- [^&\s)]+ from the start on
unfoldable pub until_stop : Text → Text
until_stop [] = []
until_stop (c ∷ s) = let more = until_stop s in if is_stop c then [] else c ∷ more

abbrev pub token_is : Text
token_is = codes "token="

-- line.match(/[?&]token=([^&\s)]+)/), its first group
unfoldable pub token_of : Text → Option Text
unfolding matches until_stop
token_of [] = none
token_of (c ∷ s) =
    let later = token_of s in
    if (c == 63 || c == 38) && matches token_is s then some (until_stop (drop 6 s)) else later

-- Where the replacement stands: between matches, or in one, of whose "token=" so many are to come.
pub data Mode : Type 0 where
  between : Mode
  within : ℕ → Mode

pub redact_from : Mode → Text → Text
unfolding matches
redact_from _ [] = []
redact_from between (c ∷ s) =
    let masked = redact_from (within 5) s in
    let kept = redact_from between s in
    if matches token_is (c ∷ s) then codes "token=***" ++ masked else c ∷ kept
redact_from (within (suc n)) (c ∷ s) = redact_from (within n) s
redact_from (within zero) (c ∷ s) =
    let masked = redact_from (within zero) s in
    let kept = redact_from between s in if is_stop c then c ∷ kept else masked

-- line.replace(/token=[^&\s)]+/g, 'token=***')
pub redact : Text → Text
unfolding redact_from
redact = redact_from between
