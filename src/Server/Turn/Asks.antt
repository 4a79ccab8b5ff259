-- ===== src/Server/Turn/Asks.antt =====
-- The keys of the pending permission requests: `${turn}/${request}` names one request of one turn.
use llm_stack.Base.{
  ℕ, ◌≡◌, ◌≤◌, ◌<◌, refl, subst, [], ◌∷◌, ◌++◌, Text, codes, All, arith, decimal, decimal_digits,
  decimal-injective,
}
use llm_stack.Server.Turn.{NoSlash, ask_key}

split-NoSlash : (s r : Text) → NoSlash (s ++ b'/' ∷ r) → ⊥
split-NoSlash [] r h = h.0 refl
split-NoSlash (c ∷ s) r h = split-NoSlash s r h.1

-- A text with one slash is split at a slash in one way only.
pub slash-injective :
    (s r a b : Text) → NoSlash a → NoSlash b → s ++ b'/' ∷ r ≡ a ++ b'/' ∷ b → (s ≡ a) × (r ≡ b)
slash-injective [] r [] b ha hb e = (refl, cc)
slash-injective [] r (x ∷ a) b ha hb e = absurd (ha.0 (ground arith))
slash-injective (y ∷ s) r [] b ha hb e =
    absurd (split-NoSlash s r (subst NoSlash (ground arith) hb))
slash-injective (y ∷ s) r (x ∷ a) b ha hb e =
    let (p, q) = slash-injective s r a b ha.1 hb (ground arith) in (ground arith, q)

digits-NoSlash : (s : Text) → All (λ c. (48 ≤ c) × (c < 58)) s → NoSlash s
digits-NoSlash [] h = tt
digits-NoSlash (c ∷ s) h = (λ e. omega arith, digits-NoSlash s h.1)

pub decimal-NoSlash : (n : ℕ) → NoSlash (decimal n)
decimal-NoSlash n = digits-NoSlash (decimal n) (decimal_digits n)

-- The texts of a body's `turn` and `request` form the key of a request only if they name it.
pub ask_key_named :
    (turn request id : Text) (n : ℕ)
    → NoSlash id
    → turn ++ (codes "/" ++ request) ≡ ask_key id n
    → (turn ≡ id) × (request ≡ decimal n)
unfolding ask_key
ask_key_named turn request id n h e =
    slash-injective turn request id (decimal n) h (decimal-NoSlash n) e

pub ask_key-injective :
    (i j : Text) (m n : ℕ) → NoSlash i → NoSlash j → ask_key i m ≡ ask_key j n → (i ≡ j) × (m ≡ n)
unfolding ask_key
ask_key-injective i j m n hi hj e =
    let (p, q) = slash-injective i (decimal m) j (decimal n) hj (decimal-NoSlash n) e in
    (p, decimal-injective m n q)
