-- ===== src/Dsh/Laws.antt =====
-- What is logged of a line that has the launch token of `dsh web`.
use mathlib.Core.List.{append_assoc}
use llm_stack.Base.{
  ℕ, zero, suc, ◌+◌, ◌≤◌, ◌<◌, ◌≡◌, ◌∙◌, refl, sym, ap, subst, true, false, ◌&&◌, ◌||◌, [], ◌∷◌,
  ◌++◌, some, Text, codes, All, length, length-append, drop, ◌==◌, nat_eq, eq_of, if◌then◌else◌,
  arith, Bool-cases, inl, inr, if_ind,
}
use llm_stack.Dsh.{
  is_stop, matches, until_stop, token_is, token_of, Mode, between, within, redact_from, redact,
}

-- A text that [^&\s)]+ matches as a whole.
abbrev pub IsToken : Text → Type 0
IsToken [] = ⊥
IsToken (c ∷ s) = All (λ d. is_stop d ≡ false) (c ∷ s)

token-All : (s : Text) → IsToken s → All (λ d. is_stop d ≡ false) s
token-All [] h = tt
token-All (c ∷ s) h = h

-- The test reads one character beyond the given text.
matches_local : (ps q x y : Text) → length ps < length q → matches ps (q ++ x) ≡ matches ps (q ++ y)
unfolding matches
matches_local [] [] x y h = absurd (omega (arith, h))
matches_local [] (c ∷ q) x y h = refl
matches_local (p ∷ ps) [] x y h = absurd (omega (arith, h))
matches_local (p ∷ ps) (c ∷ q) x y h =
    ap (λ b. p == c && b) (matches_local ps q x y (omega (arith, h)))

-- What is left of "token=", and a text without a stop, are masked.
masks :
    (n : ℕ) (q post : Text)
    → n ≤ length q
    → All (λ d. is_stop d ≡ false) q
    → redact_from (within n) (q ++ post) ≡ redact_from (within 0) post
unfolding redact_from
masks zero [] post h k = refl
masks (suc n) [] post h k = absurd (omega (arith, h))
masks zero (c ∷ q) post h k = rw k.0 (masks zero q post (omega arith) k.1)
masks (suc n) (c ∷ q) post h k = masks n q post (omega (arith, h)) k.1

Fits : Mode → Text → Type 0
Fits between pre = Unit
Fits (within n) pre = n ≤ length pre + 6

masks_token :
    (x post : Text)
    → IsToken x
    → redact_from between (token_is ++ (x ++ post))
      ≡ codes "token=***" ++ redact_from (within 0) post
unfolding redact_from matches
masks_token [] post h = absurd h
masks_token (c ∷ x) post h =
    rw h.0 (ap (λ r. codes "token=***" ++ r) (masks 0 x post (omega arith) h.1))

same_test :
    (c : ℕ) (pre x y : Text)
    → matches token_is (c ∷ (pre ++ (token_is ++ x)))
      ≡ matches token_is (c ∷ (pre ++ (token_is ++ y)))
same_test c pre x y =
    ap (λ s. matches token_is (c ∷ s)) (sym (append_assoc pre token_is x))
    ∙ (matches_local token_is (c ∷ (pre ++ token_is)) x y
          (omega (arith, length-append pre token_is))
        ∙ ap (λ s. matches token_is (c ∷ s)) (append_assoc pre token_is y))

hides :
    (m : Mode) (pre x y post : Text)
    → Fits m pre
    → IsToken x
    → IsToken y
    → redact_from m (pre ++ (token_is ++ (x ++ post)))
      ≡ redact_from m (pre ++ (token_is ++ (y ++ post)))
unfolding redact_from Fits
hides between [] x y post f h k = masks_token x post h ∙ sym (masks_token y post k)
hides (within n) [] x y post f h k =
    masks n (token_is ++ x) post (omega (arith, f, length-append token_is x)) (masked x h)
    ∙ sym (masks n (token_is ++ y) post (omega (arith, f, length-append token_is y)) (masked y k))
  where
    masked : (s : Text) → IsToken s → All (λ d. is_stop d ≡ false) (token_is ++ s)
    masked s h = (refl, (refl, (refl, (refl, (refl, (refl, token-All s h))))))
hides between (c ∷ pre) x y post f h k =
    elim (Bool-cases (matches token_is (c ∷ (pre ++ (token_is ++ (x ++ post)))))) [
      | inl is ↦
          rw (is, sym (same_test c pre (x ++ post) (y ++ post)) ∙ is)
            (ap (λ r. codes "token=***" ++ r) (hides (within 5) pre x y post (omega arith) h k))
      | inr other ↦
          rw (other, sym (same_test c pre (x ++ post) (y ++ post)) ∙ other)
            (ap (◌∷◌ c) (hides between pre x y post tt h k))
    ]
hides (within (suc n)) (c ∷ pre) x y post f h k =
    hides (within n) pre x y post (omega (arith, f)) h k
hides (within zero) (c ∷ pre) x y post f h k = elim (Bool-cases (is_stop c)) [
  | inl is ↦ rw is (ap (◌∷◌ c) (hides between pre x y post tt h k))
  | inr not_stop ↦ rw not_stop (hides (within zero) pre x y post (omega arith) h k)
]

until_stop-All : (s : Text) → All (λ d. is_stop d ≡ false) (until_stop s)
unfolding until_stop
until_stop-All [] = tt
until_stop-All (c ∷ s) =
    if_ind (All (λ d. is_stop d ≡ false)) (is_stop c) [] (c ∷ until_stop s) (λ _. tt)
      (λ other. (other, until_stop-All s))

-- What follows it.
from_stop : Text → Text
from_stop [] = []
from_stop (c ∷ s) = let more = from_stop s in if is_stop c then c ∷ s else more

until_stop-from_stop : (s : Text) → s ≡ until_stop s ++ from_stop s
unfolding until_stop from_stop
until_stop-from_stop [] = refl
until_stop-from_stop (c ∷ s) = elim (Bool-cases (is_stop c)) [
  | inl is ↦ rw is refl
  | inr other ↦ rw other (ap (◌∷◌ c) (until_stop-from_stop s))
]

matches-drop :
    (ps s : Text)
    → matches ps s ≡ true
    → (s ≡ ps ++ drop (length ps) s) × IsToken (until_stop (drop (length ps) s))
unfolding matches until_stop
matches-drop [] [] h = absurd (ground arith)
matches-drop [] (c ∷ s) h =
    let other : is_stop c ≡ false = ground arith in (refl, rw other (other, until_stop-All s))
matches-drop (p ∷ ps) [] h = absurd (ground arith)
matches-drop (p ∷ ps) (c ∷ s) h =
    let more = matches-drop ps s (ground arith) in
    (ap (λ x. x ∷ s) (sym (eq_of p c (ground arith))) ∙ ap (◌∷◌ p) more.0, more.1)

-- Where the adapter finds a token.
Found : Text → Text → Type 0
Found line token =
    (pre : Text) × (post : Text) × (line ≡ pre ++ (token_is ++ (token ++ post))) × IsToken token

token_of-Found : (line token : Text) → token_of line ≡ some token → Found line token
unfolding token_of Found
token_of-Found [] token e = absurd (ground arith)
token_of-Found (c ∷ s) token e =
    if_ind (λ o. o ≡ some token → Found (c ∷ s) token) ((c == 63 || c == 38) && matches token_is s)
      _ (token_of s)
      (λ is e.
        let (at, fine) = matches-drop token_is s (ground arith) in
        let it : until_stop (drop 6 s) ≡ token = ground arith in
        (
          c ∷ [],
          from_stop (drop 6 s),
          ap (◌∷◌ c) (
              at
              ∙ ap (λ r. token_is ++ r)
                  (until_stop-from_stop (drop 6 s) ∙ ap (λ t. t ++ from_stop (drop 6 s)) it)),
          subst IsToken it fine,
        ))
      (λ _ e.
        let (pre, post, at, fine) = token_of-Found s token e in
        (c ∷ pre, post, ap (◌∷◌ c) at, fine))
      e

-- Where the adapter finds a token in a line, the token stands after "token=", and what is logged of
-- the line does not depend on it: it is the same for any other text, of any length, that could
-- stand there as a token.
pub redact_conceals :
    (line token : Text)
    → token_of line ≡ some token
    → (pre : Text) × (post : Text) × (line ≡ pre ++ (token_is ++ (token ++ post)))
      × ((other : Text)
          → IsToken other
          → redact line ≡ redact (pre ++ (token_is ++ (other ++ post))))
unfolding redact Found Fits
redact_conceals line token e =
    let (pre, post, at, fine) = token_of-Found line token e in
    (pre, post, at, (λ other k. ap redact at ∙ hides between pre token other post tt fine k))
