-- ===== src/Opencode/Lines.antt =====
-- agent-adapter/opencode.mjs: the loop that cuts the buffer at line feeds.
use llm_stack.Base.{
  ℕ, zero, suc, ◌<◌, ◌≤◌, ◌≡◌, ◌∙◌, refl, sym, ap, true, false, List, [], ◌∷◌, ◌++◌, Option, none,
  some, Text, ◌==◌, nat_eq, length, if◌then◌else◌, arith, Bool-cases, inl, inr, if_ind,
}

abbrev pub after : ℕ → Option (Text × Text) → Option (Text × Text)
after c none = none
after c (some (before, rest)) = some (c ∷ before, rest)

-- `buf.indexOf('\n')`, with the two slices of the buffer at it.
pub cut_line : Text → Option (Text × Text)
cut_line [] = none
cut_line (c ∷ s) = let rest = cut_line s in if c == 10 then some ([], s) else after c rest

-- The loop, with its lines in order and the buffer that it leaves. Each pass takes a unit from the
-- buffer, so its length is enough fuel.
pub cut_with : ℕ → Text → List Text × Text
unfolding cut_line
cut_with zero buf = ([], buf)
cut_with (suc fuel) buf = elim (cut_line buf) [
  | none ↦ ([], buf)
  | some cut ↦ let rest = cut_with fuel cut.1 in (cut.0 ∷ rest.0, rest.1)
]

pub cut_lines : Text → List Text × Text
unfolding cut_with
cut_lines buf = cut_with (length buf) buf

-- The same in one pass from the right.
abbrev pub push_front : ℕ → List Text × Text → List Text × Text
push_front c ([], rest) = if c == 10 then ([] ∷ [], rest) else ([], c ∷ rest)
push_front c (l ∷ ls, rest) = if c == 10 then ([] ∷ l ∷ ls, rest) else ((c ∷ l) ∷ ls, rest)

abbrev pub split : Text → List Text × Text
split [] = ([], [])
split (c ∷ s) = push_front c (split s)

Splits : Text → Option (Text × Text) → Type 0
Splits s none = split s ≡ ([], s)
Splits s (some (l, rest)) =
    (split s ≡ (l ∷ (split rest).0, (split rest).1)) × (length rest < length s)

push_front-feed :
    (c : ℕ) (p : List Text × Text) → (c == 10) ≡ true → push_front c p ≡ ([] ∷ p.0, p.1)
push_front-feed c ([], rest) h = rw h refl
push_front-feed c (l ∷ ls, rest) h = rw h refl

after-Splits :
    (c : ℕ) (s : Text) (o : Option (Text × Text))
    → (c == 10) ≡ false
    → Splits s o
    → Splits (c ∷ s) (after c o)
unfolding Splits
after-Splits c s none h k = rw (k, h) refl
after-Splits c s (some (l, rest)) h k = (rw (k.0, h) refl, omega (arith, k.1))

cut_line-Splits : (s : Text) → Splits s (cut_line s)
unfolding cut_line Splits
cut_line-Splits [] = refl
cut_line-Splits (c ∷ s) =
    if_ind (Splits (c ∷ s)) (c == 10) (some ([], s)) (after c (cut_line s))
      (λ feed. (push_front-feed c (split s) feed, omega arith))
      (λ other. after-Splits c s (cut_line s) other (cut_line-Splits s))

cut_with-split : (fuel : ℕ) (s : Text) → length s ≤ fuel → cut_with fuel s ≡ split s
unfolding cut_with Splits
cut_with-split zero [] h = refl
cut_with-split zero (c ∷ s) h = absurd (ground arith)
cut_with-split (suc fuel) s h = go (cut_with-split fuel) (cut_line s) (cut_line-Splits s)
  where
    go :
        ((r : Text) → length r ≤ fuel → cut_with fuel r ≡ split r)
        → (o : Option (Text × Text)) → Splits s o
        → elim o [
          | none ↦ ([], s)
          | some cut ↦ (cut.0 ∷ (cut_with fuel cut.1).0, (cut_with fuel cut.1).1)
        ]
          ≡ split s
    go more none k = sym k
    go more (some (l, rest)) k =
        ap (λ p. (l ∷ p.0, p.1)) (more rest (omega (arith, h, k.1))) ∙ sym k.0

-- The loop ends with every line of the buffer and what follows the last line feed.
pub cut_lines-split : (s : Text) → cut_lines s ≡ split s
unfolding cut_lines
cut_lines-split s = cut_with-split (length s) s (omega arith)

-- Lines of two buffers: those of the first, then those of what it leaves with the second.
abbrev pub continued : List Text × Text → Text → List Text × Text
continued p t = let more = split (p.1 ++ t) in (p.0 ++ more.0, more.1)

push_front-continued :
    (c : ℕ) (p : List Text × Text) (t : Text)
    → push_front c (continued p t) ≡ continued (push_front c p) t
push_front-continued c (l ∷ ls, rest) t = elim (Bool-cases (c == 10)) [
  | inl h ↦ rw h refl
  | inr h ↦ rw h refl
]
push_front-continued c ([], rest) t = elim (Bool-cases (c == 10)) [
  | inl h ↦ rw h (push_front-feed c (split (rest ++ t)) h)
  | inr h ↦ rw h refl
]

pub split-append : (s t : Text) → split (s ++ t) ≡ continued (split s) t
split-append [] t = refl
split-append (c ∷ s) t = ap (push_front c) (split-append s t) ∙ push_front-continued c (split s) t

-- What is left in the buffer has no line to cut.
pub split_rest : (s : Text) → split (split s).1 ≡ ([], (split s).1)
split_rest [] = refl
split_rest (c ∷ s) = kept c (split s) (split_rest s)
  where
    kept :
        (c : ℕ) (p : List Text × Text)
        → split p.1 ≡ ([], p.1)
        → split (push_front c p).1 ≡ ([], (push_front c p).1)
    kept c (l ∷ ls, rest) h = elim (Bool-cases (c == 10)) [ inl e ↦ rw e h | inr e ↦ rw e h ]
    kept c ([], rest) h = elim (Bool-cases (c == 10)) [
      | inl e ↦ rw e h
      | inr e ↦ rw e (rw (h, e) refl)
    ]
