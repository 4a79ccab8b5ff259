-- ===== src/Server/History/Laws.antt =====
-- `continues` decides whether the received prompts are a subsequence of the earlier messages.
use mathlib.Core.List.{Sublistᴰ}
use llm_stack.Base.{
  ℕ, suc, ◌≡◌, refl, ◌↔◌, true, false, List, [], ◌∷◌, ◌++◌, map, Text, length, ◌==◌, text_eq,
  text_beq_iff, nat_beq_iff, Bool-cases, inl, inr, arith, ◌≤◌,
}
use llm_stack.Server.Keys.{Node, prompt_hash}
use llm_stack.Server.History.{matched, continues}

-- One received prompt more in front, and the index behind it.
matched-cons :
    (r : Text) (rs : List Text) (i : ℕ) (hs : List Text)
    → matched (r ∷ rs) (suc i) hs ≡ suc (matched rs i hs)
unfolding matched
matched-cons r rs i [] = refl
matched-cons r rs i (h ∷ hs) = ground (arith, matched-cons r rs i hs, matched-cons r rs (suc i) hs)

matched-nil : (hs : List Text) → matched [] 0 hs ≡ 0
unfolding matched
matched-nil [] = refl
matched-nil (h ∷ hs) = matched-nil hs

matched_step :
    (r : Text) (rs : List Text) (h : Text) (hs : List Text)
    → matched (r ∷ rs) 0 (h ∷ hs)
      ≡ elim (r == h) [ true ↦ suc (matched rs 0 hs) | false ↦ matched (r ∷ rs) 0 hs ]
unfolding matched
matched_step r rs h hs = ground (arith, matched-cons r rs 0 hs)

module _ {ℓ} {A : Type ℓ} where
  pub nil-Sublistᴰ : (xs : List A) → Sublistᴰ [] xs
  nil-Sublistᴰ [] = Sublistᴰ.slnil
  nil-Sublistᴰ (x ∷ xs) = Sublistᴰ.cons (nil-Sublistᴰ xs)

  Sublistᴰ-tail : {x : A} {xs ys : List A} → Sublistᴰ (x ∷ xs) ys → Sublistᴰ xs ys
  Sublistᴰ-tail (Sublistᴰ.cons s) = Sublistᴰ.cons (Sublistᴰ-tail s)
  Sublistᴰ-tail (Sublistᴰ.cons-cons e s) = Sublistᴰ.cons s

  -- What a sublist's first element meets first can be taken for it.
  Sublistᴰ_greedy : {x y : A} {xs ys : List A} → Sublistᴰ (x ∷ xs) (y ∷ ys) → Sublistᴰ xs ys
  Sublistᴰ_greedy (Sublistᴰ.cons s) = Sublistᴰ-tail s
  Sublistᴰ_greedy (Sublistᴰ.cons-cons e s) = s

  Sublistᴰ_skip :
      {x y : A} {xs ys : List A} → ¬ (x ≡ y) → Sublistᴰ (x ∷ xs) (y ∷ ys) → Sublistᴰ (x ∷ xs) ys
  Sublistᴰ_skip ne (Sublistᴰ.cons s) = s
  Sublistᴰ_skip ne (Sublistᴰ.cons-cons e s) = absurd (ne e)

  pub Sublistᴰ-snoc :
      {xs ys : List A} (y : A) → Sublistᴰ xs ys → Sublistᴰ (xs ++ y ∷ []) (ys ++ y ∷ [])
  Sublistᴰ-snoc y Sublistᴰ.slnil = Sublistᴰ.cons-cons refl Sublistᴰ.slnil
  Sublistᴰ-snoc y (Sublistᴰ.cons s) = Sublistᴰ.cons (Sublistᴰ-snoc y s)
  Sublistᴰ-snoc y (Sublistᴰ.cons-cons e s) = Sublistᴰ.cons-cons e (Sublistᴰ-snoc y s)

  pub Sublistᴰ-append : {xs ys : List A} (zs : List A) → Sublistᴰ xs ys → Sublistᴰ xs (ys ++ zs)
  Sublistᴰ-append zs Sublistᴰ.slnil = nil-Sublistᴰ zs
  Sublistᴰ-append zs (Sublistᴰ.cons s) = Sublistᴰ.cons (Sublistᴰ-append zs s)
  Sublistᴰ-append zs (Sublistᴰ.cons-cons e s) = Sublistᴰ.cons-cons e (Sublistᴰ-append zs s)

  pub length_of_Sublistᴰ : {xs ys : List A} → Sublistᴰ xs ys → length xs ≤ length ys
  length_of_Sublistᴰ Sublistᴰ.slnil = omega arith
  length_of_Sublistᴰ (Sublistᴰ.cons s) = omega (arith, length_of_Sublistᴰ s)
  length_of_Sublistᴰ (Sublistᴰ.cons-cons e s) = omega (arith, length_of_Sublistᴰ s)

matched_iff : (rs hs : List Text) → (matched rs 0 hs ≡ length rs) ↔ Sublistᴰ rs hs
matched_iff [] hs = (λ _. nil-Sublistᴰ hs, λ _. matched-nil hs)
matched_iff (r ∷ rs) [] = (λ e. absurd (unfold matched in omega arith), λ s. elim s [ ])
matched_iff (r ∷ rs) (h ∷ hs) = elim (Bool-cases (r == h)) [
  | inl same ↦ (
    λ e.
        Sublistᴰ.cons-cons ((text_beq_iff r h).0 same)
          ((matched_iff rs hs).0 (ground (arith, matched_step r rs h hs))),
    λ s. ground (arith, matched_step r rs h hs, (matched_iff rs hs).1 (Sublistᴰ_greedy s)),
  )
  | inr other ↦ (
    λ e. Sublistᴰ.cons ((matched_iff (r ∷ rs) hs).0 (ground (arith, matched_step r rs h hs))),
    λ s. ground (
      arith,
      matched_step r rs h hs,
      (matched_iff (r ∷ rs) hs).1 (Sublistᴰ_skip (λ e. ground (arith, (text_beq_iff r h).1 e)) s),
    ),
  )
]

-- `continues` holds exactly when the received prompts are, in order, among the hashes of the
-- earlier user messages.
pub continues_iff :
    (node : Node) (received earlier : List Text)
    → (continues node received earlier ≡ true) ↔ Sublistᴰ received (map (prompt_hash node) earlier)
unfolding continues
continues_iff node received earlier =
    let (to, from) = matched_iff received (map (prompt_hash node) earlier) in
    (λ e. to ((nat_beq_iff _ _).0 e), λ s. (nat_beq_iff _ _).1 (from s))
