-- ===== src/Web/Pages/Laws.antt =====
-- Paging stays in its bounds, and what arrives is the page that is shown.
use llm_stack.Base.{
  ℕ, ◌-◌, ◌*◌, ◌/◌, ◌<◌, ◌≡◌, ◌⊎◌, inl, inr, refl, sym, subst, true, false, List, [], ◌∷◌, arith,
}
use llm_stack.Web.Pages.{
  pages_of, sessions_page_size, Sessions, fails, answers, ask, turn_to, without, receive, waits_for,
  Step, back, on, replied, Reachable, here, next,
}

-- Each row stands on one of the pages, and no page but a single one is empty.
pub pages_cover :
    (total i : ℕ)
    → (i < total → i / sessions_page_size < pages_of sessions_page_size total)
      × (1 < pages_of sessions_page_size total
          → (pages_of sessions_page_size total - 1) * sessions_page_size < total)
pages_cover total i = ((λ h. omega (arith, h)), (λ h. omega (arith, h)))

-- The panel waits for the page that it shows, or for none.
Settled : Sessions → Type 0
Settled s = (s.loading ≡ true × s.requests ≡ s.page ∷ []) ⊎ (s.loading ≡ false × s.requests ≡ [])

without-only :
    (p q : ℕ) (qs : List ℕ) → qs ≡ q ∷ [] → waits_for p qs ≡ true → (without p qs ≡ []) × (p ≡ q)
without-only p q [] h there = absurd (ground arith)
without-only p q (r ∷ []) h there = (ground (arith, there), ground (arith, h, there))
without-only p q (r ∷ x ∷ xs) h there = absurd (ground arith)

Step-Settled : (s t : Sessions) → Step s t → Settled s → Settled t
unfolding Settled turn_to ask receive
Step-Settled s t (back can e) (inl (w, r)) = absurd (ground (arith, can, w))
Step-Settled s t (back can e) (inr (w, r)) = subst Settled (sym e) (inl (refl, rw r refl))
Step-Settled s t (on can e) (inl (w, r)) = absurd (ground (arith, can, w))
Step-Settled s t (on can e) (inr (w, r)) = subst Settled (sym e) (inl (refl, rw r refl))
Step-Settled s t (replied p fails there e) (inl (w, r)) =
    subst Settled (sym e) (inr (refl, (without-only p s.page s.requests r there).0))
Step-Settled s t (replied p (answers found n) there e) (inl (w, r)) =
    subst Settled (sym e) (inr (refl, (without-only p s.page s.requests r there).0))
Step-Settled s t (replied p q there e) (inr (w, r)) = absurd (ground (arith, there, r))

Reachable-Settled : (s : Sessions) → Reachable s → Settled s
unfolding Settled
Reachable-Settled s here = inl (refl, refl)
Reachable-Settled t (next {s} r step) = Step-Settled s t step (Reachable-Settled s r)

-- A reply that arrives, however the clicks and replies have come before, is for the page that the
-- panel shows; the panel is loading until then, and no other request is in flight.
pub reply_for_page :
    (s : Sessions) (p : ℕ)
    → Reachable s
    → waits_for p s.requests ≡ true
    → (p ≡ s.page) × (s.loading ≡ true) × (s.requests ≡ p ∷ [])
unfolding Settled
reply_for_page s p reached there = go (Reachable-Settled s reached)
  where
    go : Settled s → (p ≡ s.page) × (s.loading ≡ true) × (s.requests ≡ p ∷ [])
    go (inl (w, r)) =
        let same = (without-only p s.page s.requests r there).1 in
        (same, w, subst (λ q. s.requests ≡ q ∷ []) (sym same) r)
    go (inr (w, r)) = absurd (ground (arith, there, r))
