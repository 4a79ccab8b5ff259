-- ===== src/Consent/Answers.antt =====
-- How the client answers an ask, and by which promise.
use llm_stack.Base.{
  ℕ, zero, suc, ◌≡◌, ◌∙◌, ◌⊎◌, refl, sym, ap, subst, List, [], ◌∷◌, ◌++◌, Option, none, some,
  text_eq, nat_eq, arith, Option-cases, inl, inr,
}
use llm_stack.Js.{Json, Result, throws, ok, bind-eq-ok, ok-injective}
use llm_stack.Server.Turn.{Decision, cancel}
use llm_stack.Acp.Options.{Reply, reply_decided}
use llm_stack.Acp.Dispatch.{Acp, Ask, answers, decide, taken, answered, options_of}
use llm_stack.Consent.{
  Promise, at_once, of_turn, Link, decision_of, at_place, without, told, resolve_by, resolve_at,
  resolve,
}

-- A promise is that of the turn that the client asks; one that is resolved at once is a cancellation.
abbrev pub Of : Ask → Promise → Type 0
Of a (at_once d) = d ≡ cancel
Of a (of_turn turn r) = turn ≡ a.turn

abbrev pub Parallel : List Ask → List Promise → Type 0
Parallel [] [] = Unit
Parallel (a ∷ as') (p ∷ ps) = Of a p × Parallel as' ps
Parallel _ _ = ⊥

pub Parallel-snoc :
    (as' : List Ask) (ps : List Promise) (a : Ask) (p : Promise)
    → Parallel as' ps
    → Of a p
    → Parallel (as' ++ a ∷ []) (ps ++ p ∷ [])
Parallel-snoc [] [] a p h k = (k, tt)
Parallel-snoc (b ∷ bs) (q ∷ qs) a p (h, hs) k = (h, Parallel-snoc bs qs a p hs k)
Parallel-snoc [] (q ∷ qs) a p h k = absurd h
Parallel-snoc (b ∷ bs) [] a p h k = absurd h

pub taken-Parallel :
    (n : ℕ) (as' more : List Ask) (ps : List Promise) (a : Ask) (p : Promise)
    → taken n as' ≡ some (a, more)
    → at_place n ps ≡ some p
    → Parallel as' ps
    → Of a p × Parallel more (without n ps)
taken-Parallel n [] more ps a p e f h = absurd (ground (arith, e))
taken-Parallel n (b ∷ bs) more [] a p e f h = absurd h
taken-Parallel zero (b ∷ bs) more (q ∷ qs) a p e f (h, hs) =
    let ask : b ≡ a = cc in
    let rest : bs ≡ more = cc in
    let own : q ≡ p = cc in
    (subst (λ x. Of a x) own (subst (λ x. Of x q) ask h), subst (λ x. Parallel x qs) rest hs)
taken-Parallel (suc n) (b ∷ bs) more (q ∷ qs) a p e f (h, hs) = elim (Option-cases (taken n bs)) [
  | inl gone ↦ absurd (ground (arith, gone, e))
  | inr ((x, rest), got) ↦
      let ask : x ≡ a = ground (arith, got, e) in
      let left : b ∷ rest ≡ more = ground (arith, got, e) in
      let (own, others) =
        taken-Parallel n bs rest qs a p (got ∙ ap (λ y. some (y, rest)) ask) f hs in
      (own, subst (λ l. Parallel l (q ∷ without n qs)) left (h, others))
]

pub taken-none :
    (n : ℕ) (as' : List Ask) (ps : List Promise) (p : Promise)
    → taken n as' ≡ none
    → at_place n ps ≡ some p
    → Parallel as' ps
    → ⊥
taken-none n [] [] p e f h = ground (arith, f)
taken-none n [] (q ∷ qs) p e f h = h
taken-none n (b ∷ bs) [] p e f h = h
taken-none zero (b ∷ bs) (q ∷ qs) p e f h = ground (arith, e)
taken-none (suc n) (b ∷ bs) (q ∷ qs) p e f (h, hs) = elim (Option-cases (taken n bs)) [
  | inl gone ↦ taken-none n bs qs p gone f hs
  | inr (x, got) ↦ ground (arith, got, e)
]

-- How the client answers an ask.
pub record Answered (n : ℕ) (d : Decision) (s t : Acp) : Type 0 where
  pub ask : Ask
  pub more : List Ask
  pub options : List Json
  pub reply : Reply
  pub was : taken n s.asks ≡ some (ask, more)
  pub left : t.asks ≡ more
  pub offers : options_of d ask ≡ ok options
  pub replies : reply_decided d options ≡ ok reply
  pub tells : t.sent ≡ s.sent ++ answers ask.id reply ∷ []

pub decide-Answered :
    (n : ℕ) (d : Decision) (s t : Acp)
    → decide n d s ≡ ok t
    → (taken n s.asks ≡ none × (s ≡ t)) ⊎ Answered n d s t
unfolding decide
decide-Answered n d s t e = by_ask (taken n s.asks) refl e
  where
    by_ask :
        (o : Option (Ask × List Ask))
        → taken n s.asks ≡ o
        → answered d s o ≡ ok t
        → (taken n s.asks ≡ none × (s ≡ t)) ⊎ Answered n d s t
    by_ask none at e = inl (at, ok-injective s t e)
    by_ask (some (a, more)) at e =
        let (list, offers, e₁) = bind-eq-ok (options_of d a) _ e in
        let (reply, replies, e₂) = bind-eq-ok (reply_decided d list) _ e₁ in
        let it = ok-injective _ t e₂ in
        inr (record {
          ask = a;
          more = more;
          options = list;
          reply = reply;
          was = at;
          left = ap (λ (x : Acp). x.asks) (sym it);
          offers = offers;
          replies = replies;
          tells = ap (λ (x : Acp). x.sent) (sym it);
        })

-- A resolution: the promise of its place has a decision, by which the client answers.
pub record Resolved (n : ℕ) (s t : Link) : Type 0 where
  pub promise : Promise
  pub decision : Decision
  pub at : at_place n s.promises ≡ some promise
  pub decided : decision_of promise s.server ≡ some decision
  pub client : decide n decision s.acp ≡ ok t.acp
  pub server : t.server ≡ s.server
  pub promises : t.promises ≡ without n s.promises

pub resolve-Resolved : (n : ℕ) (s t : Link) → resolve n s ≡ some (ok t) → Resolved n s t
unfolding resolve
resolve-Resolved n s t e = by_promise (at_place n s.promises) refl e
  where
    by_client :
        (p : Promise) (d : Decision) (r : Result Acp)
        → at_place n s.promises ≡ some p
        → decision_of p s.server ≡ some d
        → decide n d s.acp ≡ r
        → some (told n s r) ≡ some (ok t)
        → Resolved n s t
    by_client p d throws at decided c e = absurd (ground (arith, e))
    by_client p d (ok a) at decided c e =
        let it : record s { acp = a; promises = without n s.promises } ≡ t = cc in
        record {
          promise = p;
          decision = d;
          at = at;
          decided = decided;
          client = c ∙ ap (λ (x : Link). ok x.acp) it;
          server = ap (λ (x : Link). x.server) (sym it);
          promises = ap (λ (x : Link). x.promises) (sym it);
        }

    by_decision :
        (p : Promise) (o : Option Decision)
        → at_place n s.promises ≡ some p
        → decision_of p s.server ≡ o
        → resolve_by n s o ≡ some (ok t)
        → Resolved n s t
    by_decision p none at decided e = absurd (ground (arith, e))
    by_decision p (some d) at decided e = by_client p d (decide n d s.acp) at decided refl e

    by_promise :
        (o : Option Promise)
        → at_place n s.promises ≡ o
        → resolve_at n s o ≡ some (ok t)
        → Resolved n s t
    by_promise none at e = absurd (ground (arith, e))
    by_promise (some p) at e = by_decision p (decision_of p s.server) at refl e
