-- ===== src/Web/Admin/Laws.antt =====
-- What the journal shows.
use mathlib.Core.List.{append-nil, append_assoc}
use llm_stack.Base.{
  ℕ, zero, suc, ◌≡◌, ◌∙◌, ap, inl, inr, refl, sym, false, List, [], ◌++◌, Text, is_empty,
  Bool-cases,
}
use llm_stack.Web.Admin.{Audit, Answer, answers, fails, load, load_older}

module _ {ℓ} {Row : Type ℓ} where
  load-append :
      (before : Text) (a : Answer Row) (s : Audit Row)
      → is_empty before ≡ false
      → (more : List Row) × ((load before a s).events ≡ s.events ++ more)
  unfolding load
  load-append before (answers p) s h = (p.events, rw h refl)
  load-append before (fails message) s h = ([], sym (append-nil s.events))

  -- Loading older events, as often as it is asked and whether the requests succeed or fail, keeps the
  -- events that are shown, in their order, and adds to their end.
  pub load_older-append :
      (journal : Text → Answer Row) (times : ℕ) (s : Audit Row)
      → (more : List Row) × ((load_older journal times s).events ≡ s.events ++ more)
  unfolding load_older
  load_older-append journal zero s = ([], sym (append-nil s.events))
  load_older-append journal (suc times) s = elim (Bool-cases (is_empty s.next)) [
    | inl end ↦ ([], rw end (sym (append-nil s.events)))
    | inr more ↦
        let first = load-append s.next (journal s.next) s more in
        let rest = load_older-append journal times (load s.next (journal s.next) s) in
        (
          first.0 ++ rest.0,
          rw more (rest.1 ∙ (ap (λ l. l ++ rest.0) first.1 ∙ append_assoc s.events first.0 rest.0)),
        )
  ]
