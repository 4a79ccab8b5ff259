-- ===== src/Web/Detail/Laws.antt =====
-- The lists of a user's detail.
use mathlib.Core.List.{append-nil, append_assoc}
use llm_stack.Base.{
  ℕ, zero, suc, ◌≡◌, ◌∙◌, sym, List, [], ◌++◌, Text, is_empty, if◌then◌else◌, Bool-cases, inl, inr,
}
use llm_stack.Web.Detail.{Reply, Page, Requests, load, load_older, page_of}

module _ {ℓ} {Row : Type ℓ} where
  -- The rows of the pages from an id on, up to so many pages; a page that fails is the last.
  pub older : (Text → Reply (Page Row)) → ℕ → Text → List Row
  older server zero id = []
  older server (suc times) id =
      let rest = older server times (page_of (server id)).next_before_id in
      if is_empty id then [] else (page_of (server id)).rows ++ rest

  -- Loading older requests keeps the rows that are shown, in order, and adds the pages' rows behind
  -- them. A page that cannot be loaded ends the list.
  pub load_older-older :
      (server : Text → Reply (Page Row)) (times : ℕ) (s : Requests Row)
      → (load_older server times s).rows ≡ s.rows ++ older server times s.next
  unfolding load_older load older
  load_older-older server zero s = sym (append-nil s.rows)
  load_older-older server (suc times) s = elim (Bool-cases (is_empty s.next)) [
    | inl last_page ↦ rw last_page (sym (append-nil s.rows))
    | inr more ↦ rw more (
        load_older-older server times onward ∙ append_assoc s.rows (page_of (server s.next)).rows _)
  ]
    where
      onward : Requests Row
      onward = record {
        rows = s.rows ++ (page_of (server s.next)).rows;
        next = (page_of (server s.next)).next_before_id;
      }
