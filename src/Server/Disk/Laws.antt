-- ===== src/Server/Disk/Laws.antt =====
-- What a start reads after a save, and after a save that a crash has cut short.
use llm_stack.Base.{
  ◌≡◌, ◌⊎◌, inl, inr, ◌∙◌, refl, ap, false, List, ◌∷◌, Option, some, Text, codes, get, put, get-put,
  get-delete, ◌==◌, text_eq, eq_refl, eq_of, length, length-append, arith, Bool-cases,
}
use llm_stack.Server.Disk.{Files, Op, writes, renames, apply, run, temporary, save, load}

-- The files that a crash may leave of some calls: those before it are done, and a write that it
-- hits may have left anything in its file.
pub data Crashed : List Op → Files → Files → Type 0 where
  stops : {ops : List Op} {files : Files} → Crashed ops files files
  torn :
      {path t : Text} {ops : List Op} {files : Files} (junk : Text)
      → Crashed (writes path t ∷ ops) files (put path junk files)
  goes :
      {op : Op} {ops : List Op} {files after : Files}
      → Crashed ops (apply op files) after
      → Crashed (op ∷ ops) files after

temporary-other : (path : Text) → (temporary path == path) ≡ false
temporary-other path = elim (Bool-cases (temporary path == path)) [
  | inl is ↦
      absurd (
        omega
          (arith, length-append path (codes ".tmp"), ap length (eq_of (temporary path) path is)))
  | inr other ↦ other
]

get-temporary :
    (path t : Text) (files : Files) → get path (put (temporary path) t files) ≡ get path files
get-temporary path t files = get-put (temporary path) path t files ∙ rw (temporary-other path) refl

get-renamed :
    (path t : Text) (files : Files)
    → get path (apply (renames (temporary path) path) (put (temporary path) t files)) ≡ some t
get-renamed path t files =
    rw (get-put (temporary path) (temporary path) t files, eq_refl (temporary path))
      (get-delete (temporary path) path (put path t (put (temporary path) t files))
        ∙ rw
            (temporary-other path, get-put path path t (put (temporary path) t files), eq_refl path)
            refl)

after_crash :
    (path t : Text) (files after : Files)
    → Crashed (save (some path) t) files after
    → (get path after ≡ get path files) ⊎ (get path after ≡ some t)
after_crash path t files _ stops = inl refl
after_crash path t files _ (torn junk) = inl (get-temporary path junk files)
after_crash path t files _ (goes stops) = inl (get-temporary path t files)
after_crash path t files _ (goes (goes stops)) = inr (get-renamed path t files)

-- A start after a save reads what was saved. A start after a save that a crash has cut short,
-- between its calls or within its write, reads what was saved, or what a start before the save
-- would have read, and never anything else. `parse` gives back this one value from its text.
pub save-load :
    {A : Type 0} (parse : Text → Option A) (stringify : A → Text) (fresh a : A)
    → parse (stringify a) ≡ some a
    → (path : Text) (files : Files)
    → (load parse fresh (some path) (run (save (some path) (stringify a)) files) ≡ a)
      × ((after : Files)
          → Crashed (save (some path) (stringify a)) files after
          → (load parse fresh (some path) after ≡ a)
            ⊎ (load parse fresh (some path) after ≡ load parse fresh (some path) files))
unfolding run
save-load parse stringify fresh a back path files = (
  rw (get-renamed path (stringify a) files, back) refl,
  (λ after c. elim (after_crash path (stringify a) files after c) [
    | inl old ↦ inr (rw old refl)
    | inr new ↦ inl (rw (new, back) refl)
  ]),
)
