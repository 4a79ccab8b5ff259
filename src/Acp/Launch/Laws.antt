-- ===== src/Acp/Launch/Laws.antt =====
-- The command of every runtime that `main` gives to acp.mjs, and the profile of opencode.
use llm_stack.Base.{
  ◌≡◌, ◌∙◌, refl, sym, ap, subst, Bool, true, false, not, ◌&&◌, ◌||◌, List, [], ◌∷◌, some, Text,
  codes, Map, get, put, get-put, ◌==◌, text_eq, text_beq, text_beq_iff, if◌then◌else◌, arith,
  Bool-cases, inl, inr, if_ind, any, is_empty,
}
use llm_stack.Js.{Json}
use llm_stack.Server.Start.{
  Env, Settings, Start, exits, serves, start, start_with, speaks_acp, runtimes, file_of, or_text,
}
use llm_stack.Acp.Launch.{
  Launch, Effect, Started, launches, put_all, opencode, pi, hermes, start_acp,
}

-- Later settings do not look at what the others before them were.
pub put_all_alike :
    (n : Text) (kvs : List (Text × Text)) (e f : Map Text Text)
    → get n e ≡ get n f
    → get n (put_all kvs e) ≡ get n (put_all kvs f)
unfolding put_all
put_all_alike n [] e f h = h
put_all_alike n ((k, v) ∷ kvs) e f h =
    put_all_alike n kvs (put k v e) (put k v f)
      (get-put k n v e ∙ ap (λ o. if k == n then some v else o) h ∙ sym (get-put k n v f))

module _ (join : Text → Text → Text) (stringify : Json → Text) where
  Commands : Text → Started → Type 0
  Commands cwd r = (effects : List Effect) × (l : Launch) × (r ≡ launches effects l) × (l.cwd ≡ cwd)

  known-Commands :
      (here user_home : Text) (env : Map Text Text) (home cwd runtime : Text)
      → any (text_beq runtime) runtimes ≡ true
      → text_beq runtime (codes "dsh") ≡ false
      → Commands cwd (start_acp join stringify here user_home env home cwd runtime)
  unfolding start_acp Commands opencode pi hermes
  known-Commands here user_home env home cwd runtime known other =
      if_ind (Commands cwd) (text_beq runtime (codes "opencode")) _ _ (λ _. (_, _, refl, refl))
        (λ no_opencode.
          if_ind (Commands cwd) (text_beq runtime (codes "pi")) _ _ (λ _. (_, _, refl, refl))
            (λ no_pi.
              if_ind (Commands cwd) (text_beq runtime (codes "hermes")) _ _
                (λ _. (_, _, refl, refl))
                (λ no_hermes. absurd (ground (arith, known, other, no_opencode, no_pi)))))

  Serves : Start → Type 0
  Serves (exits _) = Unit
  Serves (serves c) =
      (any (text_beq c.runtime) runtimes ≡ true)
      × (c.backend_file ≡ codes "./acp.mjs" → text_beq c.runtime (codes "dsh") ≡ false)

  file_of-acp :
      (runtime : Text) (acp : Bool)
      → file_of runtime acp ≡ codes "./acp.mjs"
      → text_beq runtime (codes "dsh") ≡ false
  unfolding text_beq
  file_of-acp runtime acp e = elim (Bool-cases (text_beq runtime (codes "dsh"))) [
    | inl is ↦
        absurd
          (differ (ap (λ r. file_of r acp) (sym ((text_beq_iff runtime (codes "dsh")).0 is)) ∙ e))
    | inr other ↦ other
  ]
    where
      differ : codes "./dsh.mjs" ≡ codes "./acp.mjs" → ⊥
      differ h = ground (arith, h)

  start_with-Serves : (env : Env) (runtime : Text) → Serves (start_with env runtime)
  unfolding start_with Serves
  start_with-Serves env runtime =
      if_ind Serves (is_empty (or_text env.api_key []) || not (any (text_beq runtime) runtimes)) _ _
        (λ _. tt)
        (λ allowed.
          if_ind Serves (not (speaks_acp env runtime) && text_beq runtime (codes "hermes")) _ _
            (λ _. tt)
            (λ _. (ground (arith, allowed), file_of-acp runtime (speaks_acp env runtime))))

  -- Where `main` serves with acp.mjs, that file has a command for the runtime of the settings, and
  -- starts it in the working directory of the settings.
  pub acp_has_command :
      (here user_home : Text) (env : Env) (process_env : Map Text Text) (c : Settings)
      → start env ≡ serves c
      → c.backend_file ≡ codes "./acp.mjs"
      → (effects : List Effect) × (l : Launch) × (start_acp join stringify here user_home
            process_env c.home c.cwd c.runtime
          ≡ launches effects l)
        × (l.cwd ≡ c.cwd)
  unfolding start Serves Commands
  acp_has_command here user_home env process_env c e acp =
      let s = subst Serves e (start_with-Serves env (or_text env.runtime [])) in
      known-Commands here user_home process_env c.home c.cwd c.runtime s.0 (s.1 acp)
