-- ===== src/Server/Turn/Steps.antt =====
-- The invariant of the permission requests over every step of a server.
use llm_stack.Base.{
  ◌≡◌, ◌≢◌, ◌∙◌, refl, sym, ap, subst, inl, inr, Bool, false, List, Option, none, some, Text, Map,
  get-nil, ◌==◌, text_eq, nat_eq, eq_of, init, arith, Bool-cases,
}
use llm_stack.Server.Keys.{Node}
use llm_stack.Server.History.{continues}
use llm_stack.Server.Turn.{
  Turn, Ask, Server, Phase, unopened, queued, prompting, blank, fresh, ask_key, NoSlash, IsUnderWay,
  open_turn, run_turn, received, submit, on_callback, Callback, on_text, on_reasoning, on_tool,
  on_stop, prompt_resolves, prompt_rejects,
}
use llm_stack.Server.Turn.Invariant.{Core, quiet-Core}

pub fresh-Core : (history : Map Text (List Text)) → Core (fresh history)
fresh-Core history = record {
  listed = λ k a e. absurd (ground (arith, get-nil {V = Ask} k));
  once = λ id r h. ground (arith, get-nil {V = Ask} (ask_key id r));
  named = λ id ne. absurd (ne refl);
  unused = λ id e. refl;
}

pub open-Core :
    (id key : Text) (users : List Text) (s : Server)
    → (s.turns id).phase ≡ unopened
    → NoSlash id
    → Core s
    → Core (open_turn id key users s)
unfolding open_turn
open-Core id key users s p h c = record {
  listed = λ k a e.
      let l = c.listed k a e in
      let other : (id == a.turn) ≡ false = elim (Bool-cases (id == a.turn)) [
        | inl same ↦
            absurd (l.opened (ap (λ x. (s.turns x).phase) (sym (eq_of id a.turn same)) ∙ p))
        | inr apart ↦ apart
      ] in
      record {
        is_key = l.is_key;
        named = l.named;
        opened = rw other l.opened;
        listed = rw other l.listed;
      };
  once = λ j r hj. elim (Bool-cases (id == j)) [
    | inl same ↦
        let was : s.turns j ≡ blank =
          c.unused j (ap (λ x. (s.turns x).phase) (sym (eq_of id j same)) ∙ p) in
        rw same (
          ground (
            arith,
            c.once j r hj,
            ap (λ (t : Turn). t.decided) was,
            ap (λ (t : Turn). t.asked) was,
          ))
    | inr other ↦ rw other (c.once j r hj)
  ];
  named = λ j ne. elim (Bool-cases (id == j)) [
    | inl same ↦ subst NoSlash (eq_of id j same) h
    | inr other ↦ c.named j (rw other at ne)
  ];
  unused = λ j e. elim (Bool-cases (id == j)) [
    | inl same ↦ absurd (ground (arith, same))
    | inr other ↦ rw other (c.unused j (rw other at e))
  ];
}

pub opened_of_IsUnderWay : (p : Phase) → IsUnderWay p → p ≢ unopened
opened_of_IsUnderWay p u = ground arith

pub run-Core :
    (node : Node) (has_session : Bool) (save_error : Option Text) (id : Text) (s : Server)
    → (s.turns id).phase ≡ queued
    → Core s
    → Core (run_turn node has_session save_error id s)
unfolding run_turn
run-Core node has_session save_error id s p c = elim (Bool-cases t.aborted) [
  | inl a ↦ rw a (quiet-Core id _ s s refl refl (ground arith) c)
  | inr live ↦ rw live (elim (Bool-cases (continues node (received t.key s) (init t.users))) [
    | inl extends ↦ rw extends (by_saving save_error)
    | inr refused ↦ rw refused (quiet-Core id _ s s refl refl (ground arith) c)
  ])
]
  where
    t : Turn
    t = s.turns id

    by_saving : (e : Option Text) → Core (submit node has_session e id s)
    by_saving none = quiet-Core id _ s _ refl refl (ground arith) c
    by_saving (some message) = quiet-Core id _ s _ refl refl (ground arith) c

pub callback-Core :
    (id : Text) (b : Callback) (s : Server)
    → IsUnderWay (s.turns id).phase
    → Core s
    → Core (on_callback id b s)
unfolding on_callback
callback-Core id (on_text t) s u c = quiet-Core id _ s s refl refl (ground arith) c
callback-Core id (on_reasoning t) s u c = quiet-Core id _ s s refl refl (ground arith) c
callback-Core id (on_tool t) s u c = quiet-Core id _ s s refl refl (ground arith) c
callback-Core id (on_stop v) s u c = quiet-Core id _ s s refl refl (ground arith) c

pub resolves-Core :
    (id : Text) (s : Server) → (s.turns id).phase ≡ prompting → Core s → Core (prompt_resolves id s)
unfolding prompt_resolves
resolves-Core id s p c = quiet-Core id _ s s refl refl (ground arith) c

pub rejects-Core :
    (id message : Text) (s : Server)
    → (s.turns id).phase ≡ prompting
    → Core s
    → Core (prompt_rejects id message s)
unfolding prompt_rejects
rejects-Core id message s p c = quiet-Core id _ s s refl refl (ground arith) c
