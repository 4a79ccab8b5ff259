-- ===== src/Server/Chats/Run.antt =====
-- What the body of a turn changes when it is called.
use llm_stack.Base.{
  ◌≡◌, ◌≢◌, refl, sym, ap, Bool, [], ◌∷◌, ◌++◌, Option, none, some, Text, Map, get, put, get-put,
  ◌==◌, text_eq, eq_of, eq_refl, arith, Bool-cases, inl, inr, if_ind, last-append, init,
}
use llm_stack.Server.Keys.{Node, prompt_hash}
use llm_stack.Server.History.{continues}
use llm_stack.Server.Turn.{
  Turn, Server, unopened, queued, prompting, over, set_turn, run_turn, submit, received, last_or,
}
use llm_stack.Server.Chats.{IsLatest}

pub record Ran (node : Node) (id : Text) (s t : Server) : Type 0 where
  pub key : (t.turns id).key ≡ (s.turns id).key
  pub not_queued : (t.turns id).phase ≢ queued
  pub not_unopened : (t.turns id).phase ≢ unopened
  pub latest : (t.turns id).phase ≡ prompting → IsLatest node id t
  pub others : (j : Text) → j ≢ id → t.turns j ≡ s.turns j
  pub chats : (k : Text) → k ≢ (s.turns id).key → get k t.history ≡ get k s.history

others_of :
    (id j : Text) (x : Turn) (s u : Server)
    → u.turns ≡ s.turns
    → j ≢ id
    → (set_turn id x u).turns j ≡ s.turns j
others_of id j x s u same ne =
    if_ind (λ y. y ≡ s.turns j) (id == j) x (u.turns j) (λ is. absurd (ne (sym (eq_of id j is))))
      (λ _. ap (λ f. f j) same)

-- The turn ends at once.
ended-Ran :
    (node : Node) (id : Text) (x : Turn) (s u : Server)
    → u.turns ≡ s.turns
    → x.key ≡ (s.turns id).key
    → x.phase ≡ over
    → ((k : Text) → k ≢ (s.turns id).key → get k u.history ≡ get k s.history)
    → Ran node id s (set_turn id x u)
ended-Ran node id x s u same key e h = record {
  key = rw (eq_refl id) key;
  not_queued = rw (eq_refl id) (λ q. ground (arith, e, q));
  not_unopened = rw (eq_refl id) (λ q. ground (arith, e, q));
  latest = rw (eq_refl id) (λ q. absurd (ground (arith, e, q)));
  others = λ j ne. others_of id j x s u same ne;
  chats = h;
}

elsewhere :
    {V : Type 0} (key k : Text) (v : V) (m : Map Text V) → k ≢ key → get k (put key v m) ≡ get k m
elsewhere key k v m ne = elim (Bool-cases (key == k)) [
  | inl same ↦ absurd (ne (sym (eq_of key k same)))
  | inr other ↦ rw other at (get-put key k v m)
]

-- The turn's prompt goes to the agent.
submitted-Ran :
    (node : Node) (id : Text) (x : Turn) (s : Server)
    → x.key ≡ (s.turns id).key
    → x.users ≡ (s.turns id).users
    → x.phase ≡ prompting
    → Ran node id s (
        set_turn id x (record s {
          history =
              put
                (s.turns id).key
                (received (s.turns id).key s ++ prompt_hash node (last_or (s.turns id).users) ∷ [])
                s.history;
        }))
submitted-Ran node id x s key users e = record {
  key = rw (eq_refl id) key;
  not_queued = rw (eq_refl id) (λ q. ground (arith, e, q));
  not_unopened = rw (eq_refl id) (λ q. ground (arith, e, q));
  latest = rw (eq_refl id) (λ _.
      rw
        (
          key,
          users,
          get-put (s.turns id).key (s.turns id).key _ s.history,
          eq_refl (s.turns id).key,
        )
        (last-append (received (s.turns id).key s) _));
  others = λ j ne. others_of id j x s s refl ne;
  chats = λ k ne. elsewhere (s.turns id).key k _ s.history ne;
}

pub run-Ran :
    (node : Node) (has_session : Bool) (save_error : Option Text) (id : Text) (s : Server)
    → Ran node id s (run_turn node has_session save_error id s)
unfolding run_turn
run-Ran node has_session save_error id s = elim (Bool-cases t.aborted) [
  | inl a ↦ rw a (ended-Ran node id _ s s refl refl refl (λ k ne. refl))
  | inr live ↦ rw live (elim (Bool-cases (continues node (received t.key s) (init t.users))) [
    | inl extends ↦ rw extends (by_saving save_error)
    | inr refused ↦ rw refused (ended-Ran node id _ s s refl (ground arith) refl (λ k ne. refl))
  ])
]
  where
    t : Turn
    t = s.turns id

    by_saving : (e : Option Text) → Ran node id s (submit node has_session e id s)
    by_saving none = submitted-Ran node id _ s (ground arith) (ground arith) refl
    by_saving (some message) =
        ended-Ran node id _ s _ refl (ground arith) refl (λ k ne. elsewhere t.key k _ s.history ne)
