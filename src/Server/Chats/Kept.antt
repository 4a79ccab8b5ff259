-- ===== src/Server/Chats/Kept.antt =====
-- What the steps within a turn leave as it is.
use llm_stack.Base.{
  ◌≡◌, ◌⊎◌, ◌∙◌, refl, sym, subst, Bool, true, false, List, [], ◌∷◌, Option, some, Text, get,
  delete, ◌==◌, text_eq, nat_eq, eq_of, arith, Option-cases, inl, inr, if_ind,
}
use llm_stack.Server.Keys.{Node}
use llm_stack.Server.Turn.{
  Decision, cancel, Turn, Ask, Server, prompting, over, set_turn, settle, settle_if, cancel_all,
  close, on_callback, report, Callback, on_text, on_reasoning, on_tool, on_stop, on_permission,
  ask_user, prompt_resolves, prompt_rejects, Step, opens, runs, calls_back, asks_permission,
  settles, closes, resolves, rejects,
}
use llm_stack.Server.Chats.{IsWithin}

-- A turn goes on, or its prompt is over.
pub record Same (x y : Turn) : Type 0 where
  pub key : y.key ≡ x.key
  pub users : y.users ≡ x.users
  pub phase : (y.phase ≡ x.phase) ⊎ ((x.phase ≡ prompting) × (y.phase ≡ over))

pub record Kept (s t : Server) : Type 0 where
  pub history : t.history ≡ s.history
  pub turns : (id : Text) → Same (s.turns id) (t.turns id)

still : (x : Turn) → Same x x
still x = record { key = refl; users = refl; phase = inl refl }

Kept-refl : (s : Server) → Kept s s
Kept-refl s = record { history = refl; turns = λ id. still (s.turns id) }

Same-trans : (x y z : Turn) → Same x y → Same y z → Same x z
Same-trans x y z a b = record {
  key = b.key ∙ a.key;
  users = b.users ∙ a.users;
  phase = ground (arith, a.phase, b.phase);
}

Kept-trans : (s t u : Server) → Kept s t → Kept t u → Kept s u
Kept-trans s t u a b = record {
  history = b.history ∙ a.history;
  turns = λ id. Same-trans (s.turns id) (t.turns id) (u.turns id) (a.turns id) (b.turns id);
}

turn-Kept :
    (id : Text) (x : Turn) (s u : Server)
    → u.history ≡ s.history
    → u.turns ≡ s.turns
    → Same (s.turns id) x
    → Kept s (set_turn id x u)
turn-Kept id x s u h same k = record {
  history = h;
  turns = λ j.
      if_ind (λ y. Same (s.turns j) y) (id == j) x (u.turns j)
        (λ is. subst (λ n. Same (s.turns n) x) (eq_of id j is) k)
        (λ _. subst (λ f. Same (s.turns j) (f j)) (sym same) (still (s.turns j)));
}

settle-Kept : (k : Text) (a : Ask) (d : Decision) (s : Server) → Kept s (settle k a d s)
unfolding settle
settle-Kept k a d s =
    turn-Kept a.turn _ s (record s { asks = delete k s.asks }) refl refl
      (record { key = refl; users = refl; phase = inl refl })

settle_if-Kept : (k : Text) (d : Decision) (s : Server) → Kept s (settle_if k d s)
unfolding settle_if
settle_if-Kept k d s = elim (Option-cases (get k s.asks)) [
  | inl e ↦ rw (e, settle_if) (Kept-refl s)
  | inr (a, e) ↦ rw (e, settle_if) (settle-Kept k a d s)
]

cancel_all-Kept : (ks : List Text) (s : Server) → Kept s (cancel_all ks s)
unfolding cancel_all
cancel_all-Kept [] s = Kept-refl s
cancel_all-Kept (k ∷ ks) s =
    Kept-trans s (settle_if k cancel s) (cancel_all ks (settle_if k cancel s))
      (settle_if-Kept k cancel s) (cancel_all-Kept ks (settle_if k cancel s))

close-Kept : (finished : Bool) (id : Text) (s : Server) → Kept s (close finished id s)
unfolding close
close-Kept true id s = Kept-refl s
close-Kept false id s =
    Kept-trans s (gone s) (cancel_all (s.turns id).mine (gone s))
      (turn-Kept id _ s s refl refl (record { key = refl; users = refl; phase = inl refl }))
      (cancel_all-Kept (s.turns id).mine (gone s))
  where
    gone : Server → Server
    gone s = set_turn id (record (s.turns id) { aborted = true; closed = true }) s

-- A turn's record is changed in what it writes only.
written-Kept :
    (id : Text) (x : Turn) (s u : Server)
    → u.history ≡ s.history
    → u.turns ≡ s.turns
    → x.key ≡ (s.turns id).key
    → x.users ≡ (s.turns id).users
    → x.phase ≡ (s.turns id).phase
    → Kept s (set_turn id x u)
written-Kept id x s u h same k us p =
    turn-Kept id x s u h same (record { key = k; users = us; phase = inl p })

callback-Kept : (id : Text) (b : Callback) (s : Server) → Kept s (on_callback id b s)
unfolding on_callback report
callback-Kept id (on_text t) s =
    written-Kept id _ s s refl refl (ground arith) (ground arith) (ground arith)
callback-Kept id (on_reasoning t) s =
    written-Kept id _ s s refl refl (ground arith) (ground arith) (ground arith)
callback-Kept id (on_tool t) s =
    written-Kept id _ s s refl refl (ground arith) (ground arith) (ground arith)
callback-Kept id (on_stop v) s = written-Kept id _ s s refl refl refl refl refl

on_permission-Kept :
    (id title detail : Text) (s : Server) → Kept s (on_permission id title detail s).0
unfolding on_permission ask_user
on_permission-Kept id title detail s =
    if_ind (λ (r : Server × Option Decision). Kept s r.0) (s.turns id).aborted (s, some cancel) _
      (λ _. Kept-refl s)
      (λ _. written-Kept id _ s _ refl refl (ground arith) (ground arith) (ground arith))

over-Kept :
    (id : Text) (x : Turn) (s : Server)
    → (s.turns id).phase ≡ prompting
    → x.key ≡ (s.turns id).key
    → x.users ≡ (s.turns id).users
    → x.phase ≡ over
    → Kept s (set_turn id x s)
over-Kept id x s p k us e =
    turn-Kept id x s s refl refl (record { key = k; users = us; phase = inr (p, e) })

pub Step-Kept : {node : Node} {s t : Server} (st : Step node s t) → IsWithin st → Kept s t
unfolding prompt_resolves prompt_rejects
Step-Kept {s = s} (opens id key users p h e) o = absurd o
Step-Kept {s = s} (runs has_session save_error id p e) o = absurd o
Step-Kept {s = s} (calls_back id b u e) o = subst (Kept s) (sym e) (callback-Kept id b s)
Step-Kept {s = s} (asks_permission id title detail u e) o =
    subst (Kept s) (sym e) (on_permission-Kept id title detail s)
Step-Kept {s = s} (settles k d e) o = subst (Kept s) (sym e) (settle_if-Kept k d s)
Step-Kept {s = s} (closes finished id ne e) o = subst (Kept s) (sym e) (close-Kept finished id s)
Step-Kept {s = s} (resolves id p e) o =
    subst (Kept s) (sym e) (over-Kept id _ s p (ground arith) (ground arith) refl)
Step-Kept {s = s} (rejects id message p e) o =
    subst (Kept s) (sym e) (over-Kept id _ s p (ground arith) (ground arith) refl)
