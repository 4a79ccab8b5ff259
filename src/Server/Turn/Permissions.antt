-- ===== src/Server/Turn/Permissions.antt =====
-- What the permission requests of every reachable server promise the user and the agent.
use llm_stack.Base.{
  ℕ, ◌+◌, ◌≡◌, ◌≢◌, refl, sym, subst, inl, inr, Bool, true, false, List, [], ◌∷◌, Option, none,
  some, Text, Map, get, get-delete, ◌==◌, text_eq, text_beq_iff, if◌then◌else◌, arith, Bool-cases,
  Option-cases,
}
use llm_stack.Server.Keys.{Node}
use llm_stack.Server.Turn.{
  Decision, cancel, Server, unopened, set_turn, ask_key, settle_if, cancel_all, NoSlash,
  on_permission, ask_user, close, Step, opens, runs, calls_back, asks_permission, settles, closes,
  resolves, rejects, Reachable, here, next,
}
use llm_stack.Server.Turn.Asks.{ask_key-injective}
use llm_stack.Server.Turn.Invariant.{
  Core, quiet-Core, settle-Core, pending, decisions, made, contains,
}
use llm_stack.Server.Turn.Steps.{
  fresh-Core, open-Core, run-Core, callback-Core, resolves-Core, rejects-Core, opened_of_IsUnderWay,
}
use llm_stack.Server.Turn.Asking.{asking-Core}

settle_if-Core : (k : Text) (d : Decision) (s : Server) → Core s → Core (settle_if k d s)
unfolding settle_if
settle_if-Core k d s c = elim (Option-cases (get k s.asks)) [
  | inl e ↦ rw (e, settle_if) c
  | inr (a, e) ↦ rw (e, settle_if) (settle-Core k a d s e c)
]

cancel_all-Core : (ks : List Text) (s : Server) → Core s → Core (cancel_all ks s)
unfolding cancel_all
cancel_all-Core [] s c = c
cancel_all-Core (k ∷ ks) s c =
    cancel_all-Core ks (settle_if k cancel s) (settle_if-Core k cancel s c)

-- The turn of a connection that goes away, before its requests are cancelled.
abbrev gone : Text → Server → Server
gone id s = set_turn id (record (s.turns id) { aborted = true; closed = true }) s

gone-Core : (id : Text) (s : Server) → (s.turns id).phase ≢ unopened → Core s → Core (gone id s)
gone-Core id s ne c =
    quiet-Core id _ s s refl refl
      (record { asked = refl; mine = refl; decided = refl; before = ne; after = ne }) c

close-Core :
    (finished : Bool) (id : Text) (s : Server)
    → (s.turns id).phase ≢ unopened
    → Core s
    → Core (close finished id s)
unfolding close
close-Core true id s ne c = c
close-Core false id s ne c = cancel_all-Core (s.turns id).mine (gone id s) (gone-Core id s ne c)

either :
    (b : Bool) (x y : Server) (u v : Option Decision)
    → Core x
    → Core y
    → Core (if◌then◌else◌ {A = Server × Option Decision} b (x, u) (y, v)).0
either true x y u v cx cy = cx
either false x y u v cx cy = cy

on_permission-Core :
    (id title detail : Text) (s : Server)
    → (s.turns id).phase ≢ unopened
    → Core s
    → Core (on_permission id title detail s).0
unfolding on_permission
on_permission-Core id title detail s ne c =
    either (s.turns id).aborted s (ask_user id title detail s) (some cancel) none c
      (asking-Core id title detail s ne c)

Step-Core : {node : Node} {s t : Server} → Step node s t → Core s → Core t
Step-Core {s = s} (opens id key users p h e) c = subst Core (sym e) (open-Core id key users s p h c)
Step-Core {node} {s = s} (runs has_session save_error id p e) c =
    subst Core (sym e) (run-Core node has_session save_error id s p c)
Step-Core {s = s} (calls_back id b u e) c = subst Core (sym e) (callback-Core id b s u c)
Step-Core {s = s} (asks_permission id title detail u e) c =
    subst Core (sym e) (on_permission-Core id title detail s (opened_of_IsUnderWay _ u) c)
Step-Core {s = s} (settles k d e) c = subst Core (sym e) (settle_if-Core k d s c)
Step-Core {s = s} (closes finished id ne e) c = subst Core (sym e) (close-Core finished id s ne c)
Step-Core {s = s} (resolves id p e) c = subst Core (sym e) (resolves-Core id s p c)
Step-Core {s = s} (rejects id message p e) c = subst Core (sym e) (rejects-Core id message s p c)

pub Reachable-Core :
    {node : Node} {history : Map Text (List Text)} {s : Server} → Reachable node history s → Core s
Reachable-Core {history} here = fresh-Core history
Reachable-Core (next r st) = Step-Core st (Reachable-Core r)

-- In every reachable state, for a turn whose id has no slash, each number from 1 up to the count of
-- its permission requests is either pending or has been decided, never both, and decided at most
-- once; no other number is pending or decided.
pub decided_once :
    {node : Node} {history : Map Text (List Text)} (s : Server) (id : Text) (r : ℕ)
    → Reachable node history s
    → NoSlash id
    → decisions id r s + pending id r s ≡ made id r s
decided_once s id r reached h = (Reachable-Core reached).once id r h

-- Settling only takes requests away, and settles the one that it names.
settle_if-get :
    (k j : Text) (d : Decision) (s : Server)
    → get j (settle_if k d s).asks ≡ (if k == j then none else get j s.asks)
unfolding settle_if
settle_if-get k j d s = elim (Option-cases (get k s.asks)) [
  | inl e ↦ rw (e, settle_if) (ground (arith, e, text_beq_iff k j))
  | inr (a, e) ↦ rw (e, settle_if) (get-delete k j s.asks)
]

cancel_all-none :
    (j : Text) (ks : List Text) (s : Server)
    → get j s.asks ≡ none
    → get j (cancel_all ks s).asks ≡ none
unfolding cancel_all
cancel_all-none j [] s e = e
cancel_all-none j (k ∷ ks) s e =
    cancel_all-none j ks (settle_if k cancel s) (ground (arith, settle_if-get k j cancel s))

cancel_all-clears :
    (j : Text) (ks : List Text) (s : Server)
    → contains j ks ≡ true
    → get j (cancel_all ks s).asks ≡ none
unfolding cancel_all
cancel_all-clears j (k ∷ ks) s e = elim (Bool-cases (j == k)) [
  | inl same ↦
      cancel_all-none j ks (settle_if k cancel s)
        (ground (arith, settle_if-get k j cancel s, text_beq_iff j k, text_beq_iff k j))
  | inr other ↦ cancel_all-clears j ks (settle_if k cancel s) (ground arith)
]
cancel_all-clears j [] s e = absurd (ground arith)

-- A client that goes away leaves no request of its turn pending.
pub close-cancels :
    {node : Node} {history : Map Text (List Text)} (s : Server) (id : Text) (r : ℕ)
    → Reachable node history s
    → (s.turns id).phase ≢ unopened
    → pending id r (close false id s) ≡ 0
unfolding close
close-cancels s id r reached ne =
    let c = Reachable-Core reached in
    elim (Option-cases (get (ask_key id r) s.asks)) [
      | inl e ↦ rw (cancel_all-none (ask_key id r) (s.turns id).mine (gone id s) e) refl
      | inr (a, e) ↦
          let l = c.listed (ask_key id r) a e in
          let (same, _) =
            ask_key-injective id a.turn r a.request (c.named id ne) l.named l.is_key in
          rw
            (cancel_all-clears (ask_key id r) (s.turns id).mine (gone id s)
              (subst (λ x. contains (ask_key id r) (s.turns x).mine ≡ true) (sym same) l.listed))
            refl
    ]
