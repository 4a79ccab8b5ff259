-- ===== src/Consent/Server.antt =====
-- Which steps of the server leave a permission allowed that was not.
use llm_stack.Base.{
  ℕ, ◌≡◌, ◌≢◌, refl, sym, subst, Bool, true, false, List, [], ◌∷◌, Option, none, some, Text, get,
  delete, ◌==◌, text_eq, nat_eq, eq_of, arith, Bool-cases, Option-cases, inl, inr, if_ind, init,
}
use llm_stack.Server.Keys.{Node}
use llm_stack.Server.History.{continues}
use llm_stack.Server.Turn.{
  Decision, allow, cancel, Turn, Ask, Server, set_turn, settle, settle_if, cancel_all, close,
  open_turn, run_turn, submit, received, on_callback, report, Callback, on_text, on_reasoning,
  on_tool, on_stop, on_permission, ask_user, prompt_resolves, prompt_rejects, Step, opens, runs,
  calls_back, asks_permission, settles, closes, resolves, rejects,
}
use llm_stack.Consent.{IsOther}

abbrev pub Allowed : Server → Text → ℕ → Type 0
Allowed s id r = get r (s.turns id).decided ≡ some allow

-- No request is allowed after a step that was not before it.
abbrev pub Grants : Server → Server → Type 0
Grants s t = (id : Text) (r : ℕ) → Allowed t id r → Allowed s id r

pub set_turn-Grants :
    (id : Text) (x : Turn) (s u : Server)
    → u.turns ≡ s.turns
    → ((r : ℕ) → get r x.decided ≡ some allow → Allowed s id r)
    → Grants s (set_turn id x u)
set_turn-Grants id x s u same h j r =
    if_ind (λ (t : Turn). get r t.decided ≡ some allow → Allowed s j r) (id == j) x (u.turns j)
      (λ is a. subst (λ n. Allowed s n r) (eq_of id j is) (h r a))
      (λ _ a. subst (λ f. get r (f j).decided ≡ some allow) same a)

Grants-trans : (s t u : Server) → Grants s t → Grants t u → Grants s u
Grants-trans s t u g h id r a = g id r (h id r a)

settle-Grants :
    (k : Text) (a : Ask) (d : Decision) (s : Server) → d ≢ allow → Grants s (settle k a d s)
unfolding settle get
settle-Grants k a d s ne =
    set_turn-Grants a.turn _ s (record s { asks = delete k s.asks }) refl (λ r e. unchanged r e)
  where
    unchanged :
        (r : ℕ)
        → get r ((a.request, d) ∷ (s.turns a.turn).decided) ≡ some allow
        → Allowed s a.turn r
    unchanged r e = elim (Bool-cases (a.request == r)) [
      | inl same ↦ absurd (ne (ground (arith, same, e)))
      | inr other ↦ ground (arith, other, e)
    ]

pub settle_if-Grants :
    (k : Text) (d : Decision) (s : Server) → d ≢ allow → Grants s (settle_if k d s)
unfolding settle_if
settle_if-Grants k d s ne = elim (Option-cases (get k s.asks)) [
  | inl e ↦ rw (e, settle_if) (λ id r a. a)
  | inr (a, e) ↦ rw (e, settle_if) (settle-Grants k a d s ne)
]

cancel_all-Grants : (ks : List Text) (s : Server) → Grants s (cancel_all ks s)
unfolding cancel_all
cancel_all-Grants [] s = λ id r a. a
cancel_all-Grants (k ∷ ks) s =
    Grants-trans s (settle_if k cancel s) (cancel_all ks (settle_if k cancel s))
      (settle_if-Grants k cancel s (λ e. cc)) (cancel_all-Grants ks (settle_if k cancel s))

close-Grants : (finished : Bool) (id : Text) (s : Server) → Grants s (close finished id s)
unfolding close
close-Grants true id s = λ j r a. a
close-Grants false id s =
    Grants-trans s (gone s) (cancel_all (s.turns id).mine (gone s))
      (set_turn-Grants id _ s s refl (λ r a. a)) (cancel_all-Grants (s.turns id).mine (gone s))
  where
    gone : Server → Server
    gone s = set_turn id (record (s.turns id) { aborted = true; closed = true }) s

-- A turn's record is changed elsewhere only.
turn-Grants :
    (id : Text) (x : Turn) (s u : Server)
    → u.turns ≡ s.turns
    → x.decided ≡ (s.turns id).decided
    → Grants s (set_turn id x u)
turn-Grants id x s u same e =
    set_turn-Grants id x s u same (λ r a. subst (λ m. get r m ≡ some allow) e a)

run-Grants :
    (node : Node) (has_session : Bool) (save_error : Option Text) (id : Text) (s : Server)
    → Grants s (run_turn node has_session save_error id s)
unfolding run_turn
run-Grants node has_session save_error id s = elim (Bool-cases t.aborted) [
  | inl a ↦ rw a (turn-Grants id _ s s refl refl)
  | inr live ↦ rw live (elim (Bool-cases (continues node (received t.key s) (init t.users))) [
    | inl extends ↦ rw extends (by_saving save_error)
    | inr refused ↦ rw refused (turn-Grants id _ s s refl (ground arith))
  ])
]
  where
    t : Turn
    t = s.turns id

    by_saving : (e : Option Text) → Grants s (submit node has_session e id s)
    by_saving none = turn-Grants id _ s s refl (ground arith)
    by_saving (some message) = turn-Grants id _ s s refl (ground arith)

callback-Grants : (id : Text) (b : Callback) (s : Server) → Grants s (on_callback id b s)
unfolding on_callback report
callback-Grants id (on_text t) s = turn-Grants id _ s s refl (ground arith)
callback-Grants id (on_reasoning t) s = turn-Grants id _ s s refl (ground arith)
callback-Grants id (on_tool t) s = turn-Grants id _ s s refl (ground arith)
callback-Grants id (on_stop v) s = turn-Grants id _ s s refl refl

pub on_permission-Grants :
    (id title detail : Text) (s : Server) → Grants s (on_permission id title detail s).0
unfolding on_permission ask_user
on_permission-Grants id title detail s =
    if_ind (λ (r : Server × Option Decision). Grants s r.0) (s.turns id).aborted (s, some cancel) _
      (λ _ j r a. a) (λ _. turn-Grants id _ s s refl (ground arith))

pub Step-Grants : {node : Node} {s t : Server} (st : Step node s t) → IsOther st → Grants s t
unfolding open_turn prompt_resolves prompt_rejects get
Step-Grants {s = s} (opens id key users p h e) o =
    subst (Grants s) (sym e) (set_turn-Grants id _ s s refl (λ r a. absurd (ground (arith, a))))
Step-Grants {node} {s = s} (runs has_session save_error id p e) o =
    subst (Grants s) (sym e) (run-Grants node has_session save_error id s)
Step-Grants {s = s} (calls_back id b u e) o = subst (Grants s) (sym e) (callback-Grants id b s)
Step-Grants {s = s} (asks_permission id title detail u e) o = absurd o
Step-Grants {s = s} (settles k d e) o = absurd o
Step-Grants {s = s} (closes finished id ne e) o =
    subst (Grants s) (sym e) (close-Grants finished id s)
Step-Grants {s = s} (resolves id p e) o =
    subst (Grants s) (sym e) (turn-Grants id _ s s refl (ground arith))
Step-Grants {s = s} (rejects id message p e) o =
    subst (Grants s) (sym e) (turn-Grants id _ s s refl (ground arith))
