-- ===== src/Server/Chats/Laws.antt =====
-- The turns of a chat, one after the other.
use llm_stack.Base.{
  ℕ, ◌≡◌, ◌∙◌, refl, sym, ap, subst, Bool, List, Option, none, some, Text, Map, get, get-nil,
  text_eq, nat_eq, arith, Option-cases, inl, inr,
}
use llm_stack.Server.Keys.{Node}
use llm_stack.Server.Queue
use llm_stack.Server.Queue.{
  Status, waiting, running, finished, retired, Job, Queues, job, serialize, start, finish, retire,
  starting, finishing, retiring,
}
use llm_stack.Server.Queue.Invariant.{Reachable-Inv}
use llm_stack.Server.Queue.Jobs.{Runs, Runs-once}
use llm_stack.Server.Turn
use llm_stack.Server.Turn.{
  Turn, Phase, unopened, queued, prompting, over, NoSlash, open_turn, run_turn, submit, received,
  last_or,
}
use llm_stack.Server.Chats.{
  Chats, begun, begin, Step, opens, calls, begins, serves, settles, retires, Reachable, here, next,
  IsLatest,
}
use llm_stack.Server.Chats.Kept.{Step-Kept}
use llm_stack.Server.Chats.Invariant.{
  Inv, some_is, Fits, queues-Inv, serialize-Held, retire-Inv, settle-Inv, serve-Inv,
}
use llm_stack.Server.Chats.Arrive.{arrive-Inv}
use llm_stack.Server.Chats.Begin.{start-Inv, run-Inv}

module _ (node : Node) (history : Map Text (List Text)) where
  begin-Inv :
      (has_session : Bool) (save_error : Option Text) (i : ℕ) (s t : Chats)
      → begin node has_session save_error i s ≡ some t
      → Inv node history s
      → Inv node history t
  unfolding begin
  begin-Inv has_session save_error i s t e v = elim (Option-cases (start i s.queues)) [
    | inl stuck ↦ absurd (none_begun (get i s.turn_of) (rw stuck at e))
    | inr (q, done) ↦ elim (Option-cases (get i s.turn_of)) [
      | inl free ↦
          let to : record s { queues = q } ≡ t = ground (arith, free, done, e) in
          subst (Inv node history) to (start-Inv node history i s q free done v)
      | inr (id, at) ↦
          let to : record s {
            queues = q;
            server = run_turn node has_session save_error id s.server;
          }
              ≡ t =
            ground (arith, at, done, e) in
          subst (Inv node history) to
            (run-Inv node history has_session save_error i id s q at done v)
    ]
  ]
    where
      none_begun : (o : Option Text) → begun node has_session save_error s o none ≡ some t → ⊥
      none_begun none e = ground (arith, e)
      none_begun (some id) e = ground (arith, e)

  Step-Inv : (s t : Chats) → Step node s t → Inv node history s → Inv node history t
  Step-Inv s t (opens id key users p n e) v =
      subst (Inv node history) (sym e) (arrive-Inv node history id key users s p n v)
  Step-Inv s t (calls key e) v = subst (Inv node history) (sym e) (
      queues-Inv node history s (serialize key s.queues) (Queue.called key refl)
        (λ k id at h. serialize-Held node history key k s.queues (s.server.turns id) v.queues h) v)
  Step-Inv s t (begins has_session save_error i e) v = begin-Inv has_session save_error i s t e v
  Step-Inv s t (serves w st within e) v =
      subst (Inv node history) (sym e) (serve-Inv node history s w st (Step-Kept st within) v)
  Step-Inv s t (settles i e) v = settle-Inv node history i s t e v
  Step-Inv s t (retires i e) v = retire-Inv node history i s t e v

  Reachable-Chats : (s : Chats) → Reachable node history s → Inv node history s
  Reachable-Chats _ here = record {
    queues = Queue.here;
    server = Turn.here;
    held = λ i id e. absurd (ground (arith, e, get-nil {V = Text} i));
    listed = λ id ne. absurd (ne refl);
    once = λ i k id e f. absurd (ground (arith, e, get-nil {V = Text} i));
    latest = λ id p. absurd (ground (arith, p));
  }
  Reachable-Chats t (next {s = s} r st) = Step-Inv s t st (Reachable-Chats s r)

  -- The body of a turn needs no guard of its own: with the jobs of `serialize` to call it, whatever
  -- other turns, completions, callbacks and permissions do in between, the queues and the turns are
  -- in a state that their own steps reach, in which a body runs only for a turn that is queued.
  pub chats_refine :
      (s : Chats)
      → Reachable node history s
      → Queue.Reachable s.queues × Turn.Reachable node history s.server
  chats_refine s r = let v = Reachable-Chats s r in (v.queues, v.server)

  -- A chat has at most one turn whose prompt is with the agent, and as long as it is there, the hash
  -- of this prompt is the last entry of the history of the chat.
  pub one_prompt_a_chat :
      (s : Chats) (id other : Text)
      → Reachable node history s
      → (s.server.turns id).phase ≡ prompting
      → (s.server.turns other).phase ≡ prompting
      → (s.server.turns other).key ≡ (s.server.turns id).key
      → (other ≡ id) × IsLatest node id s.server
  one_prompt_a_chat s id other r p o same =
      let v = Reachable-Chats s r in
      let (i, at) = v.listed id (λ u. ground (arith, p, u)) in
      let (k, there) = v.listed other (λ u. ground (arith, o, u)) in
      let one =
        Runs-once s.queues k i (s.server.turns id).key (Reachable-Inv v.queues)
          (runs_for v other k there o same) (runs_for v id i at p refl) in
      (some_is other id (sym there ∙ ap (λ n. get n s.turn_of) one ∙ at), v.latest id p)
    where
      runs_for :
          (v : Inv node history s) (x : Text) (k : ℕ)
          → get k s.turn_of ≡ some x
          → (s.server.turns x).phase ≡ prompting
          → (s.server.turns x).key ≡ (s.server.turns id).key
          → Runs s.queues k (s.server.turns id).key
      runs_for v x k e p same =
          let h = v.held k x e in
          record {
            self = h.self;
            found = h.found;
            runs = subst (λ f. Fits f h.self.status) p h.fits;
            of_chat = h.of_chat ∙ same;
          }
