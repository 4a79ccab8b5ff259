-- ===== src/Adapter/Laws.antt =====
-- The sessions that the turns listen to.
use llm_stack.Base.{
  ◌≢◌, ℕ, ◌≡◌, ◌∙◌, refl, sym, ap, subst, ◌⊎◌, Bool, true, false, not, ◌&&◌, Option, none, some,
  Text, Map, get, delete, has, is_some, get-delete, ◌==◌, nat_eq, text_eq, eq_of, eq_refl, arith,
  Bool-cases, Option-cases, inl, inr, if_ind,
}
use llm_stack.Js.{Json}
use llm_stack.Server.Queue
use llm_stack.Server.Queue.{Queues, Job, Status, job, serialize, start, finish, retire}
use llm_stack.Server.Queue.Invariant.{Reachable-Inv}
use llm_stack.Acp.Sessions.{Agent, Sessions, session_id}
use llm_stack.Acp.Sessions.Given.{Given, session_id-Given}
use llm_stack.Acp.Dispatch
use llm_stack.Acp.Dispatch.{Acp, Listener, on_message, decide, begin_prompt, end_prompt, abort}
use llm_stack.Acp.Dispatch.Laws.{Same, Heard, on_message-Heard}
use llm_stack.Acp.Dispatch.Turns.{decide-Quiet}
use llm_stack.Adapter.{
  Adapter, is_running, entered, enter, leave, settle, IsFresh, Step, IsApart, Reachable, here, next,
  calls, starts, enters, requests, reads, decides, aborts, leaves, settles, retires,
}
use llm_stack.Server.Queue.Jobs.{
  Runs, Runs-once, serialize-Runs, start-Runs, finish-Runs, retire-Runs,
}
use llm_stack.Adapter.Invariant.{
  Inv, started-Inv, queues-Inv, with_queues-eq, acp-Inv, same_listeners, heard_listeners,
}
use llm_stack.Adapter.Entering.{sessions_kept, kept_entry, entered-Inv}

is_running-eq : (st : Status) → is_running st ≡ true → st ≡ Queue.running
is_running-eq Queue.running e = refl
is_running-eq Queue.waiting e = cc
is_running-eq Queue.finished e = cc
is_running-eq Queue.retired e = cc

has-none : {A : Type 0} (o : Option A) → is_some o ≡ false → o ≡ none
has-none none e = refl
has-none (some a) e = cc

left_owned :
    (i k : ℕ) (x : Text) (m : Map ℕ Text)
    → get k (delete i m) ≡ some x
    → (get k m ≡ some x) × ((i == k) ≡ false)
left_owned i k x m e =
    if_ind (λ o. o ≡ some x → (get k m ≡ some x) × ((i == k) ≡ false)) (i == k) none (get k m)
      (λ _ gone. absurd (ground arith)) (λ apart u. (u, apart)) (sym (get-delete i k m) ∙ e)

module _ (name : Text) (stringify : Json → Text) where
  enter-Inv :
      (agent : Agent) (i : ℕ) (turn : Text) (interactive : Bool) (s t : Adapter)
      → IsFresh agent s
      → enter agent i turn interactive s ≡ some t
      → Inv name stringify s
      → Inv name stringify t
  unfolding enter
  enter-Inv agent i turn interactive s t fresh e v = elim (Option-cases (job i s.queues.jobs)) [
    | inl gone ↦ absurd (ground (arith, gone, e))
    | inr (j, at) ↦ elim (Bool-cases (is_running j.status && not (has i s.under_way))) [
      | inl can ↦
          let r : Runs s.queues i j.key = record {
            self = j;
            found = at;
            runs = is_running-eq j.status (ground (arith, can));
            of_chat = refl;
          } in
          let to : entered i turn interactive s (session_id agent j.key s.sessions) ≡ t =
            ground (arith, at, can, e) in
          subst (Inv name stringify) to (
            by_session (session_id agent j.key s.sessions) j.key r
              (has-none (get i s.under_way) (ground (arith, can)))
              (session_id-Given agent j.key s.sessions))
      | inr cannot ↦ absurd (ground (arith, at, cannot, e))
    ]
  ]
    where
      by_session :
          (r : Option Text × Sessions) (key : Text)
          → Runs s.queues i key
          → get i s.under_way ≡ none
          → Given agent key s.sessions r
          → Inv name stringify (entered i turn interactive s r)
      by_session (none, ss) key r none_yet (inl same) = record {
        queues = v.queues;
        acp = v.acp;
        apart = subst IsApart (sym same) v.apart;
        owned = λ k x u.
            let (other, theirs, at) = v.owned k x u in (other, theirs, ap (get other) same ∙ at);
        listened = v.listened;
      }
      by_session (none, ss) key r none_yet (inr (id, grown)) = record {
        queues = v.queues;
        acp = v.acp;
        apart = sessions_kept name stringify agent key id s ss i (inr grown) fresh v.apart;
        owned = λ k x u.
            let (other, theirs, at) = v.owned k x u in
            let ne : k ≢ i =
              (λ same. ground (arith, subst (λ n. get n s.under_way ≡ some x) same u, none_yet)) in
            (
              other,
              theirs,
              kept_entry name stringify agent key id s ss i k x other (inr grown) r theirs ne v at,
            );
        listened = v.listened;
      }
      by_session (some id, ss) key r none_yet g =
          entered-Inv name stringify agent key id s ss i turn interactive g fresh r none_yet v

  leave-Inv :
      (i : ℕ) (s t : Adapter) → leave i s ≡ some t → Inv name stringify s → Inv name stringify t
  unfolding leave end_prompt
  leave-Inv i s t e v = elim (Option-cases (get i s.under_way)) [
    | inl gone ↦ absurd (ground (arith, gone, e))
    | inr (id, at) ↦
        let to : record s { acp = end_prompt id s.acp; under_way = delete i s.under_way } ≡ t =
          ground (arith, at, e) in
        subst (Inv name stringify) to (record {
          queues = v.queues;
          acp = Dispatch.next v.acp (Dispatch.finishes id refl);
          apart = v.apart;
          owned = λ k x u. v.owned k x (left_owned i k x s.under_way u).0;
          listened = λ x l u.
              if_ind (λ o. o ≡ some l → (k : ℕ) × (get k (delete i s.under_way) ≡ some x)) (id == x)
                none (get x s.acp.updates) (λ _ gone. absurd (ground arith))
                (λ apart w.
                  let (k, own) = v.listened x l w in
                  (
                    k,
                    get-delete i k s.under_way
                        ∙ if_ind (λ o. o ≡ some x) (i == k) none (get k s.under_way)
                            (λ same.
                              let mine : get i s.under_way ≡ some x =
                                subst (λ n. get n s.under_way ≡ some x) (sym (eq_of i k same))
                                  own in
                              let it : id ≡ x = ground (arith, at, mine) in
                              absurd (
                                ground
                                  (arith, subst (λ y. (id == y) ≡ true) it (eq_refl id), apart)))
                            (λ _. own),
                  ))
                (sym (get-delete id x s.acp.updates) ∙ u);
        })
  ]

  settle-Inv :
      (i : ℕ) (s t : Adapter) → settle i s ≡ some t → Inv name stringify s → Inv name stringify t
  unfolding settle
  settle-Inv i s t e v = elim (Option-cases (get i s.under_way)) [
    | inr (id, at) ↦ absurd (ground (arith, at, e))
    | inl none_left ↦
        let (q, done, to) = with_queues-eq s t (finish i s.queues) (ground (arith, none_left, e)) in
        queues-Inv name stringify s t q to (Queue.finishes i done)
          (λ k id key u r.
            finish-Runs i k key s.queues q
              (λ same.
                ground (arith, none_left, subst (λ n. get n s.under_way ≡ some id) (sym same) u))
              done r)
          v
  ]

  Step-Inv : (s t : Adapter) → Step name stringify s t → Inv name stringify s → Inv name stringify t
  unfolding abort
  Step-Inv s t (calls key e) v =
      queues-Inv name stringify s t (serialize key s.queues) (sym e) (Queue.called key refl)
        (λ i id k u. serialize-Runs key k i s.queues (Reachable-Inv v.queues)) v
  Step-Inv s t (starts i e) v =
      let (q, done, to) = with_queues-eq s t (start i s.queues) e in
      queues-Inv name stringify s t q to (Queue.started i done)
        (λ k id key u. start-Runs i k key s.queues q done) v
  Step-Inv s t (enters agent i turn interactive fresh e) v =
      enter-Inv agent i turn interactive s t fresh e v
  Step-Inv s t (requests method e) v =
      acp-Inv name stringify s t _ e (Dispatch.requests method refl) (λ id l u. (l, u)) v
  Step-Inv s t (reads m a read e) v =
      acp-Inv name stringify s t a e (Dispatch.reads m read)
        (by_kind (on_message-Heard name stringify m s.acp a read)) v
    where
      by_kind :
          (Same s.acp a) ⊎ (Heard m s.acp a)
          → (id : Text) (l : Listener) → get id a.updates ≡ some l
          → (k : Listener) × (get id s.acp.updates ≡ some k)
      by_kind (inl same) = same_listeners s.acp a same.0
      by_kind (inr h) = heard_listeners m s.acp a h
  Step-Inv s t (decides n d a decided e) v =
      acp-Inv name stringify s t a e (Dispatch.decides n d decided)
        (same_listeners s.acp a (decide-Quiet n d s.acp a decided).0) v
  Step-Inv s t (aborts id e) v =
      acp-Inv name stringify s t _ e (Dispatch.aborts id refl) (λ x l u. (l, u)) v
  Step-Inv s t (leaves i e) v = leave-Inv i s t e v
  Step-Inv s t (settles i e) v = settle-Inv i s t e v
  Step-Inv s t (retires i e) v =
      let (q, done, to) = with_queues-eq s t (retire i s.queues) e in
      queues-Inv name stringify s t q to (Queue.retires i done)
        (λ k id key u. retire-Runs i k key s.queues q done) v

  Reachable-Adapter : (s : Adapter) → Reachable name stringify s → Inv name stringify s
  Reachable-Adapter _ (here map h) = started-Inv name stringify map h
  Reachable-Adapter t (next {s = s} r st) = Step-Inv s t st (Reachable-Adapter s r)

  -- Server and client fit together: whatever the calls of `serialize`, the settling of their
  -- promises, the agent's messages and the users' decisions do, in any order, the client's part of
  -- the state is one that the client's own steps reach, in which a prompt begins only on a session
  -- that no other prompt listens to. The agent gives no session twice.
  pub adapter_refines :
      (s : Adapter) → Reachable name stringify s → Dispatch.Reachable name stringify s.acp
  adapter_refines s r = (Reachable-Adapter s r).acp

  -- No two turns that are within `prompt` listen to the same session, be they of one chat or of two;
  -- and a turn that is within `prompt` is a running job whose chat has this session in the map.
  pub one_turn_a_session :
      (s : Adapter) (i k : ℕ) (id : Text)
      → Reachable name stringify s
      → get i s.under_way ≡ some id
      → get k s.under_way ≡ some id
      → (i ≡ k) × ((key : Text) × Runs s.queues i key × (get key s.sessions.map ≡ some id))
  one_turn_a_session s i k id r u w =
      let v = Reachable-Adapter s r in
      let (key, a, at) = v.owned i id u in
      let (other, b, there) = v.owned k id w in
      (
        Runs-once s.queues i k key (Reachable-Inv v.queues) a
            (subst (Runs s.queues k) (v.apart other key id there at) b),
        (key, a, at),
      )
