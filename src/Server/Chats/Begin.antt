-- ===== src/Server/Chats/Begin.antt =====
-- A job begins, and the turn whose body it runs.
use llm_stack.Base.{
  ℕ, ◌≡◌, ◌≢◌, ◌∙◌, refl, sym, ap, subst, Bool, true, false, List, Option, none, some, Text, Map,
  get, ◌⊎◌, ◌==◌, text_eq, nat_eq, eq_of, eq_refl, arith, Bool-cases, inl, inr,
}
use llm_stack.Server.Keys.{Node}
use llm_stack.Server.Queue
use llm_stack.Server.Queue.{
  Status, waiting, running, finished, retired, Job, Queues, job, serialize, start, finish, retire,
  starting, finishing, retiring,
}
use llm_stack.Server.Queue.Invariant.{Reachable-Inv}
use llm_stack.Server.Queue.Jobs.{Runs-once}
use llm_stack.Server.Queue.Moves.{Moved, stays, moves, start-Moved}
use llm_stack.Server.Turn
use llm_stack.Server.Turn.{
  Turn, Phase, unopened, queued, prompting, over, NoSlash, open_turn, run_turn, submit, received,
  last_or,
}
use llm_stack.Server.Chats.{Chats, IsLatest}
use llm_stack.Server.Chats.Run.{Ran, run-Ran}
use llm_stack.Server.Chats.Invariant.{
  Fits, Held, waiting_is_queued, running-Fits, started_from, some_is, Inv, queues-Inv, moved-Held,
}

module _ (node : Node) (history : Map Text (List Text)) where
  -- A job without a turn begins.
  pub start-Inv :
      (i : ℕ) (s : Chats) (q : Queues)
      → get i s.turn_of ≡ none
      → start i s.queues ≡ some q
      → Inv node history s
      → Inv node history (record s { queues = q })
  start-Inv i s q free done v =
      queues-Inv node history s q (Queue.started i done)
        (λ k id at h.
          moved-Held node history starting i k s.queues q (s.server.turns id) h
            (start-Moved i k h.self s.queues q done h.found)
            (λ st same to. absurd (ground (arith, free, ap (λ n. get n s.turn_of) same, at))))
        v

  -- The job of a turn begins: it waited, and it runs.
  record Begun (i : ℕ) (id : Text) (s : Chats) (q : Queues) : Type 0 where
    self : Job
    was : (s.server.turns id).phase ≡ queued
    found : job i q.jobs ≡ some self
    of_chat : self.key ≡ (s.server.turns id).key
    runs : self.status ≡ running

  job_starts :
      (i : ℕ) (id : Text) (s : Chats) (q : Queues) (h : Held s.queues i (s.server.turns id))
      → Moved starting i i h.self q.jobs
      → Begun i id s q
  job_starts i id s q h (stays ne at) = absurd (ne refl)
  job_starts i id s q h (moves same st to at) =
      let (waited, is) = started_from h.self st to in
      record {
        self = record h.self { status = st };
        was = waiting_is_queued (s.server.turns id).phase h.self.status h.fits waited;
        found = at;
        of_chat = h.of_chat;
        runs = is;
      }

  pub run-Inv :
      (has_session : Bool) (save_error : Option Text) (i : ℕ) (id : Text) (s : Chats) (q : Queues)
      → get i s.turn_of ≡ some id
      → start i s.queues ≡ some q
      → Inv node history s
      → Inv node history
          (record s { queues = q; server = run_turn node has_session save_error id s.server })
  run-Inv has_session save_error i id s q at done v = record {
    queues = Queue.next v.queues (Queue.started i done);
    server = Turn.next v.server (Turn.runs has_session save_error id b.was refl);
    held = λ k x e. by_turn k x (Bool-cases (id == x)) e;
    listed = λ x ne. was_listed x (Bool-cases (id == x)) ne;
    once = v.once;
    latest = λ x p. still_latest x (Bool-cases (id == x)) p;
  }
    where
      after : Turn.Server
      after = run_turn node has_session save_error id s.server

      r : Ran node id s.server after
      r = run-Ran node has_session save_error id s.server

      b : Begun i id s q
      b =
          job_starts i id s q (v.held i id at)
            (start-Moved i i (v.held i id at).self s.queues q done (v.held i id at).found)

      apart : (x : Text) → (id == x) ≡ false → x ≢ id
      apart x other is = ground (arith, eq_refl id, subst (λ y. (id == y) ≡ false) is other)

      carried :
          (k : ℕ) (x : Text)
          → (id == x) ≡ false
          → get k s.turn_of ≡ some x
          → Held q k (s.server.turns x)
      carried k x other e =
          let h = v.held k x e in
          moved-Held node history starting i k s.queues q (s.server.turns x) h
            (start-Moved i k h.self s.queues q done h.found)
            (λ st same to.
              absurd
                (apart x other (some_is x id (sym e ∙ ap (λ n. get n s.turn_of) (sym same) ∙ at))))

      by_turn :
          (k : ℕ) (x : Text)
          → (id == x) ≡ true ⊎ (id == x) ≡ false
          → get k s.turn_of ≡ some x
          → Held q k (after.turns x)
      by_turn k x (inl same) e =
          let is : k ≡ i = v.once k i x e (at ∙ ap some (eq_of id x same)) in
          subst (λ m. Held q m (after.turns x)) (sym is)
            (subst (λ y. Held q i (after.turns y)) (eq_of id x same)
              (record {
                self = b.self;
                found = b.found;
                of_chat = b.of_chat ∙ sym r.key;
                fits =
                    subst (Fits (after.turns id).phase) (sym b.runs)
                      (running-Fits (after.turns id).phase r.not_queued r.not_unopened);
              }))
      by_turn k x (inr other) e =
          subst (Held q k) (sym (r.others x (apart x other))) (carried k x other e)

      was_listed :
          (x : Text)
          → (id == x) ≡ true ⊎ (id == x) ≡ false
          → (after.turns x).phase ≢ unopened
          → (k : ℕ) × (get k s.turn_of ≡ some x)
      was_listed x (inl same) ne = (i, at ∙ ap some (eq_of id x same))
      was_listed x (inr other) ne =
          v.listed x (λ e. ne (ap (λ (t : Turn). t.phase) (r.others x (apart x other)) ∙ e))

      -- Another turn of the same chat does not run.
      other_chat :
          (x : Text)
          → (id == x) ≡ false
          → (s.server.turns x).phase ≡ prompting
          → (s.server.turns x).key ≢ (s.server.turns id).key
      other_chat x other p same =
          let (k, e) = v.listed x (λ u. ground (arith, p, u)) in
          let h = carried k x other e in
          let one : k ≡ i =
            Runs-once q k i (s.server.turns id).key
              (Reachable-Inv (Queue.next v.queues (Queue.started i done)))
              (record {
                self = h.self;
                found = h.found;
                runs = subst (λ f. Fits f h.self.status) p h.fits;
                of_chat = h.of_chat ∙ same;
              })
              (record { self = b.self; found = b.found; runs = b.runs; of_chat = b.of_chat }) in
          apart x other (some_is x id (sym e ∙ ap (λ n. get n s.turn_of) one ∙ at))

      still_latest :
          (x : Text)
          → (id == x) ≡ true ⊎ (id == x) ≡ false
          → (after.turns x).phase ≡ prompting
          → IsLatest node x after
      still_latest x (inl same) p =
          subst (λ y. IsLatest node y after) (eq_of id x same)
            (r.latest (subst (λ y. (after.turns y).phase ≡ prompting) (sym (eq_of id x same)) p))
      still_latest x (inr other) p =
          let was = r.others x (apart x other) in
          let prompts = sym (ap (λ (t : Turn). t.phase) was) ∙ p in
          rw (was, r.chats (s.server.turns x).key (other_chat x other prompts)) (v.latest x prompts)
