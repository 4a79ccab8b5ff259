-- ===== src/Server/Chats/Arrive.antt =====
-- A turn arrives in its chat.
use llm_stack.Base.{
  ℕ, ◌≡◌, ◌≢◌, ◌∙◌, refl, sym, ap, subst, true, false, List, some, Text, Map, get, put, get-put,
  ◌⊎◌, ◌<◌, ◌==◌, text_eq, nat_eq, eq_of, eq_refl, arith, Bool-cases, inl, inr,
}
use llm_stack.Server.Keys.{Node}
use llm_stack.Server.Queue
use llm_stack.Server.Queue.{
  Status, waiting, running, finished, retired, Job, Queues, job, serialize, start, finish, retire,
  starting, finishing, retiring,
}
use llm_stack.Server.Queue.Invariant.{Reachable-Inv}
use llm_stack.Server.Queue.Advance.{job-below}
use llm_stack.Server.Turn
use llm_stack.Server.Turn.{
  Turn, Phase, unopened, queued, prompting, over, NoSlash, open_turn, run_turn, submit, received,
  last_or,
}
use llm_stack.Server.Chats.{Chats, arrive, IsLatest}
use llm_stack.Server.Chats.Invariant.{Fits, Held, Inv, serialize-Held}

module _ (node : Node) (history : Map Text (List Text)) where
  -- A turn that arrives: its job waits.
  arrived-Held :
      (id key : Text) (users : List Text) (s : Chats)
      → Held (serialize key s.queues) s.queues.next ((open_turn id key users s.server).turns id)
  unfolding open_turn serialize job
  arrived-Held id key users s = rw (eq_refl id) (record {
    self = record {
      id = s.queues.next;
      key = key;
      prev = get key s.queues.queues;
      status = waiting;
    };
    found = rw (eq_refl s.queues.next) refl;
    of_chat = refl;
    fits = refl;
  })

  other_turn :
      (id key : Text) (users : List Text) (s : Turn.Server) (j : Text)
      → (id == j) ≡ false
      → (open_turn id key users s).turns j ≡ s.turns j
  unfolding open_turn
  other_turn id key users s j other = rw other refl

  opened_queued :
      (id key : Text) (users : List Text) (s : Turn.Server)
      → ((open_turn id key users s).turns id).phase ≡ queued
  unfolding open_turn
  opened_queued id key users s = rw (eq_refl id) refl

  opened-IsLatest :
      (id key : Text) (users : List Text) (s : Turn.Server) (x : Text)
      → (id == x) ≡ false
      → IsLatest node x s
      → IsLatest node x (open_turn id key users s)
  unfolding open_turn
  opened-IsLatest id key users s x other l = rw other l

  no_turn : (q : Queues) (i : ℕ) (t : Turn) → Held q i t → t.phase ≡ unopened → ⊥
  no_turn q i t h e = subst (λ p. Fits p h.self.status) e h.fits

  -- The jobs of the turns, with the next.
  put_job :
      (n k : ℕ) (id x : Text) (m : Map ℕ Text)
      → get k (put n id m) ≡ some x
      → ((n ≡ k) × (id ≡ x)) ⊎ (get k m ≡ some x)
  put_job n k id x m e = elim (Bool-cases (n == k)) [
    | inl same ↦ inl (eq_of n k same, ground (arith, same, e, get-put n k id m))
    | inr other ↦ inr (ground (arith, other, e, get-put n k id m))
  ]

  pub arrive-Inv :
      (id key : Text) (users : List Text) (s : Chats)
      → (s.server.turns id).phase ≡ unopened
      → NoSlash id
      → Inv node history s
      → Inv node history (arrive id key users s)
  unfolding arrive
  arrive-Inv id key users s p n v = record {
    queues = Queue.next v.queues (Queue.called key refl);
    server = Turn.next v.server (Turn.opens id key users p n refl);
    held = λ k x e. by_job k x (put_job s.queues.next k id x s.turn_of e);
    listed = λ x ne. by_turn x (Bool-cases (id == x)) ne;
    once = λ i k x e f.
        one_job i k x (put_job s.queues.next i id x s.turn_of e)
          (put_job s.queues.next k id x s.turn_of f);
    latest = λ x q. still_latest x (Bool-cases (id == x)) q;
  }
    where
      after : Turn.Server
      after = open_turn id key users s.server

      new_id : (i : ℕ) (x : Text) → get i s.turn_of ≡ some x → (id == x) ≡ false
      new_id i x e = elim (Bool-cases (id == x)) [
        | inl same ↦ absurd (
            no_turn s.queues i (s.server.turns x) (v.held i x e)
              (subst (λ y. (s.server.turns y).phase ≡ unopened) (eq_of id x same) p))
        | inr other ↦ other
      ]

      new_job : (i : ℕ) (x : Text) → get i s.turn_of ≡ some x → i < s.queues.next
      new_job i x e =
          let h = v.held i x e in
          job-below i s.queues.next h.self s.queues.jobs (Reachable-Inv v.queues).below h.found

      by_job :
          (k : ℕ) (x : Text)
          → ((s.queues.next ≡ k) × (id ≡ x)) ⊎ (get k s.turn_of ≡ some x)
          → Held (serialize key s.queues) k (after.turns x)
      by_job k x (inl (a, b)) =
          subst (λ m. Held (serialize key s.queues) m (after.turns x)) a
            (subst (λ y. Held (serialize key s.queues) s.queues.next (after.turns y)) b
              (arrived-Held id key users s))
      by_job k x (inr e) =
          subst (Held (serialize key s.queues) k)
            (sym (other_turn id key users s.server x (new_id k x e)))
            (serialize-Held node history key k s.queues (s.server.turns x) v.queues (v.held k x e))

      by_turn :
          (x : Text)
          → (id == x) ≡ true ⊎ (id == x) ≡ false
          → (after.turns x).phase ≢ unopened
          → (i : ℕ) × (get i (put s.queues.next id s.turn_of) ≡ some x)
      by_turn x (inl same) ne = (
        s.queues.next,
        get-put s.queues.next s.queues.next id s.turn_of
            ∙ rw (eq_refl s.queues.next) (ap some (eq_of id x same)),
      )
      by_turn x (inr other) ne =
          let (i, at) =
            v.listed x (λ e.
              ne (ap (λ (t : Turn). t.phase) (other_turn id key users s.server x other) ∙ e)) in
          let lt = new_job i x at in
          (i, ground (arith, lt, at, get-put s.queues.next i id s.turn_of))

      same_id : (i : ℕ) (x : Text) → id ≡ x → get i s.turn_of ≡ some x → ⊥
      same_id i x is e =
          ground (arith, eq_refl id, subst (λ y. (id == y) ≡ false) (sym is) (new_id i x e))

      one_job :
          (i k : ℕ) (x : Text)
          → ((s.queues.next ≡ i) × (id ≡ x)) ⊎ (get i s.turn_of ≡ some x)
          → ((s.queues.next ≡ k) × (id ≡ x)) ⊎ (get k s.turn_of ≡ some x)
          → i ≡ k
      one_job i k x (inl (a, b)) (inl (c, d)) = sym a ∙ c
      one_job i k x (inl (a, b)) (inr f) = absurd (same_id k x b f)
      one_job i k x (inr e) (inl (c, d)) = absurd (same_id i x d e)
      one_job i k x (inr e) (inr f) = v.once i k x e f

      still_latest :
          (x : Text)
          → (id == x) ≡ true ⊎ (id == x) ≡ false
          → (after.turns x).phase ≡ prompting
          → IsLatest node x after
      still_latest x (inl same) q = absurd (
          ground (
            arith,
            q,
            subst (λ y. (after.turns y).phase ≡ queued) (eq_of id x same)
                (opened_queued id key users s.server),
          ))
      still_latest x (inr other) q = opened-IsLatest id key users s.server x other (
          v.latest x
            (sym (ap (λ (t : Turn). t.phase) (other_turn id key users s.server x other)) ∙ q))
