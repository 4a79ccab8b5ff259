-- ===== src/Server/Chats/Invariant.antt =====
-- What ties a turn to its job, and the steps that do not begin a turn.
use llm_stack.Base.{
  ℕ, ◌≡◌, ◌≢◌, ◌∙◌, refl, sym, ap, subst, true, List, Option, none, some, Text, Map, get, text_eq,
  nat_eq, arith, Bool-cases, inl, inr,
}
use llm_stack.Server.Keys.{Node}
use llm_stack.Server.Queue
use llm_stack.Server.Queue.{
  Status, waiting, running, finished, retired, Job, Queues, job, serialize, start, finish, retire,
  starting, finishing, retiring,
}
use llm_stack.Server.Queue.Invariant.{Reachable-Inv}
use llm_stack.Server.Queue.Moves.{Moved, stays, moves, serialize-job, finish-Moved, retire-Moved}
use llm_stack.Server.Turn
use llm_stack.Server.Turn.{
  Turn, Phase, unopened, queued, prompting, over, NoSlash, open_turn, run_turn, submit, received,
  last_or,
}
use llm_stack.Server.Chats.{Chats, is_done, is_over, with_queues, settle, IsLatest}
use llm_stack.Server.Chats.Kept.{Same, Kept}

-- The status of the job of a turn in this phase.
abbrev pub Fits : Phase → Status → Type 0
Fits unopened st = ⊥
Fits queued st = st ≡ waiting
Fits prompting st = st ≡ running
Fits over st = st ≢ waiting

pub record Held (q : Queues) (i : ℕ) (t : Turn) : Type 0 where
  pub self : Job
  pub found : job i q.jobs ≡ some self
  pub of_chat : self.key ≡ t.key
  pub fits : Fits t.phase self.status

pub waiting_is_queued : (p : Phase) (st : Status) → Fits p st → st ≡ waiting → p ≡ queued
waiting_is_queued unopened st f e = absurd f
waiting_is_queued queued st f e = refl
waiting_is_queued prompting st f e = absurd (ground (arith, f, e))
waiting_is_queued over st f e = absurd (f e)

finished_is_over : (p : Phase) (st : Status) → Fits p st → st ≡ finished → p ≡ over
finished_is_over unopened st f e = absurd f
finished_is_over queued st f e = absurd (ground (arith, f, e))
finished_is_over prompting st f e = absurd (ground (arith, f, e))
finished_is_over over st f e = refl

over-Fits : (p : Phase) (st : Status) → p ≡ over → st ≢ waiting → Fits p st
over-Fits p st e ne = subst (λ x. Fits x st) (sym e) ne

pub running-Fits : (p : Phase) → p ≢ queued → p ≢ unopened → Fits p running
running-Fits unopened a b = b refl
running-Fits queued a b = absurd (a refl)
running-Fits prompting a b = refl
running-Fits over a b = λ e. cc

same-Fits : (x y : Turn) (st : Status) → Same x y → Fits x.phase st → Fits y.phase st
same-Fits x y st k f = elim k.phase [
  | inl e ↦ subst (λ p. Fits p st) (sym e) f
  | inr (was, is) ↦
      over-Fits y.phase st is
        (λ w. let r : st ≡ running = subst (λ p. Fits p st) was f in ground (arith, r, w))
]

pub started_from :
    (j : Job) (st : Status) → starting j.status ≡ some st → (j.status ≡ waiting) × (st ≡ running)
started_from j st e = by_status j.status e
  where
    by_status : (x : Status) → starting x ≡ some st → (x ≡ waiting) × (st ≡ running)
    by_status waiting e = (refl, ground (arith, e))
    by_status running e = absurd (ground (arith, e))
    by_status finished e = absurd (ground (arith, e))
    by_status retired e = absurd (ground (arith, e))

finished_from : (j : Job) (st : Status) → finishing j.status ≡ some st → st ≡ finished
finished_from j st e = by_status j.status e
  where
    by_status : (x : Status) → finishing x ≡ some st → st ≡ finished
    by_status waiting e = absurd (ground (arith, e))
    by_status running e = ground (arith, e)
    by_status finished e = absurd (ground (arith, e))
    by_status retired e = absurd (ground (arith, e))

retired_from :
    (j : Job) (st : Status) → retiring j.status ≡ some st → (j.status ≡ finished) × (st ≡ retired)
retired_from j st e = by_status j.status e
  where
    by_status : (x : Status) → retiring x ≡ some st → (x ≡ finished) × (st ≡ retired)
    by_status waiting e = absurd (ground (arith, e))
    by_status running e = absurd (ground (arith, e))
    by_status finished e = (refl, ground (arith, e))
    by_status retired e = absurd (ground (arith, e))

pub some_is : (x y : Text) → some x ≡ some y → x ≡ y
some_is x y e = cc

module _ (node : Node) (history : Map Text (List Text)) where
  pub record Inv (s : Chats) : Type 0 where
    pub queues : Queue.Reachable s.queues
    pub server : Turn.Reachable node history s.server
    pub held : (i : ℕ) (id : Text) → get i s.turn_of ≡ some id → Held s.queues i (s.server.turns id)
    pub listed :
        (id : Text) → (s.server.turns id).phase ≢ unopened → (i : ℕ) × (get i s.turn_of ≡ some id)
    pub once : (i k : ℕ) (id : Text) → get i s.turn_of ≡ some id → get k s.turn_of ≡ some id → i ≡ k
    pub latest : (id : Text) → (s.server.turns id).phase ≡ prompting → IsLatest node id s.server

  -- A step of the queues that the turns fit.
  pub queues-Inv :
      (s : Chats) (q : Queues)
      → Queue.Step s.queues q
      → ((i : ℕ) (id : Text)
          → get i s.turn_of ≡ some id
          → Held s.queues i (s.server.turns id)
          → Held q i (s.server.turns id))
      → Inv s
      → Inv (record s { queues = q })
  queues-Inv s q st on v = record {
    queues = Queue.next v.queues st;
    server = v.server;
    held = λ i id e. on i id e (v.held i id e);
    listed = v.listed;
    once = v.once;
    latest = v.latest;
  }

  pub serialize-Held :
      (key : Text) (i : ℕ) (q : Queues) (t : Turn)
      → Queue.Reachable q
      → Held q i t
      → Held (serialize key q) i t
  serialize-Held key i q t r h = record {
    self = h.self;
    found = serialize-job key i h.self q (Reachable-Inv r) h.found;
    of_chat = h.of_chat;
    fits = h.fits;
  }

  pub moved-Held :
      (f : Status → Option Status) (i k : ℕ) (q u : Queues) (t : Turn) (h : Held q k t)
      → Moved f i k h.self u.jobs
      → ((st : Status) → i ≡ k → f h.self.status ≡ some st → Fits t.phase st)
      → Held u k t
  moved-Held f i k q u t h (stays ne at) on = record {
    self = h.self;
    found = at;
    of_chat = h.of_chat;
    fits = h.fits;
  }
  moved-Held f i k q u t h (moves same st to at) on = record {
    self = record h.self { status = st };
    found = at;
    of_chat = h.of_chat;
    fits = on st same to;
  }

  with_queues-Inv :
      (s t : Chats) (o : Option Queues)
      → with_queues s o ≡ some t
      → ((q : Queues) → o ≡ some q → Inv (record s { queues = q }))
      → Inv t
  with_queues-Inv s t none e h = absurd (ground (arith, e))
  with_queues-Inv s t (some q) e h =
      let to : record s { queues = q } ≡ t = ground (arith, e) in subst Inv to (h q refl)

  pub retire-Inv :
      (i : ℕ) (s t : Chats) → with_queues s (retire i s.queues) ≡ some t → Inv s → Inv t
  retire-Inv i s t e v = with_queues-Inv s t (retire i s.queues) e (λ q done.
      queues-Inv s q (Queue.retires i done)
        (λ k id at h.
          moved-Held retiring i k s.queues q (s.server.turns id) h
            (retire-Moved i k h.self s.queues q done h.found)
            (λ st same to.
              let (was, is) = retired_from h.self st to in
              over-Fits (s.server.turns id).phase st
                (finished_is_over (s.server.turns id).phase h.self.status h.fits was)
                (λ w. ground (arith, is, w))))
        v)

  is_done-over :
      (s : Chats) (o : Option Text) (id : Text)
      → o ≡ some id
      → is_done o s ≡ true
      → (s.server.turns id).phase ≡ over
  is_done-over s none id e d = absurd (ground (arith, e))
  is_done-over s (some x) id e d =
      subst (λ y. (s.server.turns y).phase ≡ over) (some_is x id e)
        (by_phase (s.server.turns x).phase d)
    where
      by_phase : (p : Phase) → is_over p ≡ true → p ≡ over
      by_phase unopened e = absurd (ground (arith, e))
      by_phase queued e = absurd (ground (arith, e))
      by_phase prompting e = absurd (ground (arith, e))
      by_phase over e = refl

  pub settle-Inv : (i : ℕ) (s t : Chats) → settle i s ≡ some t → Inv s → Inv t
  unfolding settle
  settle-Inv i s t e v = elim (Bool-cases (is_done (get i s.turn_of) s)) [
    | inr not_done ↦ absurd (ground (arith, e, not_done))
    | inl done ↦ with_queues-Inv s t (finish i s.queues) (ground (arith, e, done)) (λ q ended.
        queues-Inv s q (Queue.finishes i ended)
          (λ k id at h.
            moved-Held finishing i k s.queues q (s.server.turns id) h
              (finish-Moved i k h.self s.queues q ended h.found)
              (λ st same to.
                over-Fits (s.server.turns id).phase st
                  (is_done-over s (get i s.turn_of) id (ap (λ n. get n s.turn_of) same ∙ at) done)
                  (λ w. ground (arith, finished_from h.self st to, w))))
          v)
  ]

  pub serve-Inv :
      (s : Chats) (w : Turn.Server) (st : Turn.Step node s.server w)
      → Kept s.server w
      → Inv s
      → Inv (record s { server = w })
  serve-Inv s w st k v = record {
    queues = v.queues;
    server = Turn.next v.server st;
    held = λ i id e.
        let h = v.held i id e in
        record {
          self = h.self;
          found = h.found;
          of_chat = h.of_chat ∙ sym (k.turns id).key;
          fits = same-Fits (s.server.turns id) (w.turns id) h.self.status (k.turns id) h.fits;
        };
    listed = λ id ne. v.listed id (λ e. ne (unopened_still id e));
    once = v.once;
    latest = λ id p.
        rw ((k.turns id).key, (k.turns id).users, k.history) (v.latest id (prompting_before id p));
  }
    where
      unopened_still :
          (id : Text) → (s.server.turns id).phase ≡ unopened → (w.turns id).phase ≡ unopened
      unopened_still id e = elim (k.turns id).phase [
        | inl same ↦ same ∙ e
        | inr (was, is) ↦ absurd (ground (arith, was, e))
      ]

      prompting_before :
          (id : Text) → (w.turns id).phase ≡ prompting → (s.server.turns id).phase ≡ prompting
      prompting_before id p = elim (k.turns id).phase [
        | inl same ↦ sym same ∙ p
        | inr (was, is) ↦ was
      ]
