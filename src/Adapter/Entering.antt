-- ===== src/Adapter/Entering.antt =====
-- A job enters `prompt`: the session that it is given is that of no other job.
use llm_stack.Base.{
  ℕ, ◌≡◌, ◌≢◌, ◌∙◌, refl, sym, ap, subst, Bool, true, none, some, Text, get, put, get-put, ◌==◌,
  nat_eq, text_eq, eq_of, eq_refl, arith, Option-cases, inl, inr, if_ind,
}
use llm_stack.Js.{Json}
use llm_stack.Server.Queue.Invariant.{Reachable-Inv}
use llm_stack.Acp.Sessions.{Agent, Sessions}
use llm_stack.Acp.Sessions.Given.{Given}
use llm_stack.Acp.Dispatch
use llm_stack.Acp.Dispatch.{Acp, Listener, on_message, decide, begin_prompt, end_prompt, abort}
use llm_stack.Adapter.{Adapter, entered, IsFresh, IsApart}
use llm_stack.Server.Queue.Jobs.{Runs, Runs-once}
use llm_stack.Adapter.Invariant.{Inv}

module _ (name : Text) (stringify : Json → Text) where
  module _ (agent : Agent) (key id : Text) (s : Adapter) (ss : Sessions) (i : ℕ) where
    pub named : Given agent key s.sessions (some id, ss) → get key ss.map ≡ some id
    named (inl (same, at)) = ap (get key) same ∙ at
    named (inr (_, put_in)) =
        ap (get key) put_in ∙ (get-put key key id s.sessions.map ∙ rw (eq_refl key) refl)

    -- The session that a running job is given is that of no other job.
    pub own_session :
        (k : ℕ)
        → Given agent key s.sessions (some id, ss)
        → IsFresh agent s
        → Runs s.queues i key
        → get k s.under_way ≡ some id
        → Inv name stringify s
        → k ≡ i
    own_session k g fresh r u v =
        let (other, theirs, at) = v.owned k id u in by_origin other theirs at g
      where
        by_origin :
            (other : Text)
            → Runs s.queues k other
            → get other s.sessions.map ≡ some id
            → Given agent key s.sessions (some id, ss)
            → k ≡ i
        by_origin other theirs at (inl (_, mine)) =
            Runs-once s.queues k i key (Reachable-Inv v.queues)
              (subst (Runs s.queues k) (v.apart other key id at mine) theirs) r
        by_origin other theirs at (inr (new, _)) = absurd (fresh other id new at)

    pub idle :
        Given agent key s.sessions (some id, ss)
        → IsFresh agent s
        → Runs s.queues i key
        → get i s.under_way ≡ none
        → Inv name stringify s
        → get id s.acp.updates ≡ none
    idle g fresh r none_yet v = elim (Option-cases (get id s.acp.updates)) [
      | inl free ↦ free
      | inr (l, u) ↦
          let (k, w) = v.listened id l u in
          let mine : get i s.under_way ≡ some id =
            subst (λ x. get x s.under_way ≡ some id) (own_session k g fresh r w v) w in
          absurd (ground (arith, mine, none_yet))
    ]

    pub sessions_kept :
        Given agent key s.sessions (some id, ss)
        → IsFresh agent s
        → IsApart s.sessions.map
        → IsApart ss.map
    sessions_kept (inl (same, _)) fresh v = subst IsApart (sym same) v
    sessions_kept (inr (new, put_in)) fresh v = subst IsApart (sym put_in) (λ k l x e f. ground (
      arith,
      get-put key k id s.sessions.map,
      get-put key l id s.sessions.map,
      e,
      f,
      eq_of key k,
      eq_of key l,
      fresh k id new,
      fresh l id new,
      v k l x,
    ))

    -- The other jobs keep their sessions.
    pub kept_entry :
        (k : ℕ) (x other : Text)
        → Given agent key s.sessions (some id, ss)
        → Runs s.queues i key
        → Runs s.queues k other
        → k ≢ i
        → Inv name stringify s
        → get other s.sessions.map ≡ some x
        → get other ss.map ≡ some x
    kept_entry k x other (inl (same, _)) mine theirs ne v at = ap (get other) same ∙ at
    kept_entry k x other (inr (_, put_in)) mine theirs ne v at =
        ap (get other) put_in
        ∙ (get-put key other id s.sessions.map
            ∙ if_ind (λ o. o ≡ some x) (key == other) (some id) (get other s.sessions.map)
                (λ same. absurd (
                  ne (
                    Runs-once s.queues k i key (Reachable-Inv v.queues)
                      (subst (Runs s.queues k) (sym (eq_of key other same)) theirs) mine)))
                (λ _. at))

    pub entered-Inv :
        (turn : Text) (interactive : Bool)
        → Given agent key s.sessions (some id, ss)
        → IsFresh agent s
        → Runs s.queues i key
        → get i s.under_way ≡ none
        → Inv name stringify s
        → Inv name stringify (entered i turn interactive s (some id, ss))
    unfolding begin_prompt
    entered-Inv turn interactive g fresh r none_yet v = record {
      queues = v.queues;
      acp =
          Dispatch.next v.acp
            (Dispatch.begins id turn interactive (idle g fresh r none_yet v) refl);
      apart = sessions_kept g fresh v.apart;
      owned = λ k x u.
          if_ind
            (λ o. o ≡ some x → (other : Text) × Runs s.queues k other × (get other ss.map ≡ some x))
            (i == k) (some id) (get k s.under_way)
            (λ same e.
              let it : id ≡ x = ground arith in
              (
                key,
                subst (λ n. Runs s.queues n key) (eq_of i k same) r,
                subst (λ y. get key ss.map ≡ some y) it (named g),
              ))
            (λ apart e.
              let (other, theirs, at) = v.owned k x e in
              let ne : k ≢ i =
                (λ same. ground (arith, subst (λ y. (y == k) ≡ true) same (eq_refl k), apart)) in
              (other, theirs, kept_entry k x other g r theirs ne v at))
            (sym (get-put i k id s.under_way) ∙ u);
      listened = λ x l u.
          if_ind (λ o. o ≡ some l → (k : ℕ) × (get k (put i id s.under_way) ≡ some x)) (id == x)
            (some _) (get x s.acp.updates)
            (λ same e. (i, get-put i i id s.under_way ∙ rw (eq_refl i) (ap some (eq_of id x same))))
            (λ apart e.
              let (k, w) = v.listened x l e in
              (
                k,
                get-put i k id s.under_way
                    ∙ if_ind (λ o. o ≡ some x) (i == k) (some id) (get k s.under_way)
                        (λ same. absurd (
                          ground (
                            arith,
                            none_yet,
                            subst (λ n. get n s.under_way ≡ some x) (sym (eq_of i k same)) w,
                          )))
                        (λ _. w),
              ))
            (sym (get-put id x _ s.acp.updates) ∙ u);
    }
