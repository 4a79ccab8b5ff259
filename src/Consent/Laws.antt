-- ===== src/Consent/Laws.antt =====
-- What an agent is told, and what the user has said.
use llm_stack.Base.{
  ℕ, ◌≡◌, ◌∙◌, ◌⊎◌, refl, sym, ap, subst, List, [], ◌∷◌, ◌++◌, Option, some, Text, Map, get, last,
  last-append, text_eq, nat_eq, if◌then◌else◌, arith, inl, inr, if_ind, length, length-append,
}
use llm_stack.Js.{Json, ok, is_true}
use llm_stack.Server.Keys.{Node}
use llm_stack.Server.Turn
use llm_stack.Server.Turn.{
  Decision, allow, deny, cancel, on_permission, settle_if, settle, ask_key, IsUnderWay,
}
use llm_stack.Server.Turn.Permissions.{Reachable-Core}
use llm_stack.Server.Http.{Request, read_json, permissions}
use llm_stack.Acp.Options.{
  selected, reply_decided, Offered, allow_kinds, reject_kinds, reply_decided-Offered,
}
use llm_stack.Acp.Dispatch.{Acp, Ask, Sent, answers, array_of, taken, options_of}
use llm_stack.Consent.{
  Promise, at_once, of_turn, Link, promise_of, register, decision_of, at_place, without, resolve,
  Step, serves, times_out, talks, asks, resolves, Step, Reachable, here, next, permits,
}
use llm_stack.Consent.Server.{Allowed, Grants, settle_if-Grants, on_permission-Grants, Step-Grants}
use llm_stack.Consent.Answers.{
  Of, Parallel, Parallel-snoc, taken-Parallel, taken-none, decide-Answered, resolve-Resolved,
}
use llm_stack.Consent.Permits.{
  Consented, widened, Permitted, nothing, settled, permissions-Permitted, some-injective,
  settle_if-found, settle-Consented,
}

module _ (node : Node) (name : Text) (stringify : Json → Text) (shown : Option Json → Text)
    (history : Map Text (List Text)) where
  record Inv (bodies : List Json) (s : Link) : Type 0 where
    reached : Turn.Reachable node history s.server
    consents : (id : Text) (r : ℕ) → Allowed s.server id r → Consented bodies id r
    parallel : Parallel s.acp.asks s.promises

  -- A server's step that allows nothing.
  server-Inv :
      (bodies : List Json) (s : Link) (v : Turn.Server)
      → Turn.Step node s.server v
      → Grants s.server v
      → Inv bodies s
      → Inv bodies (record s { server = v })
  server-Inv bodies s v st g inv = record {
    reached = Turn.next inv.reached st;
    consents = λ id r a. inv.consents id r (g id r a);
    parallel = inv.parallel;
  }

  promise_of-Of :
      (x : Ask) (title : Text) (server : Turn.Server)
      → Of x (promise_of x.turn (on_permission x.turn title x.text server))
  unfolding on_permission
  promise_of-Of x title server =
      if_ind (λ (r : Turn.Server × Option Decision). Of x (promise_of x.turn r))
        (server.turns x.turn).aborted (server, some cancel) _ (λ _. refl) (λ _. refl)

  register-Inv :
      (bodies : List Json) (x : Ask) (a : Acp) (s : Link)
      → a.asks ≡ s.acp.asks ++ x ∷ []
      → IsUnderWay (s.server.turns x.turn).phase
      → Inv bodies s
      → Inv bodies (register shown x a s)
  unfolding register
  register-Inv bodies x a s e u inv = record {
    reached = Turn.next inv.reached (Turn.asks_permission x.turn (shown x.title) x.text u refl);
    consents = λ id r k.
        inv.consents id r (on_permission-Grants x.turn (shown x.title) x.text s.server id r k);
    parallel =
        subst
          (λ l. Parallel l (
            s.promises
            ++ promise_of x.turn (on_permission x.turn (shown x.title) x.text s.server) ∷ []))
          (sym e)
          (Parallel-snoc s.acp.asks s.promises x _ inv.parallel
            (promise_of-Of x (shown x.title) s.server));
  }

  resolve-Inv :
      (bodies : List Json) (n : ℕ) (s t : Link)
      → resolve n s ≡ some (ok t)
      → Inv bodies s
      → Inv bodies t
  resolve-Inv bodies n s t e inv =
      let r = resolve-Resolved n s t e in
      record {
        reached = subst (Turn.Reachable node history) (sym r.server) inv.reached;
        consents = λ id q a. inv.consents id q (subst (λ v. Allowed v id q) r.server a);
        parallel = elim (decide-Answered n r.decision s.acp t.acp r.client) [
          | inl (gone, _) ↦
              absurd (taken-none n s.acp.asks s.promises r.promise gone r.at inv.parallel)
          | inr a ↦
              subst (λ ps. Parallel t.acp.asks ps) (sym r.promises)
                (subst (λ l. Parallel l (without n s.promises)) (sym a.left)
                  (taken-Parallel n s.acp.asks a.more s.promises a.ask r.promise a.was r.at
                    inv.parallel).1)
        ];
      }

  permit-Inv :
      (bodies : List Json) (req : Request) (body : Json) (s : Link)
      → read_json node req ≡ some body
      → Inv bodies s
      → Inv (body ∷ bodies) (record s { server = (permissions node req s.server).1 })
  permit-Inv bodies req body s is_read inv =
      by_case (permissions node req s.server).1
        (permissions-Permitted node req body s.server is_read)
    where
      by_case :
          (v : Turn.Server)
          → Permitted body s.server v
          → Inv (body ∷ bodies) (record s { server = v })
      by_case v (nothing same) = record {
        reached = subst (Turn.Reachable node history) (sym same) inv.reached;
        consents = λ id r q.
            widened body bodies id r (inv.consents id r (subst (λ u. Allowed u id r) same q));
        parallel = inv.parallel;
      }
      by_case v (settled k a allows asked found decides e) =
          let d = if is_true allows then allow else deny in
          let l = (Reachable-Core inv.reached).listed k a found in
          record {
            reached =
                Turn.next inv.reached
                  (Turn.settles k d (e ∙ sym (settle_if-found k a d s.server found)));
            consents = λ id r q.
                settle-Consented bodies body s.server k a allows asked l.is_key decides inv.consents
                  id r (subst (λ u. Allowed u id r) e q);
            parallel = inv.parallel;
          }

  Step-Inv :
      (bodies : List Json) (s t : Link)
      → Step node name stringify shown s t
      → Inv bodies s
      → Inv bodies t
  Step-Inv bodies s t (serves v st o e) inv =
      subst (Inv bodies) (sym e) (server-Inv bodies s v st (Step-Grants st o) inv)
  Step-Inv bodies s t (times_out k e) inv = subst (Inv bodies) (sym e) (
      server-Inv bodies s _ (Turn.settles k deny refl) (settle_if-Grants k deny s.server (λ h. cc))
        inv)
  Step-Inv bodies s t (talks a st quiet e) inv = subst (Inv bodies) (sym e) (record {
    reached = inv.reached;
    consents = inv.consents;
    parallel = subst (λ l. Parallel l s.promises) (sym quiet) inv.parallel;
  })
  Step-Inv bodies s t (asks m a x read grown u e) inv =
      subst (Inv bodies) (sym e) (register-Inv bodies x a s grown u inv)
  Step-Inv bodies s t (resolves n e) inv = resolve-Inv bodies n s t e inv

  Reachable-Inv :
      (bodies : List Json) (s : Link)
      → Reachable node name stringify shown history bodies s
      → Inv bodies s
  unfolding get
  Reachable-Inv _ _ here = record {
    reached = Turn.here;
    consents = λ id r a. absurd (ground (arith, a));
    parallel = tt;
  }
  Reachable-Inv bodies t (next {s = s} r st) = Step-Inv bodies s t st (Reachable-Inv bodies s r)
  Reachable-Inv _ _ (permits {bodies = bodies} {s = s} req body is_read r) =
      permit-Inv bodies req body s is_read (Reachable-Inv bodies s r)

  same_answer :
      (sent : List Sent) (x y : Sent) (l : List Sent)
      → l ≡ sent ++ x ∷ []
      → l ≡ sent ++ y ∷ []
      → x ≡ y
  same_answer sent x y l e f =
      let h : some x ≡ some y =
        sym (last-append sent x) ∙ (ap last (sym e ∙ f) ∙ last-append sent y) in
      cc

  not_grown : (sent : List Sent) (x : Sent) → sent ≡ sent ++ x ∷ [] → ⊥
  not_grown sent x e = omega (arith, ap length e, length-append sent (x ∷ []))

  by_user :
      (bodies : List Json) (s : Link) (a : Ask) (p : Promise)
      → Inv bodies s
      → Of a p
      → decision_of p s.server ≡ some allow
      → (r : ℕ) × (p ≡ of_turn a.turn r) × Consented bodies a.turn r
  by_user bodies s a (at_once d) inv own e = absurd (ground (arith, own, some-injective d allow e))
  by_user bodies s a (of_turn turn r) inv own e =
      (r, ap (λ x. of_turn x r) own, subst (λ x. Consented bodies x r) own (inv.consents turn r e))

  by_decision :
      (bodies : List Json) (n : ℕ) (s : Link) (a : Ask) (p : Promise) (d : Decision)
      (options : List Json) (o : Option Json)
      → Inv bodies s
      → Of a p
      → at_place n s.promises ≡ some p
      → decision_of p s.server ≡ some d
      → options_of d a ≡ ok options
      → reply_decided d options ≡ ok (selected o)
      → (array_of a.options ≡ ok options)
        × (((r : ℕ) × (at_place n s.promises ≡ some (of_turn a.turn r))
              × Consented bodies a.turn r
              × Offered options allow_kinds o)
            ⊎ Offered options reject_kinds o)
  unfolding reply_decided
  by_decision bodies n s a p allow options o inv own at e offers replies =
      let (r, is, c) = by_user bodies s a p inv own e in
      (offers, inl (r, at ∙ ap some is, c, reply_decided-Offered allow options o replies))
  by_decision bodies n s a p deny options o inv own at e offers replies =
      (offers, inr (reply_decided-Offered deny options o replies))
  by_decision bodies n s a p cancel options o inv own at e offers replies =
      absurd (ground (arith, replies))

  -- No permission without the user. On the interaction path, an agent that is answered with an
  -- option is answered on the ask at that place, with one of the options of that ask. Either it is
  -- one that rejects, or it is one that allows, and then the permissions endpoint has read a body
  -- that has `allow: true` and names the turn that was asked and the number of this very request.
  pub user_consents :
      (bodies : List Json) (n : ℕ) (s t : Link) (id o : Option Json)
      → Reachable node name stringify shown history bodies s
      → resolve n s ≡ some (ok t)
      → t.acp.sent ≡ s.acp.sent ++ answers id (selected o) ∷ []
      → (a : Ask) × (more : List Ask) × (options : List Json) × (taken n s.acp.asks
          ≡ some (a, more))
        × (a.id ≡ id)
        × (array_of a.options ≡ ok options)
        × (((r : ℕ) × (at_place n s.promises ≡ some (of_turn a.turn r))
              × Consented bodies a.turn r
              × Offered options allow_kinds o)
            ⊎ Offered options reject_kinds o)
  user_consents bodies n s t id o reached e told_option =
      let inv = Reachable-Inv bodies s reached in
      let r = resolve-Resolved n s t e in
      elim (decide-Answered n r.decision s.acp t.acp r.client) [
        | inl (_, same) ↦ absurd (
            not_grown s.acp.sent (answers id (selected o))
              (ap (λ (x : Acp). x.sent) same ∙ told_option))
        | inr a ↦
            let it = same_answer s.acp.sent _ _ t.acp.sent a.tells told_option in
            let same_id : a.ask.id ≡ id = cc in
            let reply : a.reply ≡ selected o = cc in
            let own =
              (taken-Parallel n s.acp.asks a.more s.promises a.ask r.promise a.was r.at
                inv.parallel).0 in
            let (list, verdict) =
              by_decision bodies n s a.ask r.promise r.decision a.options o inv own r.at r.decided
                a.offers (a.replies ∙ ap ok reply) in
            (a.ask, a.more, a.options, a.was, same_id, list, verdict)
      ]
