-- ===== src/Server/Completion/Laws.antt =====
-- What a client reads of a chat completion, as a stream or as one reply.
use mathlib.Core.List.{append-nil, append_assoc}
use llm_stack.Base.{
  ◌≡◌, ◌⊎◌, inl, inr, refl, sym, ap, Bool, true, false, List, [], ◌∷◌, ◌++◌, none, some, Text,
  codes, if◌then◌else◌, arith, Bool-cases, ◌∙◌, if_ind, ◌+◌, ℕ,
}
use llm_stack.Server.Completion.{
  Callback, on_text, on_reasoning, Ending, returns, fails, Write, headers, role, content, reasoning,
  finish, done, reply, error, Progress, on_callback, on_callbacks, opening, closing, completion,
}

-- The answer that a client puts together from what is written.
abbrev pub shown : List Write → Text
shown [] = []
shown (content t f ∷ ws) = t ++ shown ws
shown (reply t ∷ ws) = t ++ shown ws
shown (_ ∷ ws) = shown ws

abbrev pub texts : List Callback → Text
texts [] = []
texts (on_text t ∷ cs) = t ++ texts cs
texts (on_reasoning t ∷ cs) = texts cs

-- No text was reported.
abbrev pub is_silent : List Callback → Bool
is_silent [] = true
is_silent (on_text t ∷ cs) = false
is_silent (on_reasoning t ∷ cs) = is_silent cs

shown-append : (ws vs : List Write) → shown (ws ++ vs) ≡ shown ws ++ shown vs
shown-append [] vs = refl
shown-append (content t f ∷ ws) vs =
    ap (λ x. t ++ x) (shown-append ws vs) ∙ sym (append_assoc t (shown ws) (shown vs))
shown-append (reply t ∷ ws) vs =
    ap (λ x. t ++ x) (shown-append ws vs) ∙ sym (append_assoc t (shown ws) (shown vs))
shown-append (headers ∷ ws) vs = shown-append ws vs
shown-append (role ∷ ws) vs = shown-append ws vs
shown-append (reasoning t ∷ ws) vs = shown-append ws vs
shown-append (finish t ∷ ws) vs = shown-append ws vs
shown-append (done ∷ ws) vs = shown-append ws vs
shown-append (error t ∷ ws) vs = shown-append ws vs

shown-on_callbacks :
    (cs : List Callback) (p : Progress)
    → shown (on_callbacks true cs p).writes ≡ shown p.writes ++ texts cs
unfolding on_callbacks on_callback
shown-on_callbacks [] p = sym (append-nil (shown p.writes))
shown-on_callbacks (on_text t ∷ cs) p =
    shown-on_callbacks cs _
    ∙ (ap (λ x. x ++ texts cs)
          (shown-append p.writes (content t none ∷ [])
            ∙ ap (λ x. shown p.writes ++ x) (append-nil t))
        ∙ append_assoc (shown p.writes) t (texts cs))
shown-on_callbacks (on_reasoning t ∷ cs) p =
    shown-on_callbacks cs _
    ∙ ap (λ x. x ++ texts cs)
        (shown-append p.writes (reasoning t ∷ []) ∙ append-nil (shown p.writes))

quiet : (cs : List Callback) (p : Progress) → (on_callbacks false cs p).writes ≡ p.writes
unfolding on_callbacks on_callback
quiet [] p = refl
quiet (on_text t ∷ cs) p = quiet cs _
quiet (on_reasoning t ∷ cs) p = quiet cs _

streamed_of :
    (stream : Bool) (cs : List Callback) (p : Progress)
    → (on_callbacks stream cs p).streamed ≡ (if is_silent cs then p.streamed else true)
unfolding on_callbacks on_callback
streamed_of stream [] p = refl
streamed_of stream (on_text t ∷ cs) p =
    streamed_of stream cs _
    ∙ if_ind (λ b. b ≡ true) (is_silent cs) true true (λ _. refl) (λ _. refl)
streamed_of stream (on_reasoning t ∷ cs) p = streamed_of stream cs _

texts_of_silent : (cs : List Callback) → is_silent cs ≡ true → texts cs ≡ []
texts_of_silent [] h = refl
texts_of_silent (on_text t ∷ cs) h = absurd (ground arith)
texts_of_silent (on_reasoning t ∷ cs) h = texts_of_silent cs h

-- The final text that a stream still sends: all of it after silence, nothing where there was text.
shown-closing :
    (streamed aborted : Bool) (final : Text)
    → shown (closing true streamed aborted (returns final)) ≡ (if streamed then [] else final)
unfolding closing
shown-closing true aborted final = refl
shown-closing false aborted [] = refl
shown-closing false aborted (c ∷ final) = append-nil (c ∷ final)

-- What a client puts together from a completion is the answer that the backend returned, streamed
-- or not, if the texts that the backend reported are its answer in pieces, or if it reported none.
pub answer_shown :
    (stream : Bool) (cs : List Callback) (aborted : Bool) (final : Text)
    → (texts cs ≡ final) ⊎ (is_silent cs ≡ true)
    → shown (completion stream cs aborted (returns final)) ≡ final
unfolding completion
answer_shown false cs aborted final h =
    unfold closing in rw (quiet cs (opening false)) (append-nil final)
answer_shown true cs aborted final h =
    shown-append (on_callbacks true cs (opening true)).writes _
    ∙ (ap
          (λ x.
            x
            ++ shown (
                closing true (on_callbacks true cs (opening true)).streamed aborted
                  (returns final)))
          (shown-on_callbacks cs (opening true))
        ∙ ap (λ x. texts cs ++ x)
            (shown-closing (on_callbacks true cs (opening true)).streamed aborted final
              ∙ ap (λ (b : Bool). if b then [] else final) (streamed_of true cs (opening true)))
        ∙ pieces h)
  where
    pieces :
        (texts cs ≡ final) ⊎ (is_silent cs ≡ true)
        → texts cs ++ (if (if is_silent cs then false else true) then [] else final) ≡ final
    pieces (inr quiet_cs) = rw (quiet_cs, texts_of_silent cs quiet_cs) refl
    pieces (inl whole) = elim (Bool-cases (is_silent cs)) [
      | inl quiet_cs ↦ rw (quiet_cs, texts_of_silent cs quiet_cs) refl
      | inr heard ↦ rw heard (append-nil (texts cs) ∙ whole)
    ]

abbrev total : (Write → ℕ) → List Write → ℕ
total f [] = 0
total f (w ∷ ws) = f w + total f ws

abbrev reason_weight : Write → ℕ
reason_weight (content t (some f)) = 1
reason_weight (finish t) = 1
reason_weight _ = 0

abbrev done_weight : Write → ℕ
done_weight done = 1
done_weight _ = 0

-- How many writes end a stream: the chunks with a finish reason, and the DONE line.
abbrev pub reasons : List Write → ℕ
reasons ws = total reason_weight ws

abbrev pub dones : List Write → ℕ
dones ws = total done_weight ws

total-append : (f : Write → ℕ) (ws vs : List Write) → total f (ws ++ vs) ≡ total f ws + total f vs
total-append f [] vs = omega arith
total-append f (w ∷ ws) vs = ap (λ k. f w + k) (total-append f ws vs) ∙ omega arith

on_callbacks_ends :
    (cs : List Callback) (p : Progress)
    → (reasons (on_callbacks true cs p).writes ≡ reasons p.writes)
      × (dones (on_callbacks true cs p).writes ≡ dones p.writes)
unfolding on_callbacks on_callback
on_callbacks_ends [] p = (refl, refl)
on_callbacks_ends (on_text t ∷ cs) p =
    let rest = on_callbacks_ends cs (on_callback true (on_text t) p) in
    (
      rest.0 ∙ (total-append reason_weight p.writes (content t none ∷ []) ∙ omega arith),
      rest.1 ∙ (total-append done_weight p.writes (content t none ∷ []) ∙ omega arith),
    )
on_callbacks_ends (on_reasoning t ∷ cs) p =
    let rest = on_callbacks_ends cs (on_callback true (on_reasoning t) p) in
    (
      rest.0 ∙ (total-append reason_weight p.writes (reasoning t ∷ []) ∙ omega arith),
      rest.1 ∙ (total-append done_weight p.writes (reasoning t ∷ []) ∙ omega arith),
    )

-- What is written at the end: maybe text, then a chunk with a finish reason and the DONE line.
record Closed (ws : List Write) : Type 0 where
  before : List Write
  reason : Write
  is_all : ws ≡ before ++ reason ∷ done ∷ []
  is_reason : reasons (reason ∷ []) ≡ 1
  no_reason : reasons before ≡ 0
  no_done : dones before ≡ 0

closing-Closed : (streamed : Bool) (end : Ending) → Closed (closing true streamed false end)
unfolding closing
closing-Closed true (returns final) = record {
  before = [];
  reason = finish (codes "stop");
  is_all = refl;
  is_reason = refl;
  no_reason = refl;
  no_done = refl;
}
closing-Closed false (returns []) = record {
  before = [];
  reason = finish (codes "stop");
  is_all = refl;
  is_reason = refl;
  no_reason = refl;
  no_done = refl;
}
closing-Closed false (returns (c ∷ final)) = record {
  before = content (c ∷ final) none ∷ [];
  reason = finish (codes "stop");
  is_all = refl;
  is_reason = refl;
  no_reason = refl;
  no_done = refl;
}
closing-Closed streamed (fails err) = record {
  before = [];
  reason = content (codes "\n\nAgent error: " ++ err) (some (codes "stop"));
  is_all = refl;
  is_reason = refl;
  no_reason = refl;
  no_done = refl;
}

-- While the client is there, a stream ends with a chunk with a finish reason and the DONE line behind
-- it, and nothing that is written before these two has a finish reason or is a DONE line, whether the
-- turn succeeds or fails and whatever the backend reports.
pub stream_ends_once :
    (cs : List Callback) (end : Ending)
    → (before : List Write) × (reason : Write) × (completion true cs false end
        ≡ before ++ reason ∷ done ∷ [])
      × (reasons (reason ∷ []) ≡ 1)
      × (reasons before ≡ 0)
      × (dones before ≡ 0)
unfolding completion
stream_ends_once cs end =
    let p = on_callbacks true cs (opening true) in
    let heard = on_callbacks_ends cs (opening true) in
    let c = closing-Closed p.streamed end in
    (
      p.writes ++ c.before,
      c.reason,
      ap (λ l. p.writes ++ l) c.is_all ∙ sym (append_assoc p.writes c.before _),
      c.is_reason,
      total-append reason_weight p.writes c.before ∙ rw (heard.0, c.no_reason) refl,
      total-append done_weight p.writes c.before ∙ rw (heard.1, c.no_done) refl,
    )
