-- ===== src/Server/Turn/Chat.antt =====
-- What a turn does to the history of its chat, and what later turns of the chat meet.
use mathlib.Core.List.{Sublistᴰ, map-append}
use llm_stack.Base.{
  ◌≤◌, ◌≡◌, ◌∙◌, refl, ap, inl, inr, Bool, true, false, List, [], ◌∷◌, ◌++◌, map, Option, none,
  some, Text, get-put, text_eq, eq_refl, arith, Bool-cases, length, length-append, length-map, init,
  last, init-last,
}
use llm_stack.Server.Keys.{Node, prompt_hash}
use llm_stack.Server.History.{continues}
use llm_stack.Server.History.Laws.{
  continues_iff, Sublistᴰ-snoc, Sublistᴰ-append, length_of_Sublistᴰ, nil-Sublistᴰ,
}
use llm_stack.Server.Turn.{Turn, Server, received, run_turn, last_or}

module _ (node : Node) (has_session : Bool) (id : Text) (s : Server)
    (live : (s.turns id).aborted ≡ false) where
  abbrev t : Turn
  t = s.turns id

  -- The prompts of the chat before the turn.
  abbrev got : List Text
  got = received t.key s

  -- The turn is accepted: its prompt's hash goes to the end of the chat's history, whether or not
  -- the file can be written.
  run_turn-received :
      (save_error : Option Text)
      → continues node got (init t.users) ≡ true
      → received t.key (run_turn node has_session save_error id s)
        ≡ got ++ prompt_hash node (last_or t.users) ∷ []
  unfolding run_turn
  run_turn-received none e = rw (live, e) (rw get-put (rw (eq_refl t.key) refl))
  run_turn-received (some m) e = rw (live, e) (rw get-put (rw (eq_refl t.key) refl))

  run_turn_refused :
      (save_error : Option Text)
      → continues node got (init t.users) ≡ false
      → (run_turn node has_session save_error id s).history ≡ s.history
  unfolding run_turn
  run_turn_refused save_error e = rw (live, e) refl

  map-users :
      {u : Text}
      → last t.users ≡ some u
      → map (prompt_hash node) t.users
        ≡ map (prompt_hash node) (init t.users) ++ prompt_hash node (last_or t.users) ∷ []
  map-users {u} e = rw e (
      ap (map (prompt_hash node)) (init-last t.users e)
      ∙ map-append (prompt_hash node) (init t.users) (u ∷ []))

  -- A turn that is accepted can be continued: whatever messages the client appends, the next turn
  -- of the chat is not refused.
  pub continue_after :
      (save_error : Option Text) (u : Text) (more : List Text)
      → last t.users ≡ some u
      → continues node got (init t.users) ≡ true
      → continues node
          (received t.key (run_turn node has_session save_error id s))
          (t.users ++ more)
        ≡ true
  continue_after save_error u more e accepted = (continues_iff node _ (t.users ++ more)).1 (
      rw
        (
          run_turn-received save_error accepted,
          map-append (prompt_hash node) t.users more,
          map-users e,
        )
        (Sublistᴰ-append (map (prompt_hash node) more) (
          Sublistᴰ-snoc (prompt_hash node (last_or t.users))
            ((continues_iff node got (init t.users)).0 accepted))))

  -- A regenerated or edited last message is refused, if the agent has received every earlier
  -- message: no list of as many messages in front is continued.
  pub regenerate_refused :
      (save_error : Option Text) (earlier : List Text)
      → length got ≡ length (init t.users)
      → length earlier ≤ length (init t.users)
      → continues node got (init t.users) ≡ true
      → continues node (received t.key (run_turn node has_session save_error id s)) earlier ≡ false
  regenerate_refused save_error earlier full short accepted =
      elim (Bool-cases
        (continues node (received t.key (run_turn node has_session save_error id s)) earlier)) [
          | inr refused ↦ refused
          | inl again ↦ absurd (
              omega (
                arith,
                length_of_Sublistᴰ ((continues_iff node _ earlier).0 again),
                ap length (run_turn-received save_error accepted),
                length-append got (prompt_hash node (last_or t.users) ∷ []),
                length-map (prompt_hash node) earlier,
                full,
                short,
              ))
        ]

  -- A turn on a new agent session whose prompt stands among the earlier messages too can be
  -- regenerated: the same messages are accepted once more.
  pub regenerate_repeated :
      (save_error : Option Text) (u : Text) (before after : List Text)
      → got ≡ []
      → last t.users ≡ some u
      → init t.users ≡ before ++ u ∷ after
      → continues node got (init t.users) ≡ true
      → continues node (received t.key (run_turn node has_session save_error id s)) (init t.users)
        ≡ true
  regenerate_repeated save_error u before after none_yet e repeated accepted =
      (continues_iff node _ (init t.users)).1 (
        rw
          (
            run_turn-received save_error accepted,
            none_yet,
            repeated,
            e,
            map-append (prompt_hash node) before (u ∷ after),
          )
          (found_in (map (prompt_hash node) before)))
    where
      found_in :
          (xs : List Text)
          → Sublistᴰ
              (prompt_hash node u ∷ [])
              (xs ++ prompt_hash node u ∷ map (prompt_hash node) after)
      found_in [] = Sublistᴰ.cons-cons refl (nil-Sublistᴰ (map (prompt_hash node) after))
      found_in (x ∷ xs) = Sublistᴰ.cons (found_in xs)
