-- ===== src/Server/Turn/Asking.antt =====
-- The invariant of the permission requests where a turn makes a new one.
use llm_stack.Base.{
  ℕ, suc, ◌+◌, ◌≡◌, ◌≢◌, ◌∙◌, refl, sym, ap, subst, inl, inr, ◌&&◌, ◌||◌, List, [], ◌∷◌, ◌++◌, some,
  Text, get, put, get-put, ◌==◌, text_eq, nat_eq, text_beq_iff, eq_refl, eq_of, if◌then◌else◌,
  arith, Bool-cases,
}
use llm_stack.Server.Turn.{Turn, Ask, Server, unopened, ask_key, NoSlash, ask_user}
use llm_stack.Server.Turn.Invariant.{Core, Listed, ask_key_beq, pending, decisions, made, contains}

contains-append :
    (k : Text) (xs ys : List Text) → contains k (xs ++ ys) ≡ (contains k xs || contains k ys)
contains-append k [] ys = refl
contains-append k (x ∷ xs) ys = ground (arith, contains-append k xs ys)

-- A new request in an opened turn.
module _ (id title detail : Text) (s : Server) (opened : (s.turns id).phase ≢ unopened)
    (c : Core s) where
  k : Text
  k = ask_key id (suc (s.turns id).asked)

  asking_listing :
      (j : Text) (b : Ask)
      → get j (ask_user id title detail s).asks ≡ some b
      → Listed j b (ask_user id title detail s)
  unfolding ask_user k
  asking_listing j b e =
      let written =
        sym (get-put k j (record { turn = id; request = suc (s.turns id).asked }) s.asks) ∙ e in
      elim (Bool-cases (k == j)) [
        | inl same ↦
            let new : record { turn = id; request = suc (s.turns id).asked } ≡ b =
              ground (arith, written, same) in
            subst (λ a. Listed j a (ask_user id title detail s)) new
              (record {
                is_key = sym (eq_of k j same);
                named = c.named id opened;
                opened = rw (eq_refl id) (λ p. opened (ground arith));
                listed = rw (eq_refl id) (
                    ground (
                      arith,
                      contains-append j (s.turns id).mine (k ∷ []),
                      text_beq_iff j k,
                      eq_of k j same,
                    ));
              })
        | inr other ↦
            let l = c.listed j b (ground (arith, written, other)) in
            elim (Bool-cases (id == b.turn)) [
              | inl same ↦
                  let turn_of : s.turns id ≡ s.turns b.turn = ap s.turns (eq_of id b.turn same) in
                  record {
                    is_key = l.is_key;
                    named = l.named;
                    opened = rw (same, turn_of) (ground (arith, l.opened));
                    listed = rw same (
                        ground (
                          arith,
                          contains-append j (s.turns id).mine (k ∷ []),
                          ap (λ (t : Turn). contains j t.mine) turn_of,
                          l.listed,
                        ));
                  }
              | inr apart ↦ record {
                is_key = l.is_key;
                named = l.named;
                opened = rw apart l.opened;
                listed = rw apart l.listed;
              }
            ]
      ]

  asking-once :
      (j : Text) (r : ℕ)
      → NoSlash j
      → decisions j r (ask_user id title detail s) + pending j r (ask_user id title detail s)
        ≡ made j r (ask_user id title detail s)
  unfolding ask_user k
  asking-once j r h = elim (Bool-cases (id == j)) [
    | inl same ↦
        let turn_of : s.turns id ≡ s.turns j = ap s.turns (eq_of id j same) in
        rw (same, turn_of) (ground (arith, written, key_of, turn_of, same, c.once j r h))
    | inr other ↦ rw other (ground (arith, written, key_of, other, c.once j r h))
  ]
    where
      key_of : (k == ask_key j r) ≡ ((id == j) && (suc (s.turns id).asked == r))
      key_of = ask_key_beq id j (suc (s.turns id).asked) r (c.named id opened) h

      written :
          get (ask_key j r) (put k (record { turn = id; request = suc (s.turns id).asked }) s.asks)
          ≡ (if k == ask_key j r
              then some (record { turn = id; request = suc (s.turns id).asked })
              else get (ask_key j r) s.asks)
      written = get-put k (ask_key j r) _ s.asks

  pub asking-Core : Core (ask_user id title detail s)
  unfolding ask_user
  asking-Core = record {
    listed = asking_listing;
    once = asking-once;
    named = λ j ne. elim (Bool-cases (id == j)) [
      | inl same ↦ subst NoSlash (eq_of id j same) (c.named id opened)
      | inr other ↦ c.named j (rw other at ne)
    ];
    unused = λ j e. elim (Bool-cases (id == j)) [
      | inl same ↦ absurd (opened (ground (arith, rw same at e)))
      | inr other ↦ rw other (c.unused j (rw other at e))
    ];
  }
