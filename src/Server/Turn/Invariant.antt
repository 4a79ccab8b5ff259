-- ===== src/Server/Turn/Invariant.antt =====
-- Every permission request of a turn is pending or has been decided, once; an aborted turn has
-- none pending.
use llm_stack.Base.{
  ℕ, suc, ◌+◌, ◌≡◌, ◌≢◌, ◌∙◌, refl, sym, ap, subst, inl, inr, Bool, true, false, not, ◌&&◌, List,
  [], ◌∷◌, none, some, Text, get, delete, get-delete, ◌==◌, text_eq, nat_eq, text_beq_iff, eq_refl,
  eq_of, leb, has, any, filter, if◌then◌else◌, arith, Bool-cases,
}
use llm_stack.Server.Turn.{
  Decision, Turn, Ask, Server, unopened, blank, set_turn, ask_key, settle, NoSlash,
}
use llm_stack.Server.Turn.Asks.{ask_key-injective}

abbrev pub contains : Text → List Text → Bool
contains k = any λ j. k == j

abbrev count_decided : ℕ → List (ℕ × Decision) → ℕ
count_decided r [] = 0
count_decided r ((q, d) ∷ ds) = if q == r then suc (count_decided r ds) else count_decided r ds

-- 1 while request `r` of the turn is pending.
abbrev pub pending : Text → ℕ → Server → ℕ
pending id r s = if has (ask_key id r) s.asks then 1 else 0

-- How often request `r` has been decided.
abbrev pub decisions : Text → ℕ → Server → ℕ
decisions id r s = count_decided r (s.turns id).decided

-- 1 if the turn has made request `r`: they are numbered from 1.
abbrev pub made : Text → ℕ → Server → ℕ
made id r s = if leb 1 r && leb r (s.turns id).asked then 1 else 0

-- A pending request is one of an opened turn, under its key, and the turn lists it.
pub record Listed (k : Text) (a : Ask) (s : Server) : Type 0 where
  pub is_key : k ≡ ask_key a.turn a.request
  pub named : NoSlash a.turn
  pub opened : (s.turns a.turn).phase ≢ unopened
  pub listed : contains k (s.turns a.turn).mine ≡ true

pub record Core (s : Server) : Type 0 where
  pub listed : (k : Text) (a : Ask) → get k s.asks ≡ some a → Listed k a s
  pub once : (id : Text) (r : ℕ) → NoSlash id → decisions id r s + pending id r s ≡ made id r s
  pub named : (id : Text) → (s.turns id).phase ≢ unopened → NoSlash id
  pub unused : (id : Text) → (s.turns id).phase ≡ unopened → s.turns id ≡ blank

-- What a change of a turn's variables leaves, as far as permissions are concerned.
pub record Quiet (t u : Turn) : Type 0 where
  pub asked : u.asked ≡ t.asked
  pub mine : u.mine ≡ t.mine
  pub decided : u.decided ≡ t.decided
  pub before : t.phase ≢ unopened
  pub after : u.phase ≢ unopened

pub quiet-Core :
    (id : Text) (u : Turn) (s s' : Server)
    → s'.asks ≡ s.asks
    → s'.turns ≡ s.turns
    → Quiet (s.turns id) u
    → Core s
    → Core (set_turn id u s')
quiet-Core id u s s' ea et q c = record {
  listed = λ k a e. elim (Bool-cases (id == a.turn)) [
    | inl same ↦
        let l = c.listed k a (ground (arith, e)) in
        let mine_of : s.turns id ≡ s.turns a.turn = ap s.turns (eq_of id a.turn same) in
        record {
          is_key = l.is_key;
          named = l.named;
          opened = rw same q.after;
          listed = rw (same, q.mine, mine_of) l.listed;
        }
    | inr other ↦
        let l = c.listed k a (ground (arith, e)) in
        record {
          is_key = l.is_key;
          named = l.named;
          opened = rw (other, et) l.opened;
          listed = rw (other, et) l.listed;
        }
  ];
  once = λ j r h. elim (Bool-cases (id == j)) [
    | inl same ↦
        let turn_of : s.turns id ≡ s.turns j = ap s.turns (eq_of id j same) in
        rw (same, ea, q.decided, q.asked, turn_of) (c.once j r h)
    | inr other ↦ rw (other, ea, et) (c.once j r h)
  ];
  named = λ j ne. elim (Bool-cases (id == j)) [
    | inl same ↦ subst NoSlash (eq_of id j same) (c.named id q.before)
    | inr other ↦ c.named j (rw (other, et) at ne)
  ];
  unused = λ j e. elim (Bool-cases (id == j)) [
    | inl same ↦ absurd (q.after (rw same at e))
    | inr other ↦ rw (other, et) (c.unused j (rw (other, et) at e))
  ];
}

contains-filter :
    (k j : Text) (xs : List Text)
    → (k == j) ≡ false
    → contains j (filter (λ i. not (k == i)) xs) ≡ contains j xs
contains-filter k j [] ne = refl
contains-filter k j (x ∷ xs) ne = elim (Bool-cases (k == x)) [
  | inl same ↦
      rw (same, contains-filter k j xs ne)
        (ground (arith, text_beq_iff k x, text_beq_iff j x, text_beq_iff k j))
  | inr other ↦ rw (other, contains-filter k j xs ne)
]

-- Keys are equal exactly where turns and numbers are.
pub ask_key_beq :
    (i j : Text) (m n : ℕ)
    → NoSlash i
    → NoSlash j
    → (ask_key i m == ask_key j n) ≡ ((i == j) && (m == n))
ask_key_beq i j m n hi hj = elim (Bool-cases (ask_key i m == ask_key j n)) [
  | inl same ↦
      let (p, q) = ask_key-injective i j m n hi hj (eq_of (ask_key i m) (ask_key j n) same) in
      rw (p, q) (rw (eq_refl (ask_key j n), eq_refl j, eq_refl n))
  | inr other ↦ rw other (elim (Bool-cases ((i == j) && (m == n))) [
    | inl both ↦
        let p : i ≡ j = eq_of i j (ground arith) in
        let q : m ≡ n = ground arith in
        absurd (
          ground (
            arith,
            text_beq_iff (ask_key i m) (ask_key j n),
            ap (λ x. ask_key x m) p,
            ap (ask_key j) q,
          ))
    | inr apart ↦ sym apart
  ])
]

settle-once :
    (k : Text) (a : Ask) (d : Decision) (s : Server) (id : Text) (r : ℕ)
    → NoSlash id
    → get k s.asks ≡ some a
    → Listed k a s
    → Core s
    → decisions id r (settle k a d s) + pending id r (settle k a d s) ≡ made id r (settle k a d s)
unfolding settle
settle-once k a d s id r h e l c = elim (Bool-cases (a.turn == id)) [
  | inl same ↦
      let turn_of : s.turns a.turn ≡ s.turns id = ap s.turns (eq_of a.turn id same) in
      rw (same, turn_of)
        (ground (arith, deleted, key_of, same, c.once id r h, text_beq_iff k (ask_key id r)))
  | inr other ↦ rw other (ground (arith, deleted, key_of, c.once id r h))
]
  where
    deleted :
        get (ask_key id r) (delete k s.asks)
        ≡ (if k == ask_key id r then none else get (ask_key id r) s.asks)
    deleted = get-delete k (ask_key id r) s.asks

    key_of : (k == ask_key id r) ≡ ((a.turn == id) && (a.request == r))
    key_of = rw l.is_key (ask_key_beq a.turn id a.request r l.named h)

settle-Listed :
    (k : Text) (a : Ask) (d : Decision) (s : Server) (j : Text) (b : Ask)
    → (k == j) ≡ false
    → Listed j b s
    → Listed j b (settle k a d s)
unfolding settle
settle-Listed k a d s j b ne l = elim (Bool-cases (a.turn == b.turn)) [
  | inl same ↦
      let turn_of : s.turns a.turn ≡ s.turns b.turn = ap s.turns (eq_of a.turn b.turn same) in
      record {
        is_key = l.is_key;
        named = l.named;
        opened = rw (same, turn_of) l.opened;
        listed = rw (same, turn_of, contains-filter k j (s.turns b.turn).mine ne) l.listed;
      }
  | inr other ↦ record {
    is_key = l.is_key;
    named = l.named;
    opened = rw other l.opened;
    listed = rw other l.listed;
  }
]

pub settle-Core :
    (k : Text) (a : Ask) (d : Decision) (s : Server)
    → get k s.asks ≡ some a
    → Core s
    → Core (settle k a d s)
unfolding settle
settle-Core k a d s e c = record {
  listed = λ j b q. elim (Bool-cases (k == j)) [
    | inl same ↦ absurd (ground (arith, unsettled j b q, same))
    | inr other ↦ settle-Listed k a d s j b other (c.listed j b (ground (arith, unsettled j b q)))
  ];
  once = λ id r h. settle-once k a d s id r h e l c;
  named = λ id ne. elim (Bool-cases (a.turn == id)) [
    | inl same ↦ subst NoSlash (eq_of a.turn id same) l.named
    | inr other ↦ c.named id (λ p. ne (rw other p))
  ];
  unused = λ id p. elim (Bool-cases (a.turn == id)) [
    | inl same ↦ absurd (l.opened (settled_phase id same p))
    | inr other ↦ rw other (c.unused id (rw other at p))
  ];
}
  where
    l : Listed k a s
    l = c.listed k a e

    unsettled :
        (j : Text) (b : Ask)
        → get j (settle k a d s).asks ≡ some b
        → (if k == j then none else get j s.asks) ≡ some b
    unsettled j b q = sym (get-delete k j s.asks) ∙ q

    settled_phase :
        (id : Text)
        → (a.turn == id) ≡ true
        → ((settle k a d s).turns id).phase ≡ unopened
        → (s.turns a.turn).phase ≡ unopened
    settled_phase id same p = rw same at p
