-- ===== src/Pi/Laws.antt =====
-- The sessions of the chats of pi.
use mathlib.Core.List.{map-append}
use llm_stack.Base.{
  ℕ, zero, suc, ◌≡◌, ◌∙◌, refl, ap, inl, inr, Bool, true, false, List, [], ◌∷◌, ◌++◌, Option, none,
  some, Text, Map, get, put, map, get-put, get-nil, ◌==◌, text_eq, eq_of, if◌then◌else◌, arith,
  Option-cases, Bool-cases, ◌<◌,
}
use llm_stack.Pi.{Pi, started, session, made, sessions_of, stop}

-- 0, …, n - 1
pub upto : ℕ → List ℕ
upto zero = []
upto (suc n) = upto n ++ n ∷ []

abbrev number : Text × ℕ → ℕ
number e = e.1

put_new : (k : Text) (v : ℕ) (m : Map Text ℕ) → get k m ≡ none → put k v m ≡ m ++ (k, v) ∷ []
unfolding get put
put_new k v [] h = refl
put_new k v ((j, w) ∷ m) h = elim (Bool-cases (j == k)) [
  | inl is ↦ absurd (ground (arith, h, is))
  | inr other ↦ rw other (ap (◌∷◌ (j, w)) (put_new k v m (ground (arith, h, other))))
]

record Inv (p : Pi) : Type 0 where
  kept : p.disposed ≡ []
  numbered : map number p.sessions ≡ upto p.created
  below : (k : Text) (n : ℕ) → get k p.sessions ≡ some n → n < p.created
  apart : (j k : Text) (n : ℕ) → get j p.sessions ≡ some n → get k p.sessions ≡ some n → j ≡ k

started-Inv : Inv started
unfolding upto
started-Inv = record {
  kept = refl;
  numbered = refl;
  below = λ k n e. absurd (nothing (get-nil k) e);
  apart = λ j k n e f. absurd (nothing (get-nil j) e);
}
  where
    nothing : {o : Option ℕ} {n : ℕ} → o ≡ none → o ≡ some n → ⊥
    nothing h e = ground arith

made-Inv :
    (key : Text) (p : Pi)
    → get key p.sessions ≡ none
    → Inv p
    → Inv (record p { sessions = put key p.created p.sessions; created = suc p.created })
unfolding upto
made-Inv key p new v = record {
  kept = v.kept;
  numbered =
      ap (map number) (put_new key p.created p.sessions new)
      ∙ map-append number p.sessions ((key, p.created) ∷ [])
      ∙ ap (λ l. l ++ p.created ∷ []) v.numbered;
  below = λ k n e. ground (arith, get-put key k p.created p.sessions, v.below k n, e);
  apart = λ j k n e f.
      let ej = get-put key j p.created p.sessions in
      let ek = get-put key k p.created p.sessions in
      ground
        (arith, ej, ek, e, f, eq_of key j, eq_of key k, v.below j n, v.below k n, v.apart j k n);
}

session-Inv : (creates : Bool) (key : Text) (p : Pi) → Inv p → Inv (session creates key p).1
unfolding session
session-Inv creates key p v = elim (Option-cases (get key p.sessions)) [
  | inl new ↦ rw (new, session) (by_answer creates new)
  | inr (s, is) ↦ rw (is, session) v
]
  where
    by_answer : (b : Bool) → get key p.sessions ≡ none → Inv (if b then made key p else (none, p)).1
    by_answer true new = made-Inv key p new v
    by_answer false new = v

sessions_of-Inv : (calls : List (Bool × Text)) (p : Pi) → Inv p → Inv (sessions_of calls p)
unfolding sessions_of
sessions_of-Inv [] p v = v
sessions_of-Inv ((creates, key) ∷ more) p v =
    sessions_of-Inv more (session creates key p).1 (session-Inv creates key p v)

-- Whatever chats ask for their sessions, and whichever cannot be created: two chats that then have
-- the same session are one chat, and `stop` disposes of every session that was created, in the
-- order of their creation and each once.
pub sessions_apart :
    (calls : List (Bool × Text)) (j k : Text) (n : ℕ)
    → get j (sessions_of calls started).sessions ≡ some n
    → get k (sessions_of calls started).sessions ≡ some n
    → (j ≡ k)
      × ((stop (sessions_of calls started)).disposed ≡ upto (sessions_of calls started).created)
unfolding stop
sessions_apart calls j k n e f =
    let v = sessions_of-Inv calls started started-Inv in
    (
      v.apart j k n e f,
      ap (λ l. l ++ map number (sessions_of calls started).sessions) v.kept ∙ v.numbered,
    )
