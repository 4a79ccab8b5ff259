-- ===== src/Acp/Migrate/Laws.antt =====
-- What a migration keeps and adds.
use llm_stack.Base.{
  not, ◌&&◌, any, ◌≤◌, ◌≡◌, ◌≢◌, ◌∙◌, ◌⊎◌, refl, sym, ap, subst, true, false, List, [], ◌∷◌, Option,
  none, some, Text, Map, get, put, get-put, ◌==◌, text_eq, eq_refl, eq_of, filter, All, ltb, arith,
  Bool-cases, inl, inr, if_ind,
}
use mathlib.Core.List.{Memᴰ}
use llm_stack.Js.{throws, ok, bind-eq-ok, ok-injective}
use llm_stack.Acp.Migrate.{
  compares, sorted, File, Maps, Files, is_session, insert_newer, newest_first, first_of, newest,
  native, is_mapped, hand_over, files_of, migrate_key, migrate_keys, migrate,
}

-- No session file is newer.
abbrev pub IsNewest : File → List File → Type 0
IsNewest f = All (λ g. g.mtime ≤ f.mtime)

IsNewest-trans : (f g : File) (fs : List File) → f.mtime ≤ g.mtime → IsNewest f fs → IsNewest g fs
IsNewest-trans f g [] le h = tt
IsNewest-trans f g (x ∷ xs) le (h, hs) = (omega (arith, le, h), IsNewest-trans f g xs le hs)

-- The head of the sorted files bounds what was sorted.
Bounds : List File → List File → Type 0
Bounds [] fs = fs ≡ []
Bounds (f ∷ _) fs = Memᴰ f fs × IsNewest f fs

insert_newer-Bounds :
    (f : File) (gs fs : List File) → Bounds gs fs → Bounds (insert_newer f gs) (f ∷ fs)
unfolding insert_newer Bounds
insert_newer-Bounds f [] fs h = rw h (Memᴰ.head refl, (omega arith, tt))
insert_newer-Bounds f (g ∷ gs) fs h =
    if_ind (λ l. Bounds l (f ∷ fs)) (ltb f.mtime g.mtime) (g ∷ insert_newer f gs) (f ∷ g ∷ gs)
      (λ older. (Memᴰ.tail h.0, (ground (arith, older), h.1)))
      (λ newer. (Memᴰ.head refl, (omega arith, IsNewest-trans g f fs (ground (arith, newer)) h.1)))

newest_first-Bounds : (fs : List File) → Bounds (newest_first fs) fs
unfolding newest_first Bounds
newest_first-Bounds [] = refl
newest_first-Bounds (f ∷ fs) = insert_newer-Bounds f (newest_first fs) fs (newest_first-Bounds fs)

newest-IsNewest :
    (fs : List File) (f : File)
    → newest fs ≡ ok (some f)
    → Memᴰ f (filter is_session fs) × IsNewest f (filter is_session fs)
unfolding newest Bounds
newest-IsNewest fs f e =
    let (gs, is_sorted, e₁) = bind-eq-ok (sorted files) _ e in
    if_ind (λ r. r ≡ ok gs → Memᴰ f files × IsNewest f files)
      (compares files && any (λ (g : File). not g.has_stat) files) throws (ok (newest_first files))
      (λ _ no. absurd (ground (arith, no)))
      (λ _ same.
        first (newest_first files) (newest_first-Bounds files) (
          ap first_of (ok-injective (newest_first files) gs same)
          ∙ ok-injective (first_of gs) _ e₁))
      is_sorted
  where
    files : List File
    files = filter is_session fs

    first :
        (gs : List File) → Bounds gs files → first_of gs ≡ some f → Memᴰ f files × IsNewest f files
    first [] h e = absurd (ground arith)
    first (g ∷ gs) h e =
        let same : g ≡ f = ground arith in subst (λ x. Memᴰ x files × IsNewest x files) same h

module _ (path : Text → Text → Text) (dirs : Text → Option (List File)) where
  -- What becomes of a chat: nothing, or it had no session and gets that of its newest file.
  pub data Fate (k : Text) (m n : Files) : Type 0 where
    kept :
        get k n.map_file ≡ get k m.map_file
        → get (native k) n.store_file ≡ get (native k) m.store_file
        → Fate k m n
    handed :
        (f : File) (fs : List File)
        → is_mapped (get k m.map_file) ≡ false
        → dirs k ≡ some fs
        → Memᴰ f (filter is_session fs)
        → IsNewest f (filter is_session fs)
        → get k n.map_file ≡ some (native k)
        → get (native k) n.store_file
          ≡ some (record { session_id = native k; session_file = path k f.name })
        → Fate k m n

  Fate-trans : (k : Text) (l m n : Files) → Fate k l m → Fate k m n → Fate k l n
  Fate-trans k l m n (kept a b) (kept c d) = kept (c ∙ a) (d ∙ b)
  Fate-trans k l m n (kept a b) (handed f fs u dir own new c d) =
      handed f fs (subst (λ o. is_mapped o ≡ false) a u) dir own new c d
  Fate-trans k l m n (handed f fs u dir own new a b) (kept c d) =
      handed f fs u dir own new (c ∙ a) (d ∙ b)
  Fate-trans k l m n (handed f fs u dir own new a b) (handed f' fs' u' dir' own' new' c d) =
      absurd (ground (arith, a, u'))

  abbrev files : Maps → Files
  files m = record { map_file = m.map; store_file = m.store }

  put_ne : {V : Type 0} (k j : Text) (v : V) (m : Map Text V) → k ≢ j → get j (put k v m) ≡ get j m
  put_ne k j v m ne =
      get-put k j v m
      ∙ if_ind (λ o. o ≡ get j m) (k == j) (some v) (get j m) (λ same. absurd (ne (eq_of k j same)))
          (λ _. refl)

  put_eq : {V : Type 0} (k : Text) (v : V) (m : Map Text V) → get k (put k v m) ≡ some v
  put_eq k v m = get-put k k v m ∙ rw (eq_refl k) refl

  native-injective : (k j : Text) → native k ≡ native j → k ≡ j
  native-injective k j e = cc

  handed-Fate :
      (k j : Text) (m : Maps) (f : File) (fs : List File)
      → is_mapped (get k m.map) ≡ false
      → dirs k ≡ some fs
      → newest fs ≡ ok (some f)
      → Fate j (files m) (files (hand_over path k m (some f)))
  handed-Fate k j m f fs u dir e = elim (Bool-cases (k == j)) [
    | inl same ↦
        subst (λ x. Fate x (files m) (files (hand_over path k m (some f)))) (eq_of k j same)
          (handed f fs u dir (newest-IsNewest fs f e).0 (newest-IsNewest fs f e).1
            (put_eq k (native k) m.map) (put_eq (native k) _ m.store))
    | inr other ↦
        let ne : k ≢ j = (λ e. ground (arith, subst (λ x. (k == x) ≡ true) e (eq_refl k), other)) in
        kept (put_ne k j (native k) m.map ne)
          (put_ne (native k) (native j) _ m.store (λ e. ne (native-injective k j e)))
  ]

  -- Nothing is left to hand over for a chat.
  abbrev pub IsSettled : Map Text Text → Text → Type 0
  IsSettled m k = (is_mapped (get k m) ≡ true) ⊎ (files_of (dirs k) ≡ ok none)

  -- What a pass of the loop does to the maps, where it does not throw.
  data Pass (k : Text) (m n : Maps) : Type 0 where
    nothing : n ≡ m → IsSettled m.map k → Pass k m n
    hands :
        (f : File) (fs : List File)
        → is_mapped (get k m.map) ≡ false
        → dirs k ≡ some fs
        → newest fs ≡ ok (some f)
        → n ≡ hand_over path k m (some f)
        → Pass k m n

  migrate_key-Pass : (k : Text) (m n : Maps) → migrate_key path dirs k m ≡ ok n → Pass k m n
  unfolding migrate_key
  migrate_key-Pass k m n =
      if_ind (λ r. r ≡ ok n → Pass k m n) (is_mapped (get k m.map)) (ok m) _
        (λ h e. nothing (sym (ok-injective m n e)) (inl h))
        (λ u e.
          let (o, found, e₁) = bind-eq-ok (files_of (dirs k)) _ e in
          by_dir (dirs k) refl o found (ok-injective _ n e₁) u)
    where
      by_dir :
          (d : Option (List File))
          → dirs k ≡ d
          → (o : Option File) → files_of d ≡ ok o
          → hand_over path k m o ≡ n
          → is_mapped (get k m.map) ≡ false
          → Pass k m n
      by_dir d is none found e u = nothing (sym e) (inr (ap files_of is ∙ found))
      by_dir none is (some f) found e u = absurd (ground (arith, found))
      by_dir (some fs) is (some f) found e u = hands f fs u is found (sym e)

  Pass-Fate : (k j : Text) (m n : Maps) → Pass k m n → Fate j (files m) (files n)
  Pass-Fate k j m n (nothing e h) = subst (λ x. Fate j (files m) (files x)) (sym e) (kept refl refl)
  Pass-Fate k j m n (hands f fs u dir is e) =
      subst (λ x. Fate j (files m) (files x)) (sym e) (handed-Fate k j m f fs u dir is)

  migrate_keys-Fate :
      (ks : List Text) (j : Text) (m n : Maps)
      → migrate_keys path dirs ks m ≡ ok n
      → Fate j (files m) (files n)
  unfolding migrate_keys
  migrate_keys-Fate [] j m n e =
      subst (λ x. Fate j (files m) (files x)) (ok-injective m n e) (kept refl refl)
  migrate_keys-Fate (k ∷ ks) j m n e =
      let (o, pass, rest) = bind-eq-ok (migrate_key path dirs k m) _ e in
      Fate-trans j (files m) (files o) (files n) (Pass-Fate k j m o (migrate_key-Pass k m o pass))
        (migrate_keys-Fate ks j o n rest)

  Fate-IsSettled :
      (j : Text) (m n : Files) → Fate j m n → IsSettled m.map_file j → IsSettled n.map_file j
  Fate-IsSettled j m n (kept a b) (inl h) = inl (ap is_mapped a ∙ h)
  Fate-IsSettled j m n (handed f fs u dir own new a b) (inl h) = inl (ap is_mapped a)
  Fate-IsSettled j m n fate (inr h) = inr h

  Pass-IsSettled : (k : Text) (m n : Maps) → Pass k m n → IsSettled n.map k
  Pass-IsSettled k m n (nothing e h) = subst (λ (x : Maps). IsSettled x.map k) (sym e) h
  Pass-IsSettled k m n (hands f fs u dir is e) =
      inl (ap (λ (x : Maps). is_mapped (get k x.map)) e ∙ ap is_mapped (put_eq k (native k) m.map))

  migrate_keys-IsSettled :
      (ks : List Text) (m n : Maps) → migrate_keys path dirs ks m ≡ ok n → All (IsSettled n.map) ks
  unfolding migrate_keys
  migrate_keys-IsSettled [] m n e = tt
  migrate_keys-IsSettled (k ∷ ks) m n e =
      let (o, pass, rest) = bind-eq-ok (migrate_key path dirs k m) _ e in
      (
        Fate-IsSettled k (files o) (files n) (migrate_keys-Fate ks k o n rest)
            (Pass-IsSettled k m o (migrate_key-Pass k m o pass)),
        migrate_keys-IsSettled ks o n rest,
      )

  settled_key : (k : Text) (m : Maps) → IsSettled m.map k → migrate_key path dirs k m ≡ ok m
  unfolding migrate_key
  settled_key k m (inl h) = rw h refl
  settled_key k m (inr h) =
      if_ind (λ r. r ≡ ok m) (is_mapped (get k m.map)) (ok m) _ (λ _. refl) (λ _. rw h refl)

  settled_keys :
      (ks : List Text) (m : Maps) → All (IsSettled m.map) ks → migrate_keys path dirs ks m ≡ ok m
  unfolding migrate_keys
  settled_keys [] m h = refl
  settled_keys (k ∷ ks) m (h, hs) = rw (settled_key k m h) (settled_keys ks m hs)

  -- The loop has changed nothing, or says that it has.
  changed_keys :
      (ks : List Text) (m n : Maps)
      → migrate_keys path dirs ks m ≡ ok n
      → (n ≡ m) ⊎ (n.changed ≡ true)
  unfolding migrate_keys
  changed_keys [] m n e = inl (sym (ok-injective m n e))
  changed_keys (k ∷ ks) m n e =
      let (o, pass, rest) = bind-eq-ok (migrate_key path dirs k m) _ e in
      elim (changed_keys ks o n rest) [
        | inr is ↦ inr is
        | inl same ↦ elim (migrate_key-Pass k m o pass) [
          | nothing still h ↦ inl (same ∙ still)
          | hands f fs u dir is new ↦ inr (ap (λ (x : Maps). x.changed) (same ∙ new))
        ]
      ]

  abbrev from_files : Files → Maps
  from_files f = record { map = f.map_file; store = f.store_file; changed = false }

  -- What the loop leaves is what the two files then hold, written or not.
  migrate-eq :
      (ks : List Text) (f g : Files)
      → migrate path dirs (some ks) f ≡ ok g
      → (n : Maps) × (migrate_keys path dirs ks (from_files f) ≡ ok n) × (g ≡ files n)
  unfolding migrate
  migrate-eq ks f g e =
      let (n, done, e₁) = bind-eq-ok (migrate_keys path dirs ks (from_files f)) _ e in
      (
        n,
        done,
        sym (ok-injective _ g e₁)
            ∙ if_ind (λ x. x ≡ files n) n.changed (files n) f (λ _. refl)
                (λ same. elim (changed_keys ks (from_files f) n done) [
                  | inl still ↦ ap files (sym still)
                  | inr is ↦ absurd (ground (arith, same, is))
                ]),
      )

  settled_files :
      (ks : List Text) (g : Files)
      → All (IsSettled g.map_file) ks
      → migrate path dirs (some ks) g ≡ ok g
  unfolding migrate
  settled_files ks g h = rw (settled_keys ks (from_files g) h) refl

  -- A migration that no unreadable file ends leaves each chat alone or, if it had no session, gives it
  -- the native session of the newest of the session files of its directory, in the chat map and in
  -- pi-acp's store; afterwards each chat of the directory has a session or has no session file; and a
  -- second migration changes nothing.
  pub migrate_lem :
      (ks : List Text) (f g : Files)
      → migrate path dirs (some ks) f ≡ ok g
      → ((k : Text) → Fate k f g)
        × All (IsSettled g.map_file) ks
        × (migrate path dirs (some ks) g ≡ ok g)
  migrate_lem ks f g e =
      let (n, done, is) = migrate-eq ks f g e in
      let all : All (IsSettled g.map_file) ks =
        subst (λ (x : Files). All (IsSettled x.map_file) ks) (sym is)
          (migrate_keys-IsSettled ks (from_files f) n done) in
      (
        (λ k. subst (Fate k f) (sym is) (migrate_keys-Fate ks k (from_files f) n done)),
        all,
        settled_files ks g all,
      )
