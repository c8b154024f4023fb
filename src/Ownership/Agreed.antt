-- ===== src/Ownership/Agreed.antt =====
-- internal/observation and internal/claim: the two computations of owners, compared.
use aninode.Prelude.{
  ℕ, ◌≡◌, ◌↔◌, refl, sym, ap, ◌∙◌, inl, inr, true, false, ◌&&◌, &&_iff, Text, text_eq, text_eq_iff,
  text_lt, Option, none, some, List, [], ◌∷◌, All, In, arith, Bool-cases, Option-cases, lookup,
  IsMap, lookup-In, In-IsMap-lookup, sort_stable, In-sort_stable, In-All, All-map, All-members,
  All-sort_stable,
}
use aninode.Ownership.{
  Snapshot, has_object, has_key, allows_key, owners_in, narrow, keys_of, source_owners, SourceIndex,
  source_of_entry, index_owners, build_index, allowed_of, owners_by_index, has_all, physical_owners,
}

has_key_iff : (ks : List Text) (k : Text) → (has_key ks k ≡ true) ↔ In k ks
unfolding has_key
has_key_iff [] k = (λ h. absurd cc, λ h. elim h [ ])
has_key_iff (j ∷ js) k = (
  λ h. elim (Bool-cases (text_eq j k)) [
    | inl t ↦ inl (sym ((text_eq_iff j k).0 t))
    | inr n ↦ inr ((has_key_iff js k).0 (rw n at h))
  ],
  λ h. elim h [
    | inl e ↦ rw ((text_eq_iff j k).1 (sym e)) refl
    | inr i ↦ let there = (has_key_iff js k).1 i in ground arith
  ],
)

-- A step of a loop keeps the candidates that hold the object.
abbrev Keeps : (Option (List Text) → ℕ → List Text) → (Text → ℕ → Type 0) → Type 0
Keeps step holds =
    (c : Option (List Text)) (o : ℕ) (k : Text)
    → In k (step c o) ↔ ((allows_key c k ≡ true) × holds k o)

module _ (step : Option (List Text) → ℕ → List Text) (holds : Text → ℕ → Type 0)
    (keeps : Keeps step holds) where
  -- Behind a step with the candidates `l`.
  narrow-from :
      (objects : List ℕ)
      → ((ks : List Text) (k : Text)
          → In k (keys_of (narrow step objects (some ks))) ↔ (In k ks × All (holds k) objects))
      → (l : List Text) (k : Text)
      → In k (keys_of (elim l [ [] ↦ some [] | x ∷ xs ↦ narrow step objects (some (x ∷ xs)) ]))
        ↔ (In k l × All (holds k) objects)
  unfolding keys_of
  narrow-from objects ih [] k = (λ h. elim h [ ], λ h. elim h.0 [ ])
  narrow-from objects ih (x ∷ xs) k = ih (x ∷ xs) k

  narrow-In :
      (objects : List ℕ) (ks : List Text) (k : Text)
      → In k (keys_of (narrow step objects (some ks))) ↔ (In k ks × All (holds k) objects)
  unfolding narrow keys_of allows_key
  narrow-In [] ks k = (λ h. (h, tt), λ h. h.0)
  narrow-In (o ∷ objects) ks k = (
    λ h.
        let (there, rest) = (narrow-from objects (narrow-In objects) (step (some ks) o) k).0 h in
        let (old, this) = (keeps (some ks) o k).0 there in ((has_key_iff ks k).0 old, (this, rest)),
    λ (old, (this, rest)).
        (narrow-from objects (narrow-In objects) (step (some ks) o) k).1
          ((keeps (some ks) o k).1 ((has_key_iff ks k).1 old, this), rest),
  )

  -- With an object at least, the loop ends with the keys that hold all of them.
  narrow-none-In :
      (o : ℕ) (objects : List ℕ) (k : Text)
      → In k (keys_of (narrow step (o ∷ objects) none)) ↔ All (holds k) (o ∷ objects)
  unfolding narrow keys_of allows_key
  narrow-none-In o objects k = (
    λ h.
        let (there, rest) = (narrow-from objects (narrow-In objects) (step none o) k).0 h in
        (((keeps none o k).0 there).1, rest),
    λ (this, rest).
        (narrow-from objects (narrow-In objects) (step none o) k).1
          ((keeps none o k).1 (refl, this), rest),
  )

-- The source of the Entry holds the object.
abbrev pub Holds : List (Text × Snapshot) → Text → ℕ → Type 0
Holds sources k o =
    (snapshot : Snapshot) × In (k, snapshot) sources × (has_object snapshot.objects o ≡ true)

owners_in-Keeps : (sources : List (Text × Snapshot)) → Keeps (owners_in sources) (Holds sources)
unfolding owners_in
owners_in-Keeps [] c o k = (λ h. elim h [ ], λ h. elim h.1.1 [ ])
owners_in-Keeps ((j, s) ∷ sources) c o k =
    let below = owners_in-Keeps sources c o k in
    elim (Bool-cases (has_object s.objects o && allows_key c j)) [
      | inl t ↦
          let (held, allowed) = (&&_iff (has_object s.objects o) (allows_key c j)).0 t in
          rw t (
            λ h. elim h [
              | inl e ↦ (rw e allowed, (s, inl (ap (λ x. (x, s)) e), held))
              | inr i ↦ let (a, (x, there, b)) = below.0 i in (a, (x, inr there, b))
            ],
            λ (a, (x, i, b)). elim i [
              | inl e ↦ inl (ap (λ p. p.0) e)
              | inr there ↦ inr (below.1 (a, (x, there, b)))
            ],
          )
      | inr f ↦ rw f (
        λ i. let (a, (x, there, b)) = below.0 i in (a, (x, inr there, b)),
        λ (a, (x, i, b)). elim i [
          | inl e ↦
              let both = (&&_iff (has_object s.objects o) (allows_key c j)).1 (
                sym (ap (λ p. has_object p.1.objects o) e) ∙ b,
                sym (ap (λ p. allows_key c p.0) e) ∙ a,
              ) in
              absurd (cc (f, both))
          | inr there ↦ below.1 (a, (x, there, b))
        ],
      )
    ]

allowed_of_iff :
    (c : Option (List Text)) (ks : List Text) (k : Text)
    → In k (allowed_of c ks) ↔ ((allows_key c k ≡ true) × In k ks)
unfolding allowed_of
allowed_of_iff c [] k = (λ h. elim h [ ], λ h. elim h.1 [ ])
allowed_of_iff c (j ∷ js) k =
    let below = allowed_of_iff c js k in
    elim (Bool-cases (allows_key c j)) [
      | inl t ↦ rw t (
        λ h. elim h [ inl e ↦ (rw e t, inl e) | inr i ↦ let (a, b) = below.0 i in (a, inr b) ],
        λ (a, i). elim i [ inl e ↦ inl e | inr there ↦ inr (below.1 (a, there)) ],
      )
      | inr f ↦ rw f (
        λ i. let (a, b) = below.0 i in (a, inr b),
        λ (a, i). elim i [
          | inl e ↦ absurd (cc (f, sym (ap (allows_key c) e) ∙ a))
          | inr there ↦ below.1 (a, there)
        ],
      )
    ]

index_owners_iff :
    (sources : List (Text × Snapshot)) (ks : List Text) (o : ℕ) (k : Text)
    → In k (index_owners sources ks o)
      ↔ (In k ks × (has_object (source_of_entry sources k).objects o ≡ true))
unfolding index_owners
index_owners_iff sources [] o k = (λ h. elim h [ ], λ h. elim h.0 [ ])
index_owners_iff sources (j ∷ js) o k =
    let below = index_owners_iff sources js o k in
    elim (Bool-cases (has_object (source_of_entry sources j).objects o)) [
      | inl t ↦ rw t (
        λ h. elim h [ inl e ↦ (inl e, rw e t) | inr i ↦ let (a, b) = below.0 i in (inr a, b) ],
        λ (i, b). elim i [ inl e ↦ inl e | inr there ↦ inr (below.1 (there, b)) ],
      )
      | inr f ↦ rw f (
        λ i. let (a, b) = below.0 i in (inr a, b),
        λ (i, b). elim i [
          | inl e ↦
              absurd
                (cc (f, sym (ap (λ x. has_object (source_of_entry sources x).objects o) e) ∙ b))
          | inr there ↦ below.1 (there, b)
        ],
      )
    ]

-- The snapshot of an Entry holds the object exactly where its source, if it has one, does.
source_of_entry-Holds :
    (sources : List (Text × Snapshot)) (k : Text) (o : ℕ)
    → IsMap sources
    → (has_object (source_of_entry sources k).objects o ≡ true) ↔ Holds sources k o
unfolding source_of_entry has_object
source_of_entry-Holds sources k o m = (
  λ h. elim (Option-cases (lookup k sources)) [
    | inl (snapshot, e) ↦ (snapshot, lookup-In k snapshot sources e, rw (e, source_of_entry) at h)
    | inr e ↦ absurd (cc (rw (e, source_of_entry) at h))
  ],
  λ (snapshot, i, b).
      let found = In-IsMap-lookup k snapshot sources m i in rw (source_of_entry, found) b,
)

-- The index that claim builds from the sources narrows by the same relation.
build_index-Keeps :
    (sources : List (Text × Snapshot)) (keys : List Text)
    → IsMap sources
    → Keeps (owners_by_index (build_index sources keys)) (λ k o. In k keys × Holds sources k o)
unfolding owners_by_index build_index
build_index-Keeps sources keys m c o k = (
  λ h.
      let (a, i) = (allowed_of_iff c (index_owners sources keys o) k).0 h in
      let (there, b) = (index_owners_iff sources keys o k).0 i in
      (a, (there, (source_of_entry-Holds sources k o m).0 b)),
  λ (a, (there, b)).
      (allowed_of_iff c (index_owners sources keys o) k).1 (
        a,
        (index_owners_iff sources keys o k).1 (there, (source_of_entry-Holds sources k o m).1 b),
      ),
)

In-sort_iff : (k : Text) (xs : List Text) → In k (sort_stable text_lt xs) ↔ In k xs
In-sort_iff k xs = (
  λ i.
      In-All (λ x. In x xs) k (sort_stable text_lt xs) i
        (All-sort_stable text_lt (λ x. In x xs) xs (All-members xs)),
  λ i. In-sort_stable text_lt k xs i,
)

complete_owners :
    (index : SourceIndex) (task : List ℕ) (owners : List Text)
    → physical_owners index task ≡ (owners, false)
    → owners ≡ sort_stable text_lt (keys_of (narrow (owners_by_index index) task none))
unfolding physical_owners
complete_owners index task owners h =
    elim (Bool-cases
      (has_all (keys_of (narrow (owners_by_index index) task none)) index.uncertain)) [
        | inr n ↦ absurd (cc (ap (λ r. r.1) (rw (n, physical_owners) at h)))
        | inl t ↦ sym (ap (λ r. r.0) (rw (t, physical_owners) at h))
      ]

-- For a task with an object at least: an Entry is among the owners that physicalOwners reports, where it
-- does not call the observation incomplete, exactly if the source of the Entry holds every object of the
-- task, and so it is with SourceOwners; the index is that of the same sources.
pub physical_owners-source_owners :
    (sources : List (Text × Snapshot)) (keys : List Text) (o : ℕ) (objects : List ℕ)
    (owners : List Text) (k : Text)
    → IsMap sources
    → physical_owners (build_index sources keys) (o ∷ objects) ≡ (owners, false)
    → In k keys
    → (In k owners ↔ All (Holds sources k) (o ∷ objects))
      × (In k (source_owners sources (o ∷ objects)) ↔ All (Holds sources k) (o ∷ objects))
unfolding source_owners
physical_owners-source_owners sources keys o objects owners k m h entry =
    let index = build_index sources keys in
    let sorted = complete_owners index (o ∷ objects) owners h in
    let candidates = keys_of (narrow (owners_by_index index) (o ∷ objects) none) in
    let held =
      narrow-none-In (owners_by_index index) (λ j p. In j keys × Holds sources j p)
        (build_index-Keeps sources keys m) o objects k in
    let direct =
      narrow-none-In (owners_in sources) (Holds sources) (owners_in-Keeps sources) o objects k in
    let all = keys_of (narrow (owners_in sources) (o ∷ objects) none) in
    (
      (
        λ i.
            All-map _ _ (o ∷ objects) (λ p x. x.1)
              (held.0 ((In-sort_iff k candidates).0 (rw sorted at i))),
        λ a. rw sorted (
            (In-sort_iff k candidates).1
              (held.1 (All-map _ _ (o ∷ objects) (λ p x. (entry, x)) a))),
      ),
      (λ i. direct.0 ((In-sort_iff k all).0 i), λ a. (In-sort_iff k all).1 (direct.1 a)),
    )
