-- ===== src/Examples/Owners.antt =====
-- Two sources that share an object: internal/observation and internal/claim.
use aninode.Prelude.{
  ◌≡◌, refl, ◌↔◌, inl, false, Text, codes, text_eq, List, [], ◌∷◌, All, In, IsMap, neq_text, lookup,
  sort_stable, insert_stable,
}
use aninode.Ownership.{
  Snapshot, has_object, has_key, allows_key, narrow, keys_of, source_owners, source_of_entry,
  index_owners, index_uncertain, build_index, allowed_of, owners_by_index, has_all, physical_owners,
}
use aninode.Ownership.Agreed.{Holds, physical_owners-source_owners}

abbrev two_sources : List (Text × Snapshot)
two_sources =
    (codes "a", record { objects = 1 ∷ 2 ∷ []; has_issues = false })
    ∷ (codes "b", record { objects = 2 ∷ []; has_issues = false })
    ∷ []

two_keys : IsMap two_sources
unfolding text_eq
two_keys = ((neq_text (codes "a") (codes "b") refl, tt), (tt, tt))

owners_test :
    physical_owners (build_index two_sources (codes "a" ∷ codes "b" ∷ [])) (2 ∷ 1 ∷ [])
    ≡ (codes "a" ∷ [], false)
unfolding physical_owners build_index index_owners index_uncertain source_of_entry lookup has_object
    owners_by_index allowed_of allows_key has_key narrow keys_of has_all text_eq sort_stable
    insert_stable
owners_test = refl

physical_owners-source_owners_example :
    (In (codes "a") (codes "a" ∷ []) ↔ All (Holds two_sources (codes "a")) (2 ∷ 1 ∷ []))
    × (In (codes "a") (source_owners two_sources (2 ∷ 1 ∷ []))
        ↔ All (Holds two_sources (codes "a")) (2 ∷ 1 ∷ []))
physical_owners-source_owners_example =
    physical_owners-source_owners two_sources (codes "a" ∷ codes "b" ∷ []) 2 (1 ∷ [])
      (codes "a" ∷ []) (codes "a") two_keys owners_test (inl refl)
