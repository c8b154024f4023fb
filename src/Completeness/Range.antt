-- ===== src/Completeness/Range.antt =====
-- MissingInRange and EpisodeKeys against the availability of the keys that they speak of.
use aninode.Prelude.{
  true, false, ◌≡◌, refl, ap, map, ◌↔◌, inl, inr, List, [], ◌∷◌, All, Text, ℤ, pos, ◌≤ℤ◌, ◌<ℤ◌,
  eqb_ℤ, eqb_ℤ_iff, rounds, arith, Bool-cases, leb_ℤ,
}
use aninode.Episode.{Key, end_of}
use aninode.Inventory.{
  Availability, Snapshot, has, season, missing_from, availability, present, absent,
}
use aninode.Inventory.Queries.{
  has-missing_between, all_present_iff, availability_iff, availability-tests,
}
use aninode.Completeness.{EpisodeRange, missing_in_range, episode_keys, complete, unknown, invalid}

-- A range that MissingInRange accepts.
abbrev pub IsRange : EpisodeRange → Type 0
IsRange r = (pos 0 <ℤ r.from) × (r.from ≤ℤ r.through)

-- MissingInRange answers `invalid` exactly for a range that is none, and otherwise `unknown` exactly
-- for a season that is not known.
pub missing_in_range_errors :
    (s : Snapshot) (entry_key : Text) (n : ℤ) (r : EpisodeRange)
    → (((missing_in_range s entry_key n r).1 ≡ invalid) ↔ ¬ (IsRange r))
      × (((missing_in_range s entry_key n r).1 ≡ unknown)
          ↔ IsRange r × ((season s entry_key n).known ≡ false))
unfolding missing_in_range
missing_in_range_errors s entry_key n r = ground arith

accepted :
    (s : Snapshot) (entry_key : Text) (n : ℤ) (r : EpisodeRange)
    → IsRange r
    → (season s entry_key n).known ≡ true
    → ((missing_in_range s entry_key n r).0
        ≡ missing_from (rounds r.from r.through) r.from (season s entry_key n).episodes)
      × (((missing_in_range s entry_key n r).1 ≡ complete)
          ↔ ((missing_in_range s entry_key n r).0 ≡ []))
unfolding missing_in_range
accepted s entry_key n r v h = ground arith

-- For a range and a known season, MissingInRange lists exactly the episodes of the range that the
-- season does not hold.
pub missing_in_range_iff :
    (s : Snapshot) (entry_key : Text) (n : ℤ) (r : EpisodeRange)
    → IsRange r
    → (season s entry_key n).known ≡ true
    → (m : ℤ)
    → (has (missing_in_range s entry_key n r).0 m ≡ true)
      ↔ (r.from ≤ℤ m) × (m ≤ℤ r.through) × (has (season s entry_key n).episodes m ≡ false)
missing_in_range_iff s entry_key n r v h m =
    rw (accepted s entry_key n r v h).0
      (has-missing_between r.from r.through (season s entry_key n).episodes m)

-- The key of a whole range.
abbrev pub range_key : Text → ℤ → EpisodeRange → Key
range_key entry_key n r = record {
  entry_key = entry_key;
  season = n;
  episode_start = r.from;
  episode_end = r.through;
  revision = pos 0;
  special = eqb_ℤ n (pos 0);
}

end_of-range_key :
    (entry_key : Text) (n : ℤ) (r : EpisodeRange)
    → IsRange r
    → end_of (range_key entry_key n r) ≡ r.through
unfolding end_of
end_of-range_key entry_key n r v = ground arith

-- For a range and a known season, MissingInRange answers `complete` exactly when Availability answers
-- Present for the key of the whole range.
pub complete-availability :
    (s : Snapshot) (entry_key : Text) (n : ℤ) (r : EpisodeRange)
    → IsRange r
    → (season s entry_key n).known ≡ true
    → ((missing_in_range s entry_key n r).1 ≡ complete)
      ↔ (availability s (range_key entry_key n r) ≡ present)
complete-availability s entry_key n r v h =
    let a = accepted s entry_key n r v h in
    let k = range_key entry_key n r in
    let e = end_of-range_key entry_key n r v in
    ground (
      arith,
      a.0,
      a.1,
      e,
      availability-tests s k,
      all_present_iff (rounds r.from r.through) r.from (season s entry_key n).episodes,
    )

only_absent : (a : Availability) → ¬ (a ≡ present) → ¬ (a ≡ Availability.unknown) → a ≡ absent
only_absent Availability.unknown h k = absurd (k refl)
only_absent absent h k = refl
only_absent present h k = absurd (h refl)

-- The key that EpisodeKeys makes of one missing episode.
episode_key-absent :
    (s : Snapshot) (entry_key : Text) (n m : ℤ)
    → (season s entry_key n).known ≡ true
    → has (season s entry_key n).episodes m ≡ false
    → availability s (range_key entry_key n (record { from = m; through = m })) ≡ absent
unfolding end_of
episode_key-absent s entry_key n m h e =
    let k = range_key entry_key n (record { from = m; through = m }) in
    let a = availability_iff s k in
    only_absent (availability s k) (λ p. cc ((a.0.0 p).1 m (omega arith) (ground arith), e))
      (λ u. cc (a.1.0 u, h))

episode_keys-absent :
    (s : Snapshot) (entry_key : Text) (n : ℤ) (eps : List ℤ)
    → (season s entry_key n).known ≡ true
    → ((m : ℤ) → has eps m ≡ true → has (season s entry_key n).episodes m ≡ false)
    → All (λ k. availability s k ≡ absent) (episode_keys entry_key n eps)
unfolding episode_keys has
episode_keys-absent s entry_key n [] h f = tt
episode_keys-absent s entry_key n (m ∷ ms) h f =
    let rest =
      episode_keys-absent s entry_key n ms h (λ m' e. f m' (ground (arith, eqb_ℤ_iff m m'))) in
    let here = episode_key-absent s entry_key n m h (f m (ground (arith, eqb_ℤ_iff m m))) in
    elim (Bool-cases (leb_ℤ m (pos 0))) [ inl low ↦ rw low rest | inr high ↦ rw high (here, rest) ]

map-episode_keys :
    (entry_key : Text) (n : ℤ) (eps : List ℤ)
    → ((m : ℤ) → has eps m ≡ true → pos 0 <ℤ m)
    → map (λ k. k.episode_start) (episode_keys entry_key n eps) ≡ eps
unfolding episode_keys has
map-episode_keys entry_key n [] f = refl
map-episode_keys entry_key n (m ∷ ms) f =
    let rest = map-episode_keys entry_key n ms (λ m' e. f m' (ground (arith, eqb_ℤ_iff m m'))) in
    let high : leb_ℤ m (pos 0) ≡ false = ground (arith, f m, eqb_ℤ_iff m m) in
    rw high (ap (λ r. m ∷ r) rest)

-- For a range and a known season, every key that EpisodeKeys makes of the episodes that MissingInRange
-- lists is absent from the inventory, and their starts are the missing episodes, in order.
pub missing_keys-absent :
    (s : Snapshot) (entry_key : Text) (n : ℤ) (r : EpisodeRange)
    → IsRange r
    → (season s entry_key n).known ≡ true
    → All
        (λ k. availability s k ≡ absent)
        (episode_keys entry_key n (missing_in_range s entry_key n r).0)
      × (map (λ k. k.episode_start) (episode_keys entry_key n (missing_in_range s entry_key n r).0)
          ≡ (missing_in_range s entry_key n r).0)
missing_keys-absent s entry_key n r v h = (
  episode_keys-absent s entry_key n _ h
      (λ m e. ((missing_in_range_iff s entry_key n r v h m).0 e).2),
  map-episode_keys entry_key n _
      (λ m e. let found = (missing_in_range_iff s entry_key n r v h m).0 e in omega arith),
)
