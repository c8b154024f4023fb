-- ===== src/Candidate/Select/Disjoint.antt =====
-- What remains selected: no two releases of a season that share an episode, and one for a movie.
use aninode.Prelude.{
  ℕ, true, false, Bool, ◌≡◌, ◌≢◌, refl, sym, ap, ◌∙◌, ◌⊎◌, inl, inr, List, [], ◌∷◌, Text, Option, ℤ,
  arith, Bool-cases, In, In-sort_stable, sort_stable,
}
use aninode.Episode.{overlaps}
use aninode.Episode.Interval.{overlaps_comm, overlaps_orders}
use aninode.Candidate.{Candidate, at, is_selected, is_movie}
use aninode.Candidate.Order.{ContentSource, better}
use aninode.Candidate.Schedule.{best_selection, episode_at}
use aninode.Candidate.Schedule.Best.{best_selection_sound}
use aninode.Candidate.Schedule.Subsets.{Apart}
use aninode.Candidate.Select.{
  GroupKey, select_season, select_movie, select_group, select_groups, select_best, Groups,
  group_key, group_candidates, same_key,
}
use aninode.Candidate.Select.Shrinks.{Shrinks, select_groups-Shrinks, select_season-Shrinks}
use aninode.Candidate.Select.Verdicts.{related, select_season-chosen, select_sorted-winner}
use aninode.Candidate.Select.Grouping.{members_of, group_complete, group_sound}

-- Whether the group is a movie's, as the code asks: by its first member.
abbrev pub IsMovieGroup : List Candidate → List ℕ → Type 0
IsMovieGroup cs [] = ⊥
IsMovieGroup cs (i ∷ is) = is_movie (at cs i) ≡ true

-- Two members of the group that are selected are one, or they belong to a season and share no episode.
abbrev pub IsSettled : List Candidate → List ℕ → Type 0
IsSettled cs idx =
    (i j : ℕ)
    → In i idx
    → In j idx
    → is_selected (at cs i) ≡ true
    → is_selected (at cs j) ≡ true
    → (i ≡ j) ⊎ ((¬ (IsMovieGroup cs idx)) × (overlaps (at cs i).episode (at cs j).episode ≡ false))

episode-kept :
    {cs cs' : List Candidate} (i : ℕ) → Shrinks cs cs' → (at cs' i).episode ≡ (at cs i).episode
episode-kept i s = ap (λ c. c.episode) (s.kept i)

is_movie-kept :
    {cs cs' : List Candidate} (i : ℕ) → Shrinks cs cs' → is_movie (at cs' i) ≡ is_movie (at cs i)
unfolding is_movie
is_movie-kept i s = rw (s.kept i)

Apart-flip :
    (cs : List Candidate) (x y : ℕ)
    → overlaps (at cs x).episode (at cs y).episode ≡ false
    → overlaps (at cs y).episode (at cs x).episode ≡ false
Apart-flip cs x y h = overlaps_comm (at cs y).episode (at cs x).episode ∙ h

IsSettled-later :
    {cs cs' : List Candidate} (idx : List ℕ) → Shrinks cs cs' → IsSettled cs idx → IsSettled cs' idx
IsSettled-later {cs} {cs'} idx s done i j h k si sj =
    elim (done i j h k (s.fewer i si) (s.fewer j sj)) [
      | inl e ↦ inl e
      | inr (m, o) ↦ inr (λ n. m (movie_before idx n), rw (episode-kept i s, episode-kept j s) o)
    ]
  where
    movie_before : (idx : List ℕ) → IsMovieGroup cs' idx → IsMovieGroup cs idx
    movie_before [] n = n
    movie_before (x ∷ xs) n = sym (is_movie-kept x s) ∙ n

IsSettled-one : (cs : List Candidate) (x : ℕ) → IsSettled cs (x ∷ [])
IsSettled-one cs x i j (inl e) (inl f) si sj = inl (e ∙ sym f)
IsSettled-one cs x i j (inl e) (inr k) si sj = elim k [ ]
IsSettled-one cs x i j (inr h) k si sj = elim h [ ]

is_movie-key : (c d : Candidate) → group_key c ≡ group_key d → is_movie c ≡ is_movie d
unfolding group_key
is_movie-key c d h = ground arith

season_key :
    (c d : Candidate)
    → is_movie c ≡ false
    → is_movie d ≡ false
    → c.entry_key ≡ d.entry_key
    → c.episode.season ≡ d.episode.season
    → c.episode.special ≡ d.episode.special
    → group_key c ≡ group_key d
unfolding group_key
season_key c d m n e s t = ground arith

group_key-kept :
    {cs cs' : List Candidate} (i : ℕ) → Shrinks cs cs' → group_key (at cs' i) ≡ group_key (at cs i)
unfolding group_key is_movie
group_key-kept i s = rw (s.kept i)

not_true : (b : Bool) → ¬ (b ≡ true) → b ≡ false
not_true true h = absurd (h refl)
not_true false h = refl

-- A group with a movie in it is a movie's, if all its members have one key.
movie_group :
    (cs : List Candidate) (idx : List ℕ) (i : ℕ)
    → In i idx
    → ((x : ℕ) → In x idx → group_key (at cs x) ≡ group_key (at cs i))
    → is_movie (at cs i) ≡ true
    → IsMovieGroup cs idx
movie_group cs [] i h f m = h
movie_group cs (x ∷ xs) i h f m = is_movie-key (at cs x) (at cs i) (f x (inl refl)) ∙ m

module _ (sources : List (Text × ContentSource)) (score : Option (Candidate → ℤ)) where
  select_movie-IsSettled :
      (idx : List ℕ) (cs : List Candidate) → IsSettled (select_movie sources score idx cs) idx
  unfolding select_movie
  select_movie-IsSettled idx cs i j h k si sj =
      let less = λ (a bx : ℕ). better sources score (at cs a) (at cs bx) in
      inl (
        select_sorted-winner sources score (sort_stable less idx) cs i j
          (In-sort_stable less i idx h) (In-sort_stable less j idx k) si sj)

  select_season-IsSettled :
      (idx : List ℕ) (cs : List Candidate)
      → ¬ (IsMovieGroup (select_season sources score idx cs) idx)
      → IsSettled (select_season sources score idx cs) idx
  select_season-IsSettled idx cs n i j h k si sj =
      let kept = select_season-Shrinks sources score idx cs in
      elim (related (Apart (episode_at sources score cs))
        (best_selection sources score cs idx).indexes i j (Apart-flip cs)
        (best_selection_sound sources score cs idx).1
        (select_season-chosen sources score idx cs i h si)
        (select_season-chosen sources score idx cs j k sj)) [
          | inl e ↦ inl e
          | inr o ↦ inr (n, rw (episode-kept i kept, episode-kept j kept) o)
        ]

  select_group-IsSettled :
      (idx : List ℕ) (cs : List Candidate) → IsSettled (select_group sources score idx cs) idx
  unfolding select_group
  select_group-IsSettled [] cs = λ i j h k si sj. elim h [ ]
  select_group-IsSettled (x ∷ []) cs = IsSettled-one cs x
  select_group-IsSettled (x ∷ y ∷ xs) cs = elim (Bool-cases (is_movie (at cs x))) [
    | inl m ↦ rw m (select_movie-IsSettled (x ∷ y ∷ xs) cs)
    | inr n ↦ rw n (
        select_season-IsSettled (x ∷ y ∷ xs) cs
          (λ m. cc (n, m, is_movie-kept x (select_season-Shrinks sources score (x ∷ y ∷ xs) cs))))
  ]

  -- Every group is settled after the loop over the groups.
  select_groups-IsSettled :
      (gs : Groups) (cs : List Candidate) (key : GroupKey)
      → IsSettled (select_groups sources score gs cs) (members_of key gs)
  unfolding select_groups members_of
  select_groups-IsSettled [] cs key = λ i j h k si sj. elim h [ ]
  select_groups-IsSettled ((j, idx) ∷ gs) cs key = elim (Bool-cases (same_key j key)) [
    | inl e ↦ rw e (
        IsSettled-later idx
          (select_groups-Shrinks sources score gs (select_group sources score idx cs))
          (select_group-IsSettled idx cs))
    | inr n ↦ rw n (select_groups-IsSettled gs (select_group sources score idx cs) key)
  ]

  -- selectBestByScore keeps the list and every candidate in it but for its decision and reason, and it
  -- selects no candidate that was not selected before.
  pub select_best-Shrinks : (cs : List Candidate) → Shrinks cs (select_best sources score cs)
  unfolding select_best
  select_best-Shrinks cs = select_groups-Shrinks sources score (group_candidates 0 cs []) cs

  In-own_group :
      (cs : List Candidate) (i : ℕ)
      → is_selected (at (select_best sources score cs) i) ≡ true
      → In i (members_of (group_key (at cs i)) (group_candidates 0 cs []))
  In-own_group cs i s =
      group_complete cs 0 i i [] (omega arith) ((select_best-Shrinks cs).fewer i s)

  own_group_key :
      (cs : List Candidate) (key : GroupKey) (x : ℕ)
      → In x (members_of key (group_candidates 0 cs []))
      → group_key (at cs x) ≡ key
  unfolding members_of
  own_group_key cs key x h = elim (group_sound cs 0 x key [] h) [
    | inl k ↦ elim k [ ]
    | inr (n, e, k) ↦ let e' : n ≡ x = omega arith in ap (λ m. group_key (at cs m)) (sym e') ∙ k
  ]

  -- After selectBestByScore two different candidates of one group that are both still selected belong
  -- to a season and share no episode.
  pub select_best-disjoint :
      (cs : List Candidate) (i j : ℕ)
      → group_key (at cs i) ≡ group_key (at cs j)
      → is_selected (at (select_best sources score cs) i) ≡ true
      → is_selected (at (select_best sources score cs) j) ≡ true
      → i ≢ j
      → (is_movie (at cs i) ≡ false) × (overlaps (at cs i).episode (at cs j).episode ≡ false)
  unfolding select_best
  select_best-disjoint cs i j e si sj n =
      let key = group_key (at cs i) in
      let gs = group_candidates 0 cs [] in
      let own = In-own_group cs i si in
      let other = rw (← e) at (In-own_group cs j sj) in
      let kept = select_groups-Shrinks sources score gs cs in
      elim (select_groups-IsSettled gs cs key i j own other si sj) [
        | inl same ↦ absurd (n same)
        | inr (m, o) ↦ (
          not_true (is_movie (at cs i)) (λ t. m (
              movie_group (select_groups sources score gs cs) (members_of key gs) i own
                (λ x h.
                  group_key-kept x kept ∙ own_group_key cs key x h ∙ sym (group_key-kept i kept))
                (is_movie-kept i kept ∙ t))),
          rw (episode-kept i kept, episode-kept j kept) at o,
        )
      ]

  -- After selectBestByScore no two different selected candidates of seasons share an episode, where the
  -- episode of each of them names the Entry of its candidate.
  pub select_best-no_overlap :
      (cs : List Candidate) (i j : ℕ)
      → (at cs i).episode.entry_key ≡ (at cs i).entry_key
      → (at cs j).episode.entry_key ≡ (at cs j).entry_key
      → is_movie (at cs i) ≡ false
      → is_movie (at cs j) ≡ false
      → is_selected (at (select_best sources score cs) i) ≡ true
      → is_selected (at (select_best sources score cs) j) ≡ true
      → i ≢ j
      → overlaps (at cs i).episode (at cs j).episode ≡ false
  select_best-no_overlap cs i j ei ej mi mj si sj n =
      elim (Bool-cases (overlaps (at cs i).episode (at cs j).episode)) [
        | inl t ↦ (select_best-disjoint cs i j (same_season t) si sj n).1
        | inr f ↦ f
      ]
    where
      same_season :
          overlaps (at cs i).episode (at cs j).episode ≡ true
          → group_key (at cs i) ≡ group_key (at cs j)
      same_season t =
          let slot = ((overlaps_orders (at cs i).episode (at cs j).episode).0 t).0 in
          season_key (at cs i) (at cs j) mi mj (sym ei ∙ slot.0 ∙ ej) slot.1 slot.2
