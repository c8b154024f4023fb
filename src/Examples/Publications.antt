-- ===== src/Examples/Publications.antt =====
-- Organizer: a season and a movie that are planned, linked and converged.
use aninode.Prelude.{
  ℕ, ◌≡◌, refl, inl, inr, true, false, Text, codes, none, some, List, [], ◌∷◌, In, lookup, assign,
  delete, text_eq, get_elem?,
}
use aninode.Paths.{
  parse_path, split, split_from, starts_with_slash, walk, push, render, join_parts, clean, rel,
  rel_parts, render_rel, join, base, until_slash, strip_slashes, bool_eq,
}
use aninode.Paths.Below.{escapes, LiesBelow}
use aninode.Rss.Documents.{has_prefix}
use aninode.ReleaseFilter.{trim_space, is_space}
use aninode.Organizer.{
  link, existing, untold, told, PlanItem, Planner, safe_destination, within_root, judged, reserve,
  is_taken, linked_path, settle_new, settle, file_at, file_resolved, resolved, Seen, new_item,
  relative_to, file, plan_metadata, plan_path, gather, plan_paths, Asset, Bundle, files, plan_movie,
  is_conflicting, want_all, want_version, want_versions, want_extras, want_kind, want_bundle,
  add_item, add_items, place_wanted, finalize_movie_item, mark_item, sharers, claims_destination,
}
use aninode.Organizer.Safe.{safe_destination-below}
use aninode.Organizer.Series.{plan_paths-one_object}
use aninode.Organizer.Movie.{plan_movie-distinct}
use aninode.Organizer.Converge.{
  calls_work, converge_aliases, converge, converge_object, drop_object, drop_all, drop_stale,
  is_listed, is_proven, names, want, want_action, want_item, want_items, remove_observed_link,
  unlink_opened, unlink_verified, count_removed,
}
use aninode.Organizer.Converge.Wanted.{converge_aliases-keeps}
use aninode.Organizer.Apply.{
  Met, made, LinkCall, apply_plan, apply_items, apply_item, apply_action, apply_link, check_object,
  call_link, count_linking, count_existing,
}
use aninode.Organizer.Apply.Linked.{IsPlanned, accounted, apply_plan-links, apply_plan-accounted}

target_test : safe_destination (codes "/tv") (codes "S01/E01.mkv") ≡ some (codes "/tv/S01/E01.mkv")
unfolding safe_destination clean parse_path split split_from starts_with_slash walk push text_eq
    render join_parts has_prefix join
target_test = refl

safe_destination-below_example :
    (e : Text) × (es : List Text) × LiesBelow
      (parse_path (codes "/tv"))
      (parse_path (codes "/tv/S01/E01.mkv"))
      (e ∷ es)
safe_destination-below_example =
    safe_destination-below (codes "/tv") (codes "S01/E01.mkv") (codes "/tv/S01/E01.mkv") refl
      target_test

-- Two names of one object, and a third file that is taken for the same episode.
abbrev seen : Text → ℕ → Seen
seen path id = record {
  path = path;
  ctx_error = none;
  is_real = true;
  metadata = some (true, id);
  is_allowed = true;
  blacklist_match = none;
  resolution = resolved (codes "E1");
}

abbrev planner : Planner
planner = record {
  source_root = codes "/d";
  target_root = codes "/t";
  linked = [];
  planned_destinations = [];
  target_ids = [];
}

abbrev published : Text → Text → PlanItem
published path name = record {
  source = path;
  source_object = some 7;
  relative = name;
  destination = codes "/t/E1";
  normalized = name;
  action = link;
  detail = untold;
}

abbrev one : PlanItem
one = published (codes "/d/a") (codes "a")

abbrev two : PlanItem
two = published (codes "/d/b") (codes "b")

plan_test :
    plan_paths (seen (codes "/d/a") 7 ∷ seen (codes "/d/b") 7 ∷ []) planner ≡ (one ∷ two ∷ [], [])
unfolding plan_paths plan_path plan_metadata file new_item relative_to file_resolved file_at settle
    settle_new is_taken linked_path reserve judged gather within_root safe_destination clean
    parse_path split split_from starts_with_slash walk push text_eq render join_parts has_prefix
    join rel rel_parts render_rel base until_slash strip_slashes bool_eq escapes lookup assign
    delete
plan_test = refl

In-plan_one : In one (plan_paths (seen (codes "/d/a") 7 ∷ seen (codes "/d/b") 7 ∷ []) planner).0
In-plan_one = rw plan_test (inl refl)

In-plan_two : In two (plan_paths (seen (codes "/d/a") 7 ∷ seen (codes "/d/b") 7 ∷ []) planner).0
In-plan_two = rw plan_test (inr (inl refl))

plan_paths-one_object_example : one.source_object ≡ two.source_object
plan_paths-one_object_example =
    plan_paths-one_object (seen (codes "/d/a") 7 ∷ seen (codes "/d/b") 7 ∷ []) planner one two
      In-plan_one In-plan_two (inl refl) (inl refl) refl

abbrev video : Asset
video = record { path = codes "/d/m"; relative = codes "m"; detail = [] }

abbrev movie : Bundle
movie = record {
  kind = files;
  reason = [];
  opaque_assets = [];
  versions = record { video = video; subtitles = []; audios = []; label = [] } ∷ [];
  extras = [];
  left_out = [];
  unknown = [];
}

abbrev movie_item : PlanItem
movie_item = record {
  source = codes "/d/m";
  source_object = some 9;
  relative = codes "m";
  destination = codes "/t/M";
  normalized = codes "m";
  action = link;
  detail = told (codes "movie version");
}

movie_test :
    plan_movie (λ v a. codes "M") (λ a. codes "I") (λ x. codes "X") (λ path. some 9) movie planner
    ≡ movie_item ∷ []
unfolding plan_movie is_conflicting want_bundle want_kind want_versions want_version want_extras
    want_all add_items add_item place_wanted finalize_movie_item is_taken reserve mark_item sharers
    claims_destination safe_destination clean parse_path split split_from starts_with_slash walk
    push text_eq render join_parts has_prefix join base until_slash strip_slashes lookup
movie_test = refl

movie_found :
    get_elem?
      (plan_movie
        (λ v a. codes "M")
        (λ a. codes "I")
        (λ x. codes "X")
        (λ path. some 9)
        movie
        planner)
      0
    ≡ some movie_item
movie_found = rw movie_test refl

movie_agrees : is_conflicting movie ≡ false
unfolding is_conflicting
movie_agrees = refl

abbrev first_slot : ℕ
first_slot = 0

plan_movie-distinct_example : first_slot ≡ first_slot
plan_movie-distinct_example =
    plan_movie-distinct (λ v a. codes "M") (λ a. codes "I") (λ x. codes "X") (λ path. some 9) movie
      planner first_slot first_slot movie_item movie_item movie_agrees movie_found movie_found
      (inl refl) (inl refl) refl refl

-- The old name of the episode goes, the new one stays.
abbrev shelf : List (Text × ℕ)
shelf = (codes "/t/old", 7) ∷ (codes "/t/E1", 7) ∷ []

converge_test :
    converge_aliases
      (λ path. calls_work)
      (λ id. some (codes "/t/old" ∷ codes "/t/E1" ∷ []))
      true
      (codes "/t")
      (codes "/t")
      5
      (one ∷ [])
      shelf
    ≡ some ((codes "/t/E1", 7) ∷ [], 1)
unfolding converge_aliases converge converge_object drop_object drop_all drop_stale is_listed
    is_proven names want want_action want_item want_items remove_observed_link unlink_opened
    unlink_verified count_removed within_root clean parse_path split split_from starts_with_slash
    walk push text_eq render join_parts rel rel_parts bool_eq escapes lookup delete trim_space
    is_space
converge_test = refl

clean_test : clean (codes "/t/E1") ≡ codes "/t/E1"
unfolding clean parse_path split split_from starts_with_slash walk push text_eq render join_parts
clean_test = refl

on_shelf : lookup (clean (codes "/t/E1")) shelf ≡ some 7
unfolding lookup text_eq
on_shelf = rw clean_test refl

abbrev new_shelf : List (Text × ℕ)
new_shelf = (codes "/t/E1", 7) ∷ []

converge_aliases-keeps_example : lookup (clean (codes "/t/E1")) new_shelf ≡ some 7
converge_aliases-keeps_example =
    converge_aliases-keeps (λ path. calls_work) (λ id. some (codes "/t/old" ∷ codes "/t/E1" ∷ []))
      true (codes "/t") (codes "/t") 5 (one ∷ []) shelf new_shelf 1 one 7 converge_test (inl refl)
      refl (inl refl) refl on_shelf

abbrev met : Met
met = record {
  has_ended = false;
  is_real = true;
  is_regular = true;
  identity = some 7;
  linking = made;
}

abbrev call : LinkCall
call = record { source = codes "/d/a"; destination = codes "/t/E1"; object = 7 }

apply_test :
    (apply_plan
      (codes "/d")
      (codes "/t")
      ((one, met) ∷ (record one { action = existing }, met) ∷ [])).calls
    ≡ call ∷ []
unfolding apply_plan apply_items apply_item apply_action apply_link check_object call_link
    count_linking count_existing within_root parse_path split split_from starts_with_slash walk push
    text_eq rel rel_parts bool_eq escapes
apply_test = refl

call_made :
    In call
      (apply_plan
        (codes "/d")
        (codes "/t")
        ((one, met) ∷ (record one { action = existing }, met) ∷ [])).calls
call_made = rw apply_test (inl refl)

apply_plan-links_example :
    IsPlanned
      (codes "/d")
      (codes "/t")
      ((one, met) ∷ (record one { action = existing }, met) ∷ [])
      call
apply_plan-links_example =
    apply_plan-links (codes "/d") (codes "/t")
      ((one, met) ∷ (record one { action = existing }, met) ∷ []) call call_made

apply_plan-accounted_example :
    (apply_plan (codes "/d") (codes "/t") ((one, met) ∷ [])).result.scanned
    ≡ accounted (apply_plan (codes "/d") (codes "/t") ((one, met) ∷ []))
apply_plan-accounted_example = apply_plan-accounted (codes "/d") (codes "/t") ((one, met) ∷ [])
