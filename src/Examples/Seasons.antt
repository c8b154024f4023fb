-- ===== src/Examples/Seasons.antt =====
-- Keys, an inventory and ranges: internal/episode, internal/inventory, internal/completeness.
use aninode.Prelude.{
  true, false, ◌≡◌, ◌≢◌, refl, ◌↔◌, [], ◌∷◌, Text, codes, ℤ, pos, ◌+ℤ◌, arith, none, some, text_eq,
  rounds,
}
use aninode.MediaName.{Components, no_components}
use aninode.Episode.{Key, from_release}
use aninode.Inventory.{find_entry, season_of, find_season, missing_from, Snapshot, has, season}
use aninode.Completeness.{
  gaps_between, observed_bounds, widen, EpisodeRange, internal_gaps, incomplete,
}
use aninode.Completeness.Gaps.{IsGap, internal_gaps_iff}
use aninode.Completeness.Range.{IsRange}

abbrev show : Text
show = codes "show"

abbrev key : ℤ → ℤ → Key
key start end = record {
  entry_key = show;
  season = pos 1;
  episode_start = start;
  episode_end = end;
  revision = pos 1;
  special = false;
}

-- Season 1 with the episodes 4, 1 and 2, in this order.
abbrev library : Snapshot
library = record {
  entries =
      (
        show,
        record {
          known = true;
          available = true;
          episodes = [];
          seasons =
              (pos 1, record { known = true; episodes = pos 4 ∷ pos 1 ∷ pos 2 ∷ []; err = none })
              ∷ [];
          err = none;
        },
      )
      ∷ [];
}

abbrev four : EpisodeRange
four = record { from = pos 1; through = pos 4 }

gaps_test : internal_gaps library show (pos 1) ≡ (pos 3 ∷ [], incomplete)
unfolding internal_gaps season has ◌+ℤ◌ find_entry text_eq season_of find_season gaps_between
    observed_bounds widen missing_from rounds
gaps_test = refl

season_known : (season library show (pos 1)).known ≡ true
unfolding season find_entry text_eq season_of find_season
season_known = refl

four-IsRange : IsRange four
four-IsRange = (omega arith, omega arith)

abbrev named : Components
named = record no_components { season = pos 2; season_explicit = true; episode_start = pos 5 }

abbrev named_key : Key
named_key = record {
  entry_key = show;
  season = pos 2;
  episode_start = pos 5;
  episode_end = pos 5;
  revision = pos 1;
  special = false;
}

named_test : from_release show (pos 1) named ≡ some named_key
unfolding from_release
named_test = refl

internal_gaps_iff_example :
    ((m : ℤ)
      → (has (internal_gaps library show (pos 1)).0 m ≡ true)
        ↔ IsGap (season library show (pos 1)).episodes m)
    × (((internal_gaps library show (pos 1)).1 ≡ incomplete)
        ↔ ((internal_gaps library show (pos 1)).0 ≢ []))
internal_gaps_iff_example = internal_gaps_iff library show (pos 1) season_known
